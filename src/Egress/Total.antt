-- ===== src/Egress/Total.antt =====
-- Staging a message does not fail on a well-formed queue.
use nanomsg_transport_ofi.Prelude.{
  is_some, contains-last, first-other, ℕ, ◌<◌, ◌≡◌, true, false, some, ℤ, List, ◌∷◌, arith, ◌==◌,
  sym, subst, refl, Bool-cases, Option-cases, inl, inr, is_zero, update, contains,
}
use nanomsg_transport_ofi.Egress.{Egress, Parts, mark_busy, get_context}
use nanomsg_transport_ofi.Egress.Count.{is_busy}
use nanomsg_transport_ofi.Egress.Sending.{
  Staged, free_context, sent, described, move_msg, post_buffers, send, stage,
}
use nanomsg_transport_ofi.Egress.Balance.{IsBalanced, left_by, stage-IsBalanced}
use nanomsg_transport_ofi.Egress.Chain.{IsChain, moved-mark_busy}

module _ {M H S : Type 0} (parts : Parts M H S) where
  sent-is_some :
      (g : Egress M H S) (c d : ℕ) (r : ℤ × S)
      → g.head ≡ c
      → (g.contexts c).next ≡ some d
      → (c == g.tail) ≡ false
      → is_busy (g.contexts c) ≡ true
      → is_some (sent parts g c r) ≡ true
  unfolding mark_busy free_context
  sent-is_some g c d (ret, w) h n t b =
      let k = moved-mark_busy (record g { world = w }) c d h n t b in
      elim (Bool-cases (is_zero ret)) [ inl z ↦ rw z (rw k refl) | inr z ↦ rw z refl ]

  described-is_some :
      (e : Egress M H S) (c d : ℕ) (r : ℤ × H × S)
      → e.head ≡ c
      → (e.contexts c).next ≡ some d
      → (c == e.tail) ≡ false
      → is_some (described parts (move_msg parts e c) c r) ≡ true
  unfolding free_context mark_busy
  described-is_some e c d (ret, k, w) h n t =
      let g = move_msg parts e c in
      let x : Egress M H S = record g {
        contexts = update g.contexts c (record (g.contexts c) { mr_handle = some k });
        world = w;
      } in
      elim (Bool-cases (is_zero ret)) [
        | inl z ↦ rw z (
            sent-is_some x c d (parts.sendmsg (g.contexts c).msg k w) h (ground (arith, n)) t
              (ground arith))
        | inr z ↦ rw z refl
      ]

  post_buffers-is_some :
      (e : Egress M H S) (c d : ℕ)
      → e.head ≡ c
      → (e.contexts c).next ≡ some d
      → (c == e.tail) ≡ false
      → is_some (post_buffers parts e) ≡ true
  unfolding post_buffers get_context
  post_buffers-is_some e c d h n t = elim (Bool-cases (is_busy (e.contexts e.head))) [
    | inl b ↦ rw b refl
    | inr b ↦ rw b (
        described-is_some e e.head d (parts.describe e.outmsg e.world) refl
          (subst (λ x. (e.contexts x).next ≡ some d) (sym h) n)
          (subst (λ x. (x == e.tail) ≡ false) (sym h) t))
  ]

  stage-is_some :
      (e : Egress M H S) (m : M) (c d : ℕ) (xs : List ℕ)
      → IsChain e c (d ∷ xs)
      → e.staged ≡ false
      → is_some (stage parts e m) ≡ true
  unfolding stage send
  stage-is_some e m c d xs h u =
      let f : Egress M H S = record e { outmsg = some m; staged = true } in
      let k = subst (λ x. contains x (d ∷ xs) ≡ true) (sym h.tail) (contains-last d xs) in
      let l = h.links in
      let t = first-other c e.tail (d ∷ xs) h.distinct k in
      let p = post_buffers-is_some f c d h.head l.1 t in ground (arith, p, u)

  -- On a queue that represents a sequence of at least two contexts, and holds no staged message,
  -- `nn_sofi_egress_stage` neither fails an assertion nor uses NULL. If the counter was the number of
  -- contexts that are not busy, and the head lies in the array, it is so afterwards, on every path,
  -- errors included.
  pub stage-returns :
      (e : Egress M H S) (m : M) (c d : ℕ) (xs : List ℕ)
      → IsChain e c (d ∷ xs)
      → e.staged ≡ false
      → c < e.max
      → IsBalanced e
      → (r : Staged M H S) × (stage parts e m ≡ some r) × IsBalanced (left_by r)
  stage-returns e m c d xs h u lt b = elim (Option-cases (stage parts e m)) [
    | inl n ↦ let k = stage-is_some e m c d xs h u in ground (arith, n, k)
    | inr (r, n) ↦ (r, n, stage-IsBalanced parts e m r (subst (λ x. x < e.max) (sym h.head) lt) b n)
  ]
