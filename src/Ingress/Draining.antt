-- ===== src/Ingress/Draining.antt =====
-- The loops over the buffers: they end, and what they leave.
use nanomsg_transport_ofi.Prelude.{
  count, is_some, ℕ, zero, suc, ◌+◌, ◌≤◌, ◌≡◌, Bool, Option, none, some, List, [], ◌∷◌, arith, refl,
  ap, first_of, subst, sym, ◌∙◌, length, Bool-cases, inl, inr, ◌||◌,
}
use nanomsg_transport_ofi.Ingress.{
  Message, Ingress, points_to, leave_busy, enter_free, mark_free, mark_populated, populated_taken,
}
use nanomsg_transport_ofi.Ingress.Receiving.{flush_busy, flush_populated}
use nanomsg_transport_ofi.Ingress.Lists.{Holds}
use nanomsg_transport_ofi.Ingress.Moves.{
  head-Outside, populated_taken-Holds, populated_taken-IsLoose, pop_populated-some,
  pop_populated-none, mark_free-busy, mark_free-loose,
}

-- The members of `xs` one by one in front of `ys`.
abbrev pub onto : List ℕ → List ℕ → List ℕ
onto [] ys = ys
onto (x ∷ xs) ys = onto xs (x ∷ ys)

pub length-onto : (xs ys : List ℕ) → length (onto xs ys) ≡ length xs + length ys
length-onto [] ys = omega arith
length-onto (x ∷ xs) ys = omega (arith, length-onto xs (x ∷ ys))

pub count-onto : (j : ℕ) (xs ys : List ℕ) → count j (onto xs ys) ≡ count j xs + count j ys
count-onto j [] ys = omega arith
count-onto j (x ∷ xs) ys = ground (arith, count-onto j xs (x ∷ ys))

module _ {S : Type 0} where
  -- What the lists do not touch.
  abbrev pub rest :
      Ingress S → ℕ × Bool × Bool × Bool × Bool × (ℕ → Option Message) × (ℕ → ℕ) × ℕ × S
  rest e = (
    e.max, e.post_later, e.nn_busy, e.nn_later, e.flush_later, e.msg, e.refs, e.ticks_in, e.world,
  )

  leave_busy-rest : (e : Ingress S) (b : ℕ) → rest (leave_busy e b) ≡ rest e
  unfolding leave_busy
  leave_busy-rest e b = elim (Bool-cases (points_to e.busy b)) [
    | inl h ↦ rw h refl
    | inr h ↦ elim (Bool-cases (is_some (e.links.prev b) || is_some (e.links.next b))) [
      | inl k ↦ rw h (rw k refl)
      | inr k ↦ rw h (rw k refl)
    ]
  ]

  pub mark_free-rest : (e : Ingress S) (b : ℕ) → rest (mark_free e b) ≡ rest e
  unfolding mark_free enter_free
  mark_free-rest e b = leave_busy-rest e b

  pub mark_populated-rest : (e : Ingress S) (b : ℕ) → rest (mark_populated e b) ≡ rest e
  unfolding mark_populated
  mark_populated-rest e b = leave_busy-rest e b

  flush_busy-step :
      (k b : ℕ) (e : Ingress S)
      → e.busy ≡ some b
      → flush_busy (suc k) e ≡ flush_busy k (mark_free e b)
  unfolding flush_busy
  flush_busy-step k b e h = rw h refl

  flush_busy-end : (k : ℕ) (e : Ingress S) → e.busy ≡ none → flush_busy k e ≡ e
  unfolding flush_busy
  flush_busy-end zero e h = refl
  flush_busy-end (suc k) e h = rw h refl

  -- With fuel for all busy buffers, the first loop makes each of them free, and the rest stays.
  pub flush_busy-Holds :
      (k : ℕ) (e : Ingress S) (fs bs ps : List ℕ)
      → Holds e fs bs ps
      → length bs ≤ k
      → Holds (flush_busy k e) (onto bs fs) [] ps × (rest (flush_busy k e) ≡ rest e)
  flush_busy-Holds k e fs [] ps h n =
      let q = flush_busy-end k e h.busy in (subst (λ z. Holds z fs [] ps) (sym q) h, ap rest q)
  flush_busy-Holds zero e fs (b ∷ bs) ps h n = absurd (omega (arith, n))
  flush_busy-Holds (suc k) e fs (b ∷ bs) ps h n =
      let q = flush_busy-step k b e h.busy in
      let r =
        flush_busy-Holds k (mark_free e b) (b ∷ fs) bs ps (mark_free-busy e b fs [] bs ps h)
          (omega (arith, n)) in
      (
        subst (λ z. Holds z (onto bs (b ∷ fs)) [] ps) (sym q) r.0,
        ap rest q ∙ r.1 ∙ mark_free-rest e b,
      )

  pub flush_populated-step :
      (k b : ℕ) (ps : List ℕ) (e : Ingress S)
      → e.pop_head ≡ first_of (b ∷ ps)
      → flush_populated (suc k) e ≡ flush_populated k (mark_free (populated_taken e b) b)
  unfolding flush_populated
  flush_populated-step k b ps e h = rw (flush_populated, pop_populated-some e b ps h) refl

  pub flush_populated-end : (k : ℕ) (e : Ingress S) → e.pop_head ≡ none → flush_populated k e ≡ e
  unfolding flush_populated
  flush_populated-end zero e h = refl
  flush_populated-end (suc k) e h = rw (flush_populated, pop_populated-none e h) refl

  pub take_free-Holds :
      (e : Ingress S) (b : ℕ) (fs bs ps : List ℕ)
      → Holds e fs bs (b ∷ ps)
      → Holds (mark_free (populated_taken e b) b) (b ∷ fs) bs ps
  take_free-Holds e b fs bs ps h =
      mark_free-loose (populated_taken e b) b fs bs ps (populated_taken-Holds e b fs bs ps h)
        (head-Outside b fs bs ps h.apart) (populated_taken-IsLoose e b)

  -- With fuel for all populated buffers, the second loop makes each of them free.
  pub flush_populated-Holds :
      (k : ℕ) (e : Ingress S) (fs bs ps : List ℕ)
      → Holds e fs bs ps
      → length ps ≤ k
      → Holds (flush_populated k e) (onto ps fs) bs [] × (rest (flush_populated k e) ≡ rest e)
  flush_populated-Holds k e fs bs [] h n =
      let q = flush_populated-end k e h.pop_head in
      (subst (λ z. Holds z fs bs []) (sym q) h, ap rest q)
  flush_populated-Holds zero e fs bs (b ∷ ps) h n = absurd (omega (arith, n))
  flush_populated-Holds (suc k) e fs bs (b ∷ ps) h n =
      let q = flush_populated-step k b ps e h.pop_head in
      let r =
        flush_populated-Holds k (mark_free (populated_taken e b) b) (b ∷ fs) bs ps
          (take_free-Holds e b fs bs ps h) (omega (arith, n)) in
      (
        subst (λ z. Holds z (onto ps (b ∷ fs)) bs []) (sym q) r.0,
        ap rest q ∙ r.1 ∙ mark_free-rest (populated_taken e b) b,
      )
