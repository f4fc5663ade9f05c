-- ===== src/Egress/Balance.antt =====
-- The counter of the back-pressure and the contexts in use.
use nanomsg_transport_ofi.Prelude.{
  ℕ, suc, ◌+◌, ◌<◌, ◌≡◌, true, false, Option, none, some, arith, if◌then◌else◌, ◌==◌, ◌∙◌, refl,
  subst, ℤ, inl, inr, Bool-cases, Option-cases, is_zero, ◌||◌, ◌↔◌, update,
}
use nanomsg_transport_ofi.Egress.{Parts, Egress, is_empty, mark_busy, mark_free, get_context}
use nanomsg_transport_ofi.Egress.Sending.{
  Staged, done, critical, Posted, free_context, sent, described, move_msg, post_buffers, send,
  stage, handle, handle_error,
}
use nanomsg_transport_ofi.Egress.Count.{
  is_busy, busy, busy-same, busy-take, busy-bound, busy-some, busy-zero, busy-none,
  mark_busy-is_busy, mark_free-is_busy, mark_free-counter,
}

module _ {M H S : Type 0} where
  -- The counter is the number of contexts that are not busy.
  abbrev pub IsBalanced : Egress M H S → Type 0
  IsBalanced e = e.counter + busy e.max e.contexts ≡ e.max

  -- What `nn_sofi_egress_stage` leaves.
  abbrev pub left_by : Staged M H S → Egress M H S
  left_by (done e) = e
  left_by (critical ret e) = e

  -- If the counter is the number of contexts that are not busy, `nn_sofi_egress_empty` holds exactly
  -- if no context is busy.
  pub is_empty-idle :
      (e : Egress M H S)
      → IsBalanced e
      → (is_empty e ≡ true) ↔ ((j : ℕ) → j < e.max → is_busy (e.contexts j) ≡ false)
  unfolding is_empty
  is_empty-idle e b = (
    λ h. busy-none e.max e.contexts (ground (arith, h, b)),
    λ h. ground (arith, busy-zero e.max e.contexts h, b),
  )

module _ {M H S : Type 0} (parts : Parts M H S) where
  freed-busy :
      (e f : Egress M H S) (c : ℕ)
      → c < e.max
      → is_busy (e.contexts c) ≡ true
      → mark_free (free_context parts e c) c ≡ some f
      → busy e.max e.contexts ≡ suc (busy e.max f.contexts)
  unfolding free_context
  freed-busy e f c lt b h =
      busy-take e.max c f.contexts e.contexts lt
        (ground (arith, mark_free-is_busy (free_context parts e c) f c c h)) b
        (λ j n. ground (arith, n, mark_free-is_busy (free_context parts e c) f c j h))

  pub handle-busy :
      (e f : Egress M H S) (c : ℕ)
      → c < e.max
      → e.counter < 4294967295
      → is_busy (e.contexts c) ≡ true
      → handle parts e c ≡ some f
      → (f.max ≡ e.max)
        × (f.counter ≡ suc e.counter)
        × (f.counter + busy e.max f.contexts ≡ e.counter + busy e.max e.contexts)
  unfolding handle free_context
  handle-busy e f c lt m b h =
      let r : Egress M H S = record e { ticks_out = 0 } in
      elim (Option-cases (mark_free (free_context parts r c) c)) [
        | inl n ↦ ground (arith, h, n)
        | inr (g, q) ↦
            let k = freed-busy r g c lt b q in
            let l = mark_free-counter (free_context parts r c) g c q in
            ground (arith, h, q, k, l.0, l.1)
      ]

  pub handle_error-busy :
      (e f : Egress M H S) (c : ℕ)
      → c < e.max
      → is_busy (e.contexts c) ≡ true
      → handle_error parts e c ≡ some f
      → (f.max ≡ e.max)
        × (f.counter ≡ e.counter)
        × (suc (f.counter + busy e.max f.contexts) ≡ e.counter + busy e.max e.contexts)
  unfolding handle_error free_context
  handle_error-busy e f c lt b h =
      let k = freed-busy e f c lt b h in
      let l = mark_free-counter (free_context parts e c) f c h in ground (arith, k, l.0, l.1)

  -- What posting leaves: on success the head is busy too, and on failure nothing more.
  abbrev Posts : Egress M H S → Option (Posted M H S) → ℕ → Type 0
  Posts e none j = e ≡ e
  Posts e (some p) j =
      is_busy (p.egress.contexts j)
      ≡ (if is_zero p.ret then (e.head == j || is_busy (e.contexts j)) else is_busy (e.contexts j))

  sent-Posts :
      (e g : Egress M H S) (r : ℤ × S) (j : ℕ)
      → is_busy (e.contexts e.head) ≡ false
      → ((i : ℕ) → is_busy (g.contexts i) ≡ (e.head == i || is_busy (e.contexts i)))
      → Posts e (sent parts g e.head r) j
  unfolding mark_busy free_context
  sent-Posts e g (ret, w) j n h =
      let x : Egress M H S = record g { world = w } in
      elim (Bool-cases (is_zero ret)) [
        | inl z ↦ rw z (elim (Option-cases (mark_busy x e.head)) [
          | inl o ↦ rw o refl
          | inr (f, o) ↦ rw o (mark_busy-is_busy x f e.head j o ∙ h j)
        ])
        | inr z ↦ ground (arith, z, h j, n)
      ]

  described-Posts :
      (e : Egress M H S) (r : ℤ × H × S) (j : ℕ)
      → is_busy (e.contexts e.head) ≡ false
      → Posts e (described parts (move_msg parts e e.head) e.head r) j
  unfolding free_context mark_busy
  described-Posts e (ret, h, w) j n =
      let g = move_msg parts e e.head in
      let x : Egress M H S = record g {
        contexts = update g.contexts e.head (record (g.contexts e.head) { mr_handle = some h });
        world = w;
      } in
      elim (Bool-cases (is_zero ret)) [
        | inl z ↦
            rw z
              (sent-Posts e x (parts.sendmsg (g.contexts e.head).msg h w) j n (λ i. ground arith))
        | inr z ↦ ground (arith, z, n)
      ]

  post_buffers-Posts : (e : Egress M H S) (j : ℕ) → Posts e (post_buffers parts e) j
  unfolding post_buffers get_context
  post_buffers-Posts e j = elim (Bool-cases (is_busy (e.contexts e.head))) [
    | inl b ↦ rw b refl
    | inr b ↦ rw b (described-Posts e (parts.describe e.outmsg e.world) j b)
  ]

  post_buffers-counter :
      (e : Egress M H S) (p : Posted M H S)
      → post_buffers parts e ≡ some p
      → (p.egress.counter ≡ e.counter) × (p.egress.max ≡ e.max)
  unfolding post_buffers get_context mark_busy free_context
  post_buffers-counter e p h = ground arith

  post_buffers-head :
      (e : Egress M H S) (p : Posted M H S)
      → post_buffers parts e ≡ some p
      → is_zero p.ret ≡ true
      → is_busy (e.contexts e.head) ≡ false
  unfolding post_buffers get_context
  post_buffers-head e p h z = elim (Bool-cases (is_busy (e.contexts e.head))) [
    | inl b ↦ ground (arith, b, h, z)
    | inr b ↦ b
  ]

  post_buffers-busy :
      (e : Egress M H S) (p : Posted M H S)
      → e.head < e.max
      → post_buffers parts e ≡ some p
      → busy e.max p.egress.contexts
        ≡ (if is_zero p.ret then suc (busy e.max e.contexts) else busy e.max e.contexts)
  post_buffers-busy e p lt h =
      let f : (j : ℕ) → Posts e (some p) j =
        λ j. subst (λ o. Posts e o j) h (post_buffers-Posts e j) in
      elim (Bool-cases (is_zero p.ret)) [
        | inl z ↦ rw z (
            busy-take e.max e.head e.contexts p.egress.contexts lt (post_buffers-head e p h z)
              (ground (arith, f e.head, z)) (λ j n. ground (arith, f j, z, n)))
        | inr z ↦ rw z (busy-same e.max e.contexts p.egress.contexts (λ j. ground (arith, f j, z)))
      ]

  pub send-busy :
      (e : Egress M H S) (p : Posted M H S)
      → e.head < e.max
      → IsBalanced e
      → send parts e ≡ some p
      → (p.egress.max ≡ e.max) × (p.egress.counter + busy e.max p.egress.contexts ≡ e.max)
  unfolding send
  send-busy e p lt b h = elim (Option-cases (post_buffers parts e)) [
    | inl n ↦ ground (arith, h, n)
    | inr (q, n) ↦
        let k = post_buffers-busy e q lt n in
        let c = post_buffers-counter e q n in
        let f = post_buffers-head e q n in
        let l = busy-bound e.max e.head e.contexts lt in ground (arith, h, n, k, c, f, l, b)
  ]

  -- With the head of the list inside the array, `nn_sofi_egress_stage` keeps the counter equal to the
  -- number of contexts that are not busy, on every path, errors included.
  pub stage-IsBalanced :
      (e : Egress M H S) (m : M) (r : Staged M H S)
      → e.head < e.max
      → IsBalanced e
      → stage parts e m ≡ some r
      → IsBalanced (left_by r)
  unfolding stage
  stage-IsBalanced e m r lt b h =
      let f : Egress M H S = record e { outmsg = some m; staged = true } in
      elim (Option-cases (send parts f)) [
        | inl n ↦ ground (arith, h, n, b)
        | inr (p, n) ↦ let k = send-busy f p lt b n in ground (arith, h, n, b, k.0, k.1)
      ]

  -- The end of a transmission keeps the counter equal to the number of contexts that are not busy,
  -- and counts the context as free. The context has to be busy, and in an array of less than 2^32.
  pub handle-IsBalanced :
      (e f : Egress M H S) (c : ℕ)
      → c < e.max
      → e.max < 4294967296
      → is_busy (e.contexts c) ≡ true
      → IsBalanced e
      → handle parts e c ≡ some f
      → IsBalanced f × (f.counter ≡ suc e.counter)
  handle-IsBalanced e f c lt m u b h =
      let s = busy-some e.max c e.contexts lt u in
      let k = handle-busy e f c lt (omega (arith, m, s, b)) u h in ground (arith, k.0, k.1, k.2, b)

  -- After the error of a transmission the counter stays one below the number of contexts that are
  -- not busy, and `nn_sofi_egress_empty` does not hold.
  pub handle_error-lost :
      (e f : Egress M H S) (c : ℕ)
      → c < e.max
      → is_busy (e.contexts c) ≡ true
      → IsBalanced e
      → handle_error parts e c ≡ some f
      → (suc (f.counter + busy f.max f.contexts) ≡ f.max) × (is_empty f ≡ false)
  unfolding is_empty
  handle_error-lost e f c lt u b h =
      let k = handle_error-busy e f c lt u h in ground (arith, k.0, k.1, k.2, b)
