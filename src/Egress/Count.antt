-- ===== src/Egress/Count.antt =====
-- How many contexts are busy, and that moving a context in the list keeps the number.
use nanomsg_transport_ofi.Prelude.{
  is_some, ℕ, zero, suc, ◌≤◌, ◌<◌, ◌≡◌, Bool, true, false, Option, none, some, arith, if◌then◌else◌,
  ◌==◌, ◌∙◌, refl, subst, inl, inr, Bool-cases,
}
use nanomsg_transport_ofi.Egress.{
  Ctx, Egress, mark_busy, mark_free, set_next, set_prev, pop_tail, unlink,
}

module _ {M H : Type 0} where
  abbrev pub is_busy : Ctx M H → Bool
  is_busy c = is_some c.mr_handle

  set_next-is_busy :
      (cs : ℕ → Ctx M H) (i : ℕ) (p : Option ℕ) (j : ℕ)
      → is_busy (set_next cs i p j) ≡ is_busy (cs j)
  set_next-is_busy cs i p j = ground arith

  set_prev-is_busy :
      (cs : ℕ → Ctx M H) (i : ℕ) (p : Option ℕ) (j : ℕ)
      → is_busy (set_prev cs i p j) ≡ is_busy (cs j)
  set_prev-is_busy cs i p j = ground arith

  -- How many of the first `n` contexts hold a memory region.
  abbrev pub busy : ℕ → (ℕ → Ctx M H) → ℕ
  busy zero cs = 0
  busy (suc n) cs = let k = busy n cs in if is_busy (cs n) then suc k else k

  pub busy-same :
      (n : ℕ) (cs ds : ℕ → Ctx M H)
      → ((j : ℕ) → is_busy (ds j) ≡ is_busy (cs j))
      → busy n ds ≡ busy n cs
  busy-same zero cs ds h = refl
  busy-same (suc n) cs ds h = ground (arith, h n, busy-same n cs ds h)

  busy-above :
      (n c : ℕ) (cs ds : ℕ → Ctx M H)
      → n ≤ c
      → ((j : ℕ) → (j == c) ≡ false → is_busy (ds j) ≡ is_busy (cs j))
      → busy n ds ≡ busy n cs
  busy-above zero c cs ds lt h = refl
  busy-above (suc n) c cs ds lt h =
      ground (arith, h n (ground arith), busy-above n c cs ds (omega arith) h)

  pub busy-take :
      (n c : ℕ) (cs ds : ℕ → Ctx M H)
      → c < n
      → is_busy (cs c) ≡ false
      → is_busy (ds c) ≡ true
      → ((j : ℕ) → (j == c) ≡ false → is_busy (ds j) ≡ is_busy (cs j))
      → busy n ds ≡ suc (busy n cs)
  busy-take zero c cs ds lt f t h = ground arith
  busy-take (suc n) c cs ds lt f t h = elim (Bool-cases (n == c)) [
    | inl e ↦
        let q : n ≡ c = ground arith in ground (arith, q, busy-above n c cs ds (omega (arith, q)) h)
    | inr e ↦ ground (arith, h n e, busy-take n c cs ds (ground (arith, e)) f t h)
  ]

  pub busy-le : (n : ℕ) (cs : ℕ → Ctx M H) → busy n cs ≤ n
  busy-le zero cs = omega arith
  busy-le (suc n) cs = ground (arith, busy-le n cs)

  pub busy-some : (n c : ℕ) (cs : ℕ → Ctx M H) → c < n → is_busy (cs c) ≡ true → 0 < busy n cs
  busy-some zero c cs lt b = omega arith
  busy-some (suc n) c cs lt b = elim (Bool-cases (n == c)) [
    | inl e ↦ let q : n ≡ c = ground (arith, e) in ground (arith, q, b)
    | inr e ↦ ground (arith, busy-some n c cs (ground (arith, e)) b)
  ]

  pub busy-zero :
      (n : ℕ) (cs : ℕ → Ctx M H) → ((j : ℕ) → j < n → is_busy (cs j) ≡ false) → busy n cs ≡ 0
  busy-zero zero cs h = refl
  busy-zero (suc n) cs h =
      ground (arith, h n (omega arith), busy-zero n cs (λ j lt. h j (omega arith)))

  pub busy-bound : (n c : ℕ) (cs : ℕ → Ctx M H) → c < n → is_busy (cs c) ≡ false → busy n cs < n
  busy-bound zero c cs lt f = omega arith
  busy-bound (suc n) c cs lt f = elim (Bool-cases (n == c)) [
    | inl e ↦ let q : n ≡ c = ground (arith, e) in ground (arith, q, f, busy-le n cs)
    | inr e ↦ ground (arith, busy-bound n c cs (ground (arith, e)) f)
  ]

  -- No context is busy exactly if the count is 0.
  pub busy-none :
      (n : ℕ) (cs : ℕ → Ctx M H) → busy n cs ≡ 0 → (j : ℕ) → j < n → is_busy (cs j) ≡ false
  busy-none n cs z j lt = elim (Bool-cases (is_busy (cs j))) [
    | inl b ↦ ground (arith, z, busy-some n j cs lt b)
    | inr b ↦ b
  ]

module _ {M H S : Type 0} where
  pub mark_busy-is_busy :
      (e f : Egress M H S) (c j : ℕ)
      → mark_busy e c ≡ some f
      → is_busy (f.contexts j) ≡ is_busy (e.contexts j)
  unfolding mark_busy
  mark_busy-is_busy e f c j h = ground arith

  -- The same contexts are busy.
  abbrev Keeps : Egress M H S → Option (Egress M H S) → ℕ → Type 0
  Keeps e none j = e ≡ e
  Keeps e (some f) j = is_busy (f.contexts j) ≡ is_busy (e.contexts j)

  pop_tail-Keeps : (e : Egress M H S) (c j : ℕ) (p : Option ℕ) → Keeps e (pop_tail e c p) j
  pop_tail-Keeps e c j none = refl
  pop_tail-Keeps e c j (some p) =
      let a = set_next e.contexts p none in
      let b = set_prev a c none in
      let d = set_next b c (some e.head) in
      set_prev-is_busy d e.head (some c) j
      ∙ set_next-is_busy b c (some e.head) j
      ∙ set_prev-is_busy a c none j
      ∙ set_next-is_busy e.contexts p none j

  unlink-Keeps : (e : Egress M H S) (c j : ℕ) (n p : Option ℕ) → Keeps e (unlink e c n p) j
  unlink-Keeps e c j none p = refl
  unlink-Keeps e c j (some n) none = refl
  unlink-Keeps e c j (some n) (some p) =
      let a = set_prev e.contexts n (some p) in
      let b = set_next a p (some n) in
      let d = set_next b c (some e.head) in
      let g = set_prev d e.head (some c) in
      set_prev-is_busy g c none j
      ∙ set_prev-is_busy d e.head (some c) j
      ∙ set_next-is_busy b c (some e.head) j
      ∙ set_next-is_busy a p (some n) j
      ∙ set_prev-is_busy e.contexts n (some p) j

  mark_free-Keeps : (e : Egress M H S) (c j : ℕ) → Keeps e (mark_free e c) j
  unfolding mark_free
  mark_free-Keeps e c j = elim (Bool-cases (is_busy (e.contexts c))) [
    | inl b ↦ rw b refl
    | inr b ↦ rw b (elim (Bool-cases (c == e.tail)) [
      | inl t ↦ rw t (pop_tail-Keeps e c j (e.contexts c).prev)
      | inr t ↦ rw t (elim (Bool-cases (c == e.head)) [
        | inl h ↦ rw h refl
        | inr h ↦ rw h (unlink-Keeps e c j (e.contexts c).next (e.contexts c).prev)
      ])
    ])
  ]

  pub mark_free-is_busy :
      (e f : Egress M H S) (c j : ℕ)
      → mark_free e c ≡ some f
      → is_busy (f.contexts j) ≡ is_busy (e.contexts j)
  mark_free-is_busy e f c j h = subst (λ o. Keeps e o j) h (mark_free-Keeps e c j)

  pub mark_free-counter :
      (e f : Egress M H S) (c : ℕ)
      → mark_free e c ≡ some f
      → (f.counter ≡ e.counter) × (f.max ≡ e.max)
  unfolding mark_free
  mark_free-counter e f c h = ground arith
