-- ===== src/Bofi/Offsets/Search.antt =====
-- The search for a free slot, and the clearing of new slots.
use nanomsg_transport_ofi.Prelude.{
  ℕ, zero, suc, ◌+◌, ◌≤◌, ◌<◌, ◌≡◌, Bool, true, false, none, some, arith, Bool-cases, update,
  if◌then◌else◌, ltb, leb, ◌&&◌, inl, inr, sym, subst, ℕ_discrete,
}
use nanomsg_transport_ofi.Bofi.Offsets.{first_free, clear}

pub first_free-some :
    (k i j : ℕ) (used : ℕ → Bool)
    → first_free k i used ≡ some j
    → (used j ≡ false) × (i ≤ j) × (j < i + k)
unfolding first_free
first_free-some zero i j used h = ground arith
first_free-some (suc k) i j used h = elim (Bool-cases (used i)) [
  | inl u ↦
      let r = first_free-some k (i + 1) j used (ground (arith, h, u)) in
      (r.0, omega (arith, r.1), omega (arith, r.2))
  | inr u ↦
      let e : i ≡ j = ground (arith, h, u) in
      (subst (λ x. used x ≡ false) e u, omega (arith, e), omega (arith, e))
]

pub first_free-none :
    (k i j : ℕ) (used : ℕ → Bool) → first_free k i used ≡ none → i ≤ j → j < i + k → used j ≡ true
unfolding first_free
first_free-none zero i j used h a b = ground arith
first_free-none (suc k) i j used h a b = elim (Bool-cases (used i)) [
  | inl u ↦ elim (ℕ_discrete i j) [
    | yes e ↦ subst (λ x. used x ≡ true) e u
    | no n ↦ first_free-none k (i + 1) j used (ground (arith, h, u)) (omega arith) (omega arith)
  ]
  | inr u ↦ ground (arith, h, u)
]

pub first_free-at :
    (a b i : ℕ) (used : ℕ → Bool)
    → ((j : ℕ) → i ≤ j → j < i + a → used j ≡ true)
    → used (i + a) ≡ false
    → first_free (a + suc b) i used ≡ some (i + a)
unfolding first_free
first_free-at zero b i used h e =
    let z : i + 0 ≡ i = omega arith in ground (arith, z, subst (λ x. used x ≡ false) z e)
first_free-at (suc a) b i used h e =
    let q : i + 1 + a ≡ i + suc a = omega arith in
    let rest =
      first_free-at a b (i + 1) used (λ j lo hi. h j (omega arith) (omega arith))
        (subst (λ x. used x ≡ false) (sym q) e) in
    let u = h i (omega arith) (omega arith) in
    let k : suc (a + suc b) ≡ suc a + suc b = omega arith in
    let r : first_free (suc (a + suc b)) i used ≡ some (i + 1 + a) = rw u rest in
    subst (λ x. first_free x i used ≡ some (i + suc a)) k
      (subst (λ x. first_free (suc (a + suc b)) i used ≡ some x) q r)

pub clear-at :
    (k base j : ℕ) (used : ℕ → Bool)
    → clear k base used j ≡ (if leb base j && ltb j (base + k) then false else used j)
unfolding clear
clear-at zero base j used = ground arith
clear-at (suc k) base j used = ground (arith, clear-at k (base + 1) j (update used base false))
