-- ===== src/Worker/Pacing/Rounds.antt =====
-- How often the poller thread sleeps.
use nanomsg_transport_ofi.Prelude.{
  ℕ, zero, suc, ◌+◌, ◌-◌, ◌*◌, ◌/◌, ◌==◌, ◌≤◌, ◌<◌, ◌≡◌, ltb, false, some, if◌then◌else◌, refl, ap,
  Bool-cases, inl, inr, ◌∙◌, arith,
}
use native.Mathlib.Nat.{le-div_iff_mul-le, div-le_self}
use nanomsg_transport_ofi.Worker.Pacing.{limit, kinstr_per_ms, negated, Pace, pause, pauses}

quotient-bounds :
    (d : ℕ) → 0 < d → d < 1000000000 → (1 ≤ 1000000000 / d) × (1000000000 / d ≤ 1000000000)
quotient-bounds d p q = (
  (le-div_iff_mul-le {k = d} {x = 1} {y = 1000000000} p).1 (omega (arith, q)),
  div-le_self 1000000000 d,
)

limit-measured : (q : ℕ) → 1 ≤ q → q ≤ 1000000000 → limit q ≡ q
unfolding limit
limit-measured q l u = ground (arith, l, u)

limit-negated : (q : ℕ) → 1 ≤ q → q ≤ 1000000000 → limit (negated q) ≡ 4294967295
unfolding limit
limit-negated q l u =
    let e : negated q ≡ 18446744073709551616 - q = omega (arith, l, u) in
    ap (limit) e ∙ ground (arith, l, u)

-- What is measured while the loop runs: with readings of the clock in the same second it is the quotient, of at
-- least 1, and otherwise the largest value of the type. The readings differ, and are below 10^9.
pub kinstr_per_ms-value :
    (a b : ℕ)
    → a < 1000000000
    → b < 1000000000
    → (a == b) ≡ false
    → (k : ℕ) × (kinstr_per_ms a b ≡ some k)
      × (1 ≤ k)
      × (k ≡ (if ltb a b then 1000000000 / (b - a) else 4294967295))
unfolding kinstr_per_ms
kinstr_per_ms-value a b p q n = elim (Bool-cases (ltb a b)) [
  | inl h ↦
      let (l, u) = quotient-bounds (b - a) (ground (arith, h)) (omega (arith, p, q)) in
      let e = limit-measured (1000000000 / (b - a)) l u in
      (1000000000 / (b - a), ground (arith, n, h, e), l, ground (arith, h))
  | inr h ↦
      let (l, u) = quotient-bounds (a - b) (ground (arith, h, n)) (omega (arith, p, q)) in
      let e = limit-negated (1000000000 / (a - b)) l u in
      (4294967295, ground (arith, n, h, e), omega arith, ground (arith, h))
]

abbrev pace : ℕ → ℕ → ℕ → Pace
pace i s n = record { kinstr = i; spinwait = s; sleeps = n }

pauses_add : (k m n : ℕ) (p : Pace) → pauses k (m + n) p ≡ pauses k n (pauses k m p)
unfolding pauses
pauses_add k zero n p = let e : zero + n ≡ n = omega arith in ap (λ z. pauses k z p) e
pauses_add k (suc m) n p =
    let e : suc m + n ≡ suc (m + n) = omega arith in
    ap (λ z. pauses k z p) e ∙ pauses_add k m n (pause k p)

pause-spins : (k m s n : ℕ) → pause k (pace (suc (suc m)) s n) ≡ pace (suc m) s n
unfolding pause
pause-spins k m s n = ground arith

pause-turns : (k s n : ℕ) → pause k (pace 1 (suc (suc s)) n) ≡ pace 10000 (suc s) n
unfolding pause
pause-turns k s n = ground arith

round : (k m s n : ℕ) → pauses k (suc m) (pace (suc m) (suc (suc s)) n) ≡ pace 10000 (suc s) n
unfolding pauses
round k zero s n = pause-turns k s n
round k (suc m) s n = ap (pauses k (suc m)) (pause-spins k m (suc (suc s)) n) ∙ round k m s n

last_round : (k m n : ℕ) → pauses k (suc m) (pace (suc m) 1 n) ≡ pace 10000 k (suc n)
unfolding pauses pause
last_round k zero n = refl
last_round k (suc m) n = ap (pauses k (suc m)) (pause-spins k m 1 n) ∙ last_round k m n

-- From the counters as they are after a sleep, with `s` at least 1, the next sleep comes with the pass
-- `s` times 10000, and the counters are set anew.
pub pauses-sleep :
    (k s n : ℕ)
    → 1 ≤ s
    → pauses k (s * 10000) (record { kinstr = 10000; spinwait = s; sleeps = n })
      ≡ record { kinstr = 10000; spinwait = k; sleeps = suc n }
pauses-sleep k zero n h = absurd (omega (arith, h))
pauses-sleep k (suc zero) n h = last_round k 9999 n
pauses-sleep k (suc (suc s)) n h =
    ap (λ z. pauses k z (pace 10000 (suc (suc s)) n)) (omega arith)
    ∙ pauses_add k 10000 (suc s * 10000) (pace 10000 (suc (suc s)) n)
    ∙ ap (pauses k (suc s * 10000)) (round k 9999 s n)
    ∙ pauses-sleep k (suc s) n (omega arith)
