-- ===== src/Mr/Bank/Lookup.antt =====
-- What the loop of `ofi_mr_find_bank` finds.
use nanomsg_transport_ofi.Prelude.{
  ℕ, zero, suc, ◌+◌, ◌≤◌, ◌<◌, ◌≡◌, inl, inr, true, false, Option, none, some, ℤ, arith, Bool-cases,
  ltb, refl,
}
use nanomsg_transport_ofi.Mr.State.{Bank, covers, lock}
use nanomsg_transport_ofi.Mr.Bank.{Found, hit, miss, is_evictable, pick, leave, find_from}

module _ (banks : ℕ → Bank) where
  -- Bank `o` is the least recently registered of the evictable banks below `n`.
  pub record IsOldest (n o : ℕ) : Type 0 where
    pub bound : o < n
    pub evictable : is_evictable (banks o) ≡ true
    pub oldest : (j : ℕ) → j < n → is_evictable (banks j) ≡ true → (banks o).age ≤ (banks j).age

  abbrev pub Scanned : ℕ → Option ℕ → Type 0
  Scanned n none = (j : ℕ) → j < n → is_evictable (banks j) ≡ false
  Scanned n (some o) = IsOldest n o

  -- None of the banks below `n` covers the request.
  abbrev pub Uncovered : ℕ → ℕ → ℕ → Type 0
  Uncovered ptr len n = (j : ℕ) → j < n → covers (banks j) ptr len ≡ false

  -- The first bank that covers the request, or else the oldest evictable one, if any.
  abbrev pub Finds : ℕ → ℕ → ℕ → Found → Type 0
  Finds ptr len n (hit j) = (j < n) × (covers (banks j) ptr len ≡ true) × Uncovered ptr len j
  Finds ptr len n (miss o) = Scanned n o × Uncovered ptr len n

  pick-Scanned :
      (i : ℕ) (oldest : Option ℕ) (held : ℕ → ℤ)
      → Scanned i oldest
      → Scanned (i + 1) (pick banks i oldest held).0
  pick-Scanned i none held h = elim (Bool-cases (is_evictable (banks i))) [
    | inl e ↦
        rw e (record { bound = omega arith; evictable = e; oldest = λ j lt f. ground (arith, h j) })
    | inr e ↦ rw e (λ j lt. ground (arith, h j))
  ]
  pick-Scanned i (some o) held h = elim (Bool-cases (is_evictable (banks i))) [
    | inl e ↦ rw e (elim (Bool-cases (ltb (banks i).age (banks o).age)) [
      | inl lt ↦ rw lt (record {
        bound = omega arith;
        evictable = e;
        oldest = λ j b f. ground (arith, h.oldest j);
      })
      | inr ge ↦ rw ge (record {
        bound = omega (arith, h.bound);
        evictable = h.evictable;
        oldest = λ j b f. ground (arith, h.oldest j);
      })
    ])
    | inr e ↦ rw e (record {
      bound = omega (arith, h.bound);
      evictable = h.evictable;
      oldest = λ j lt f. ground (arith, h.oldest j);
    })
  ]

  leave_fst : (i : ℕ) (p : Option ℕ × (ℕ → ℤ)) → (leave i p).0 ≡ p.0
  leave_fst i (none, held) = refl
  leave_fst i (some o, held) = refl

  -- The loop finds what `Finds` says, from any point that it has reached.
  pub find_from-Finds :
      (k i n ptr len : ℕ) (oldest : Option ℕ) (held : ℕ → ℤ)
      → n ≡ i + k
      → Scanned i oldest
      → Uncovered ptr len i
      → Finds ptr len n (find_from k i ptr len banks oldest held).0
  unfolding find_from
  find_from-Finds zero i n ptr len oldest held e s u = let e' : n ≡ i = omega arith in rw e' (s, u)
  find_from-Finds (suc k) i n ptr len oldest held e s u =
      elim (Bool-cases (covers (banks i) ptr len)) [
        | inl c ↦ rw c (omega arith, c, u)
        | inr c ↦ rw c (
            find_from-Finds k (i + 1) n ptr len _ _ (omega arith)
              (rw (leave_fst i (pick banks i oldest (lock held i)))
                (pick-Scanned i oldest (lock held i) s))
              (λ j lt. ground (arith, u j)))
      ]
