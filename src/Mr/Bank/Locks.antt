-- ===== src/Mr/Bank/Locks.antt =====
-- The mutexes that the loop of `ofi_mr_find_bank` leaves held.
use nanomsg_transport_ofi.Prelude.{
  ℕ, zero, suc, ◌+◌, ◌<◌, ◌≡◌, inl, inr, Option, none, some, ℤ, arith, dec-inc, Bool-cases, ltb,
}
use nanomsg_transport_ofi.Mr.State.{Bank, covers, lock, unlock_opt}
use nanomsg_transport_ofi.Mr.Bank.{Found, hit, miss, is_evictable, pick, leave, find_from}

-- The lock counts `held` with the mutex of the bank, if any, locked once more.
abbrev pub lock_opt : (ℕ → ℤ) → Option ℕ → ℕ → ℤ
lock_opt held none = held
lock_opt held (some i) = lock held i

-- What the loop leaves locked.
abbrev pub kept : Found → Option ℕ
kept (hit i) = some i
kept (miss o) = o

abbrev Before : ℕ → Option ℕ → Type 0
Before i none = Unit {0}
Before i (some o) = o < i

module _ (banks : ℕ → Bank) (start : ℕ → ℤ) where
  abbrev Holds : (ℕ → ℤ) → Option ℕ → Type 0
  Holds held oldest = (j : ℕ) → held j ≡ lock_opt start oldest j

  -- One round that goes on: only the mutex of the oldest bank stays locked.
  round-Holds :
      (i : ℕ) (oldest : Option ℕ) (held : ℕ → ℤ)
      → Before i oldest
      → Holds held oldest
      → let (oldest', held') = leave i (pick banks i oldest (lock held i)) in
        Before (i + 1) oldest' × Holds held' oldest'
  round-Holds i none held b h = elim (Bool-cases (is_evictable (banks i))) [
    | inl e ↦ rw e (omega arith, λ j. ground (arith, h j, h i))
    | inr e ↦ rw e (tt, λ j. ground (arith, h j, h i, dec-inc (held i)))
  ]
  round-Holds i (some o) held b h = elim (Bool-cases (is_evictable (banks i))) [
    | inl e ↦ rw e (elim (Bool-cases (ltb (banks i).age (banks o).age)) [
      | inl lt ↦ rw lt (omega arith, λ j. ground (arith, h j, h i, h o, dec-inc (start o)))
      | inr ge ↦ rw ge (omega arith, λ j. ground (arith, h j, h i, dec-inc (held i)))
    ])
    | inr e ↦ rw e (omega arith, λ j. ground (arith, h j, h i, dec-inc (held i)))
  ]

  hit-Holds :
      (i : ℕ) (oldest : Option ℕ) (held : ℕ → ℤ)
      → Before i oldest
      → Holds held oldest
      → Holds (unlock_opt (lock held i) oldest) (some i)
  hit-Holds i none held b h j = ground (arith, h j, h i)
  hit-Holds i (some o) held b h j = ground (arith, h j, h i, h o, dec-inc (start o))

  -- The loop leaves locked the bank that it finds, and no other.
  pub find_from-Holds :
      (k i ptr len : ℕ) (oldest : Option ℕ) (held : ℕ → ℤ)
      → Before i oldest
      → Holds held oldest
      → let (found, held') = find_from k i ptr len banks oldest held in Holds held' (kept found)
  unfolding find_from
  find_from-Holds zero i ptr len oldest held b h = h
  find_from-Holds (suc k) i ptr len oldest held b h = elim (Bool-cases (covers (banks i) ptr len)) [
    | inl c ↦ rw c (hit-Holds i oldest held b h)
    | inr c ↦
        let (b', h') = round-Holds i oldest held b h in
        rw c (find_from-Holds k (i + 1) ptr len _ _ b' h')
  ]
