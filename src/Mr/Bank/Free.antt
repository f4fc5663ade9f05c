-- ===== src/Mr/Bank/Free.antt =====
-- `ofi_mr_get_free_bank`.
use nanomsg_transport_ofi.Prelude.{
  ℕ, zero, suc, ◌+◌, ◌<◌, ◌≡◌, inl, inr, Bool, true, false, not, ◌&&◌, ℤ, arith, dec-inc,
  Bool-cases, refl, is_zero, enomem,
}
use nanomsg_transport_ofi.Mr.State.{Bank, lock, unlock}
use nanomsg_transport_ofi.Mr.Bank.{Outcome, ok, fail, free_from}

-- A bank with no reference and no flag.
abbrev pub is_free : Bank → Bool
is_free b = is_zero b.ref && not b.nonvolatile && not b.registered

abbrev pub NoneFree : (ℕ → Bank) → ℕ → Type 0
NoneFree banks n = (j : ℕ) → j < n → is_free (banks j) ≡ false

-- The first free bank, with its mutex locked; or the error, with no mutex locked.
abbrev pub Frees : (ℕ → Bank) → (ℕ → ℤ) → ℕ → Outcome × (ℕ → ℤ) → Type 0
Frees banks held n (ok i, held') =
    (i < n) × (is_free (banks i) ≡ true) × NoneFree banks i × ((j : ℕ) → held' j ≡ lock held i j)
Frees banks held n (fail e, held') = (e ≡ enomem) × NoneFree banks n × ((j : ℕ) → held' j ≡ held j)

pub free_from-Frees :
    (banks : ℕ → Bank) (start : ℕ → ℤ) (k i n : ℕ) (held : ℕ → ℤ)
    → n ≡ i + k
    → NoneFree banks i
    → ((j : ℕ) → held j ≡ start j)
    → Frees banks start n (free_from k i banks held)
unfolding free_from
free_from-Frees banks start zero i n held e f h = let e' : n ≡ i = omega arith in rw e' (refl, f, h)
free_from-Frees banks start (suc k) i n held e f h = elim (Bool-cases (is_free (banks i))) [
  | inl y ↦ rw y (omega arith, y, f, λ j. ground (arith, h j, h i))
  | inr y ↦ rw y (
      free_from-Frees banks start k (i + 1) n (unlock (lock held i) i) (omega arith)
        (λ j lt. ground (arith, f j)) (λ j. ground (arith, h j, dec-inc (held i))))
]
