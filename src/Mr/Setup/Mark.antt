-- ===== src/Mr/Setup/Mark.antt =====
-- `ofi_mr_mark`: the bank that it reserves, and the mutex that it locks a second time.
use nanomsg_transport_ofi.Prelude.{
  ℕ, ◌<◌, ◌≡◌, ◌≢◌, ◌⊎◌, inl, inr, true, false, ℤ, arith, refl, ap, ◌∙◌, update, is_zero, enomem,
}
use nanomsg_transport_ofi.Mr.State.{Provider, Mr, lock}
use nanomsg_transport_ofi.Mr.Bank.{Outcome, ok, fail, free_from, get_free_bank, got_free}
use nanomsg_transport_ofi.Mr.Bank.Frame.{register-Frame, register_new}
use nanomsg_transport_ofi.Mr.Bank.Free.{is_free, NoneFree, Frees, free_from-Frees}
use nanomsg_transport_ofi.Mr.Setup.{mark, mark_free}

module _ {E : Type 0} where
  -- Bank `i` of `t` holds the range and the mark, and is registered exactly on success.
  abbrev pub Reserves : Mr E → ℕ → ℕ → ℕ → ℤ × Mr E → Type 0
  Reserves s base len i (ret, t) =
      ((t.banks i).base ≡ base)
      × ((t.banks i).len ≡ len)
      × ((t.banks i).nonvolatile ≡ true)
      × ((t.banks i).registered ≡ is_zero ret)
      × ((j : ℕ) → i ≢ j → t.banks j ≡ s.banks j)

  -- Either no bank is free and only the error is returned, or the first free bank is reserved; its
  -- mutex was locked by the search and is locked again.
  abbrev pub Marks : Mr E → ℕ → ℕ → ℤ × Mr E → Type 0
  Marks s base len (ret, t) =
      ((ret ≡ enomem)
        × NoneFree s.banks s.attr.bank_count
        × (t.banks ≡ s.banks)
        × ((j : ℕ) → t.held j ≡ s.held j))
      ⊎ ((i : ℕ) × (i < s.attr.bank_count)
          × (is_free (s.banks i) ≡ true)
          × NoneFree s.banks i
          × Reserves s base len i (ret, t)
          × ((j : ℕ) → t.held j ≡ lock (lock s.held i) i j))

module _ {E : Type 0} (api : Provider E) where
  pub mark-Marks : (s : Mr E) (base len : ℕ) → Marks s base len (mark api s base len)
  unfolding mark get_free_bank
  mark-Marks s base len = go (free_from s.attr.bank_count 0 s.banks s.held) (
      free_from-Frees s.banks s.held s.attr.bank_count 0 s.attr.bank_count s.held (omega arith)
        (λ j h. absurd (omega arith)) (λ j. refl))
    where
      go :
          (f : Outcome × (ℕ → ℤ))
          → Frees s.banks s.held s.attr.bank_count f
          → Marks s base len (mark_free api base len (got_free api s f))
      go (fail e, held) h = inl (h.0, h.1, refl, h.2)
      go (ok i, held) h =
          let given : Mr E = record s {
            held = held;
            banks = update s.banks i (record (s.banks i) {
              base = base;
              len = len;
              nonvolatile = true;
              registered = false;
            });
          } in
          let f = register-Frame api given i in
          let r = register_new api given i (ground arith) in
          inr (
            i,
            h.0,
            h.1,
            h.2,
            (
              ground (arith, r),
              ground (arith, r),
              ground (arith, f),
              ground (arith, r),
              λ j ne. f.others j ne ∙ ground arith,
            ),
            λ j. ap (λ (g : ℕ → ℤ). lock g i j) f.held ∙ ground (arith, h.3 j, h.3 i),
          )
