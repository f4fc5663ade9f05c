-- ===== src/Mr/Setup/Invalidate.antt =====
-- `ofi_mr_invalidate`: what becomes of the banks that touch the region.
use nanomsg_transport_ofi.Prelude.{
  ℕ, zero, suc, ◌+◌, ◌<◌, ◌≤◌, ◌≡◌, ◌≢◌, ◌⊎◌, inl, inr, true, false, ◌&&◌, ℤ, arith, dec-inc,
  Bool-cases, if◌then◌else◌, refl, ap, subst, ℕ_discrete, ◌∙◌, is_zero, is_pos, pos, ebusy,
}
use nanomsg_transport_ofi.Mr.State.{Bank, Provider, Mr, lock, unlock}
use nanomsg_transport_ofi.Mr.Bank.{unregister}
use nanomsg_transport_ofi.Mr.Bank.Frame.{Frame, unregister-Frame}
use nanomsg_transport_ofi.Mr.Setup.{
  clear_nonvolatile, intersects, invalidate_bank, invalidate_from, invalidate,
}

module _ {E : Type 0} (api : Provider E) where
  -- Bank `b` became `b'`: unchanged if it does not touch the region, and else out of use and unmarked. A
  -- registered bank loses its registration and its range if the provider closes it, and keeps both if not.
  abbrev pub Cleared : ℕ → ℕ → Bank → Bank → Type 0
  Cleared base len b b' =
      ((intersects b base len ≡ false) × (b' ≡ b))
      ⊎ ((intersects b base len ≡ true)
          × (is_pos b.ref ≡ false)
          × ((env : E) × (b' ≡ (
                if b.registered && is_zero (api.fi_close env b.mr).0
                then record b { registered = false; base = 0; len = 0; nonvolatile = false }
                else record b { nonvolatile = false }))))

  -- The loop has come to bank `i`.
  pub record Reached (base len i : ℕ) (s t : Mr E) : Type 0 where
    pub below : (j : ℕ) → j < i → Cleared base len (s.banks j) (t.banks j)
    pub above : (j : ℕ) → i ≤ j → t.banks j ≡ s.banks j
    pub held : (j : ℕ) → t.held j ≡ s.held j

  -- Success with every bank cleared, or an error at the first bank in use that touches the region.
  abbrev pub Invalidates : ℕ → ℕ → Mr E → ℤ × Mr E → Type 0
  Invalidates base len s (ret, t) =
      ((ret ≡ pos 0) × Reached base len s.attr.bank_count s t)
      ⊎ ((ret ≡ ebusy)
          × ((i : ℕ) × (i < s.attr.bank_count)
              × (intersects (s.banks i) base len ≡ true)
              × (is_pos (s.banks i).ref ≡ true)
              × Reached base len i s t))

  -- Bank `i` alone may change, and is cleared unless it is in use.
  record Clears (base len i : ℕ) (s t : Mr E) : Type 0 where
    cleared : Cleared base len (s.banks i) (t.banks i)
    others : (j : ℕ) → i ≢ j → t.banks j ≡ s.banks j
    held : t.held ≡ s.held
    attr : t.attr ≡ s.attr

  unregister-cleared :
      (s : Mr E) (i : ℕ)
      → (clear_nonvolatile api (unregister api s i).1 i).banks i ≡ (
          if (s.banks i).registered && is_zero (api.fi_close s.env (s.banks i).mr).0
          then record (s.banks i) { registered = false; base = 0; len = 0; nonvolatile = false }
          else record (s.banks i) { nonvolatile = false })
  unfolding unregister
  unregister-cleared s i = ground arith

  invalidate_bank-Clears :
      (s : Mr E) (i base len : ℕ)
      → (intersects (s.banks i) base len && is_pos (s.banks i).ref) ≡ false
      → Clears base len i s (invalidate_bank api s i base len)
  unfolding invalidate_bank
  invalidate_bank-Clears s i base len h = elim (Bool-cases (intersects (s.banks i) base len)) [
    | inl e ↦
        rw (e, invalidate_bank)
          (record {
            cleared = inr (e, ground arith, (s.env, unregister-cleared s i));
            others = λ j ne. ground (arith, f.others j ne);
            held = f.held;
            attr = f.attr;
          })
    | inr e ↦
        rw (e, invalidate_bank)
          (record { cleared = inl (e, refl); others = λ j ne. refl; held = refl; attr = refl })
  ]
    where
      f : Frame i s (unregister api s i).1
      f = unregister-Frame api s i

  -- The bank of the round, locked and unlocked around its invalidation.
  abbrev visited : Mr E → ℕ → ℕ → ℕ → Mr E
  visited t i base len =
      let u = invalidate_bank api (record t { held = lock t.held i }) i base len in
      record u { held = unlock u.held i }

  visited-Reached :
      (s t : Mr E) (i base len : ℕ)
      → (intersects (t.banks i) base len && is_pos (t.banks i).ref) ≡ false
      → Reached base len i s t
      → Reached base len (i + 1) s (visited t i base len)
  visited-Reached s t i base len idle r = record {
    below = λ j h. elim (ℕ_discrete i j) [
      | yes p ↦ subst (λ (j : ℕ). Cleared base len (s.banks j) (v.banks j)) p self
      | no p ↦ rw (c.others j p) (r.below j (omega arith))
    ];
    above = λ j h. c.others j (omega arith) ∙ r.above j (omega arith);
    held = λ j.
        ap (λ (g : ℕ → ℤ). unlock g i j) c.held ∙ ground (arith, dec-inc (t.held i)) ∙ r.held j;
  }
    where
      locked : Mr E
      locked = record t { held = lock t.held i }

      v : Mr E
      v = visited t i base len

      c : Clears base len i locked (invalidate_bank api locked i base len)
      c = invalidate_bank-Clears locked i base len idle

      self : Cleared base len (s.banks i) (v.banks i)
      self =
          subst (λ (b : Bank). Cleared base len b (v.banks i)) (r.above i (omega arith)) c.cleared

  invalidate_from-Invalidates :
      (k i base len : ℕ) (s t : Mr E)
      → s.attr.bank_count ≡ i + k
      → Reached base len i s t
      → Invalidates base len s (invalidate_from api k i base len t)
  unfolding invalidate_from
  invalidate_from-Invalidates zero i base len s t e r =
      let e' : i ≡ s.attr.bank_count = omega arith in
      inl (refl, subst (λ (n : ℕ). Reached base len n s t) e' r)
  invalidate_from-Invalidates (suc k) i base len s t e r =
      elim (Bool-cases (intersects (t.banks i) base len && is_pos (t.banks i).ref)) [
        | inl busy ↦
            rw (busy, invalidate_from)
              (inr (refl, (i, omega arith, touches busy, in_use busy, stopped)))
        | inr idle ↦
            rw (idle, invalidate_from)
              (invalidate_from-Invalidates k (i + 1) base len s (visited t i base len) (omega arith)
                (visited-Reached s t i base len idle r))
      ]
    where
      same : t.banks i ≡ s.banks i
      same = r.above i (omega arith)

      touches :
          (intersects (t.banks i) base len && is_pos (t.banks i).ref) ≡ true
          → intersects (s.banks i) base len ≡ true
      touches h = rw (← same) (ground arith)

      in_use :
          (intersects (t.banks i) base len && is_pos (t.banks i).ref) ≡ true
          → is_pos (s.banks i).ref ≡ true
      in_use h = rw (← same) (ground arith)

      stopped : Reached base len i s (record t { held = unlock (lock t.held i) i })
      stopped = record {
        below = r.below;
        above = r.above;
        held = λ j. ground (arith, r.held j, dec-inc (t.held i));
      }

  -- On success every bank that touches the region is out of use and unmarked, and it is unregistered and
  -- without a range if the provider closes it; if the provider does not, it stays registered, and the
  -- result is 0 all the same. Every other bank is as it was. Otherwise the result is -EBUSY, and a bank
  -- in use touches the region, the first such one; those before it are treated as on success, and those
  -- from it on are as they were. All mutexes are released.
  pub invalidate-Invalidates :
      (s : Mr E) (base len : ℕ) → Invalidates base len s (invalidate api s base len)
  unfolding invalidate
  invalidate-Invalidates s base len =
      invalidate_from-Invalidates s.attr.bank_count 0 base len s s (omega arith)
        (record { below = λ j h. absurd (omega arith); above = λ j h. refl; held = λ j. refl })
