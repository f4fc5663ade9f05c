-- ===== src/Mr/Bank/Find.antt =====
-- `ofi_mr_find_bank` as a whole: which bank it returns, what that bank then holds, what it leaves
-- alone, and which mutexes stay locked.
use nanomsg_transport_ofi.Prelude.{
  ℕ, ◌<◌, ◌≡◌, ◌≢◌, ◌⊎◌, inl, inr, true, false, none, some, ℤ, arith, dec-inc, Bool-cases, refl,
  update, is_zero, eagain, ap, subst, ◌∙◌, ℕ_discrete, if◌then◌else◌,
}
use nanomsg_transport_ofi.Mr.State.{Bank, Provider, Mr, covers, lock}
use nanomsg_transport_ofi.Mr.Bank.{
  Outcome, ok, fail, Found, hit, miss, is_evictable, find_from, unregister, map_bank, register,
  resolve, reuse, find_bank, registered_as,
}
use nanomsg_transport_ofi.Mr.Bank.Frame.{Frame, register-Frame}
use nanomsg_transport_ofi.Mr.Bank.Lookup.{IsOldest, Scanned, Uncovered, Finds, find_from-Finds}
use nanomsg_transport_ofi.Mr.Bank.Locks.{kept, lock_opt, find_from-Holds}

module _ {E : Type 0} (api : Provider E) where
  -- A bank that was not registered is registered with the range it had; a registered one loses its
  -- range to `ofi_mr_unregister` first.
  register-range :
      (s : Mr E) (i : ℕ)
      → is_zero (register api s i).0 ≡ true
      → let b = (register api s i).1.banks i in
        (b.registered ≡ true)
        × (b.base ≡ (if (s.banks i).registered then 0 else (s.banks i).base))
        × (b.len ≡ (if (s.banks i).registered then 0 else (s.banks i).len))
  unfolding register unregister map_bank
  register-range s i h = ground arith

  -- What bank `i` of `t` holds after it was given to a region: nothing, if it was registered.
  abbrev pub Reused : Mr E → ℕ → ℕ → ℕ → Mr E → Type 0
  Reused s ptr len i t =
      ((t.banks i).registered ≡ true)
      × ((t.banks i).base ≡ (if (s.banks i).registered then 0 else ptr))
      × ((t.banks i).len ≡ (if (s.banks i).registered then 0 else len))

  -- Bank `o`, which was given the range, cannot be registered: `ret` is the answer of the provider.
  abbrev pub Refused : Mr E → ℕ → ℕ → ℤ → ℕ → Type 0
  Refused s ptr len ret o =
      (held : ℕ → ℤ) × (let g : Mr E = record s {
        held = held;
        banks = update s.banks o (record (s.banks o) { base = ptr; len = len });
      } in
        (register api g o).0 ≡ ret)
      × (is_zero ret ≡ false)

  -- What `ofi_mr_find_bank` may return.
  abbrev pub Resolves : Mr E → ℕ → ℕ → Outcome × Mr E → Type 0
  Resolves s ptr len (ok i, t) =
      ((i < s.attr.bank_count)
        × (covers (s.banks i) ptr len ≡ true)
        × Uncovered s.banks ptr len i
        × (t.banks ≡ s.banks))
      ⊎ (IsOldest s.banks s.attr.bank_count i
          × Uncovered s.banks ptr len s.attr.bank_count
          × Reused s ptr len i t)
  Resolves s ptr len (fail ret, t) =
      Uncovered s.banks ptr len s.attr.bank_count
      × (((ret ≡ eagain) × Scanned s.banks s.attr.bank_count none)
          ⊎ ((o : ℕ) × IsOldest s.banks s.attr.bank_count o × Refused s ptr len ret o))

  reuse-Resolves :
      (s : Mr E) (held : ℕ → ℤ) (o ptr len : ℕ)
      → IsOldest s.banks s.attr.bank_count o
      → Uncovered s.banks ptr len s.attr.bank_count
      → Resolves s ptr len (reuse api (record s { held = held }) o ptr len)
  unfolding reuse
  reuse-Resolves s held o ptr len h u = elim (Bool-cases (is_zero (register api given o).0)) [
    | inl e ↦ rw e (inr (h, u, ground (arith, register-range given o e)))
    | inr e ↦ rw e (u, inr (o, h, (held, refl, e)))
  ]
    where
      given : Mr E
      given = record s {
        held = held;
        banks = update s.banks o (record (s.banks o) { base = ptr; len = len });
      }

  -- The first bank that covers the request, as it is; if none does, the oldest bank without references
  -- and without a mark, registered anew, or the provider's error, if it refuses that bank; and -EAGAIN
  -- if every bank has references or a mark. A bank that was registered loses the range it was given.
  pub find_bank-Resolves : (s : Mr E) (ptr len : ℕ) → Resolves s ptr len (find_bank api s ptr len)
  unfolding find_bank
  find_bank-Resolves s ptr len = go (find_from s.attr.bank_count 0 ptr len s.banks none s.held) (
      find_from-Finds s.banks s.attr.bank_count 0 s.attr.bank_count ptr len none s.held
        (omega arith) (λ j h. absurd (omega arith)) (λ j h. absurd (omega arith)))
    where
      go :
          (f : Found × (ℕ → ℤ))
          → Finds s.banks ptr len s.attr.bank_count f.0
          → Resolves s ptr len (resolve api s ptr len f)
      go (hit i, held) h = inl (h.0, h.1, h.2, refl)
      go (miss none, held) h = (h.1, inl (refl, h.0))
      go (miss (some o), held) h = reuse-Resolves s held o ptr len h.0 h.1

-- From `s` to `t` nothing changed but locks, bank `i` short of its counter, the age and the provider.
pub record Kept {E : Type 0} (i : ℕ) (s t : Mr E) : Type 0 where
  pub others : (j : ℕ) → i ≢ j → t.banks j ≡ s.banks j
  pub ref : (t.banks i).ref ≡ (s.banks i).ref
  pub slabs : t.slabs ≡ s.slabs
  pub mem : t.mem ≡ s.mem
  pub attr : t.attr ≡ s.attr
  pub slab_held : t.slab_held ≡ s.slab_held
  pub slab_mr : t.slab_mr ≡ s.slab_mr
  pub allocated : t.allocated ≡ s.allocated

-- What `find_bank` keeps: every counter, every bank that may not be evicted, slabs and bytes.
pub record Untouched {E : Type 0} (s t : Mr E) : Type 0 where
  pub ref : (j : ℕ) → (t.banks j).ref ≡ (s.banks j).ref
  pub busy : (j : ℕ) → is_evictable (s.banks j) ≡ false → t.banks j ≡ s.banks j
  pub slabs : t.slabs ≡ s.slabs
  pub mem : t.mem ≡ s.mem
  pub attr : t.attr ≡ s.attr
  pub slab_held : t.slab_held ≡ s.slab_held
  pub slab_mr : t.slab_mr ≡ s.slab_mr
  pub allocated : t.allocated ≡ s.allocated

-- The lock counts that a call should leave: one more on the bank that it returns.
abbrev pub locks_of : (ℕ → ℤ) → Outcome → ℕ → ℤ
locks_of held (ok i) = lock held i
locks_of held (fail ret) = held

module _ {E : Type 0} (api : Provider E) where
  registered_as-fields :
      (o : ℕ) (r : ℤ × Mr E)
      → let t = (registered_as api o r).1 in
        (t.banks ≡ r.1.banks)
        × (t.slabs ≡ r.1.slabs)
        × (t.mem ≡ r.1.mem)
        × (t.attr ≡ r.1.attr)
        × (t.slab_held ≡ r.1.slab_held)
        × (t.slab_mr ≡ r.1.slab_mr)
        × (t.allocated ≡ r.1.allocated)
  registered_as-fields o (ret, s) = ground arith

  -- A bank other than `o` is as before, and so are slabs and bytes.
  pub reuse-Kept : (s : Mr E) (o ptr len : ℕ) → Kept o s (reuse api s o ptr len).1
  unfolding reuse
  reuse-Kept s o ptr len =
      let fields = registered_as-fields o (register api given o) in
      record {
        others = λ j ne. ap (λ (b : ℕ → Bank). b j) fields.0 ∙ f.others j ne ∙ aside j ne;
        ref = ap (λ (b : ℕ → Bank). (b o).ref) fields.0 ∙ f.ref ∙ self;
        slabs = fields.1 ∙ f.slabs;
        mem = fields.2 ∙ f.mem;
        attr = fields.3 ∙ f.attr;
        slab_held = fields.4 ∙ f.slab_held;
        slab_mr = fields.5 ∙ f.slab_mr;
        allocated = fields.6 ∙ f.allocated;
      }
    where
      given : Mr E
      given = record s { banks = update s.banks o (record (s.banks o) { base = ptr; len = len }) }

      f : Frame o given (register api given o).1
      f = register-Frame api given o

      aside : (j : ℕ) → o ≢ j → given.banks j ≡ s.banks j
      aside j ne = ground arith

      self : (given.banks o).ref ≡ (s.banks o).ref
      self = ground arith

  Kept-Untouched :
      {o : ℕ} {s t : Mr E} → is_evictable (s.banks o) ≡ true → Kept o s t → Untouched s t
  Kept-Untouched {o} {s} {t} e k = record {
    ref = λ j. elim (ℕ_discrete o j) [
      | yes p ↦ subst (λ (j : ℕ). (t.banks j).ref ≡ (s.banks j).ref) p k.ref
      | no p ↦ ap (λ (b : Bank). b.ref) (k.others j p)
    ];
    busy = λ j b. k.others j (λ p. cc);
    slabs = k.slabs;
    mem = k.mem;
    attr = k.attr;
    slab_held = k.slab_held;
    slab_mr = k.slab_mr;
    allocated = k.allocated;
  }

  -- Looking for a bank never changes a counter, nor a bank that is in use or marked.
  pub find_bank-Untouched : (s : Mr E) (ptr len : ℕ) → Untouched s (find_bank api s ptr len).1
  unfolding find_bank
  find_bank-Untouched s ptr len = go (find_from s.attr.bank_count 0 ptr len s.banks none s.held) (
      find_from-Finds s.banks s.attr.bank_count 0 s.attr.bank_count ptr len none s.held
        (omega arith) (λ j h. absurd (omega arith)) (λ j h. absurd (omega arith)))
    where
      go :
          (f : Found × (ℕ → ℤ))
          → Finds s.banks ptr len s.attr.bank_count f.0
          → Untouched s (resolve api s ptr len f).1
      go (hit i, held) h = assumption refl
      go (miss none, held) h = assumption refl
      go (miss (some o), held) h =
          let u =
            Kept-Untouched {s = record s { held = held }} h.0.evictable
              (reuse-Kept (record s { held = held }) o ptr len) in
          record {
            ref = u.ref;
            busy = u.busy;
            slabs = u.slabs;
            mem = u.mem;
            attr = u.attr;
            slab_held = u.slab_held;
            slab_mr = u.slab_mr;
            allocated = u.allocated;
          }

  reuse-held :
      (s : Mr E) (held : ℕ → ℤ) (o ptr len : ℕ)
      → ((j : ℕ) → held j ≡ lock s.held o j)
      → let (out, t) = reuse api (record s { held = held }) o ptr len in
        (j : ℕ) → t.held j ≡ locks_of s.held out j
  unfolding reuse
  reuse-held s held o ptr len h j = elim (Bool-cases (is_zero (register api given o).0)) [
    | inl e ↦ rw e (ap (λ (g : ℕ → ℤ). g j) f.held ∙ h j)
    | inr e ↦ rw (e, f.held) (ground (arith, h j, h o, dec-inc (s.held o)))
  ]
    where
      given : Mr E
      given = record s {
        held = held;
        banks = update s.banks o (record (s.banks o) { base = ptr; len = len });
      }

      f : Frame o given (register api given o).1
      f = register-Frame api given o

  -- On success only the mutex of the bank returned stays locked, on failure none.
  pub find_bank-locks :
      (s : Mr E) (ptr len j : ℕ)
      → let (out, t) = find_bank api s ptr len in t.held j ≡ locks_of s.held out j
  unfolding find_bank
  find_bank-locks s ptr len j =
      go (find_from s.attr.bank_count 0 ptr len s.banks none s.held)
        (find_from-Holds s.banks s.held s.attr.bank_count 0 ptr len none s.held tt (λ j. refl)) j
    where
      go :
          (f : Found × (ℕ → ℤ))
          → ((j : ℕ) → f.1 j ≡ lock_opt s.held (kept f.0) j)
          → let (out, t) = resolve api s ptr len f in (j : ℕ) → t.held j ≡ locks_of s.held out j
      go (hit i, held) h = h
      go (miss none, held) h = h
      go (miss (some o), held) h = reuse-held s held o ptr len h
