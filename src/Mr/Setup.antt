-- ===== src/Mr/Setup.antt =====
-- The life of a manager and the regions that its user names: `ofi_mr_init`, `ofi_mr_term`,
-- `ofi_mr_mark`, `ofi_mr_invalidate`.
pub mod Start
pub mod Mark
pub mod Invalidate
use nanomsg_transport_ofi.Prelude.{
  ℕ, zero, suc, ◌+◌, ◌-◌, ◌*◌, Bool, true, false, ◌&&◌, ◌||◌, Option, none, some, List, [], ◌∷◌, ℤ,
  pos, is_zero, is_pos, update, leb, ltb, if◌then◌else◌, ebusy,
}
use nanomsg_transport_ofi.Mr.State.{
  Direction, send, recv, both, Access, fi_send, fi_write, fi_remote_read, fi_recv, fi_read,
  fi_remote_write, Bank, Slab, Attr, Provider, Mr, lock, unlock,
}
use nanomsg_transport_ofi.Mr.Bank.{Outcome, ok, fail, unregister, register, get_free_bank}

pub access_of : Direction → List Access
access_of send = fi_send ∷ fi_write ∷ fi_remote_read ∷ []
access_of recv = fi_recv ∷ fi_read ∷ fi_remote_write ∷ []
access_of both = fi_recv ∷ fi_read ∷ fi_remote_write ∷ fi_send ∷ fi_write ∷ fi_remote_read ∷ []

-- An initialised bank; the handle `mr` is left as it was.
abbrev pub fresh_bank : Bank → Bank
fresh_bank b = record b {
  ref = pos 0;
  base = 0;
  len = 0;
  age = 0;
  nonvolatile = false;
  registered = false;
}

pub init_banks : ℕ → ℕ → (ℕ → Bank) → ℕ → Bank
init_banks zero i banks = banks
init_banks (suc k) i banks = init_banks k (i + 1) (update banks i (fresh_bank (banks i)))

pub init_held : ℕ → ℕ → (ℕ → ℤ) → ℕ → ℤ
init_held zero i held = held
init_held (suc k) i held = init_held k (i + 1) (update held i (pos 0))

pub init_slabs : ℕ → ℕ → ℕ → ℕ → (ℕ → Slab) → ℕ → Slab
init_slabs zero i mem size slabs = slabs
init_slabs (suc k) i mem size slabs =
    init_slabs k (i + 1) mem size (update slabs i (record { addr = mem + size * i; inuse = false }))

-- The bank touches the range `[base, base + len]`, ends included.
unfoldable pub intersects : Bank → ℕ → ℕ → Bool
intersects b base len =
    (leb b.base base && leb base (b.base + b.len))
    || (leb b.base (base + len) && leb (base + len) (b.base + b.len))
    || (leb base b.base && leb b.base (base + len))
    || (leb base (b.base + b.len) && leb (b.base + b.len) (base + len))

module _ {E : Type 0} (api : Provider E) where
  open api use {fi_mr_reg, fi_close}

  abbrev pub slab_mapped : Mr E → ℤ × ℕ × E → ℤ × Mr E
  slab_mapped s (ret, mr, env) =
      if is_zero ret
      then (pos 0, record s { env = env; slab_mr = mr; slab_held = pos 0 })
      else (ret, record s { env = env })

  -- Allocates the slabs; `mem` is the address that the allocator returns for them.
  abbrev pub with_slabs : Mr E → Attr → ℕ → Mr E
  with_slabs s attr mem = record s {
    allocated = s.allocated + 2;
    slab_mem = some mem;
    slabs = init_slabs attr.slab_count 0 mem attr.slab_size s.slabs;
  }

  -- The slab part of `ofi_mr_init`
  abbrev pub init_slab_part : Mr E → Attr → ℕ → ℤ × Mr E
  init_slab_part s attr mem =
      let t = with_slabs s attr mem in
      slab_mapped t
        (fi_mr_reg t.env mem (attr.slab_count * attr.slab_size) t.access_flags attr.base_key)

  -- The part before the slabs
  abbrev pub with_banks : Mr E → Attr → Mr E
  with_banks s attr = record s {
    allocated = s.allocated + 1;
    attr = attr;
    age = 0;
    access_flags = access_of attr.direction;
    banks = init_banks attr.bank_count 0 s.banks;
    held = init_held attr.bank_count 0 s.held;
  }

  -- `s` is the structure before it is initialised.
  unfoldable pub init : Mr E → Attr → ℕ → ℤ × Mr E
  unfolding access_of init_banks init_held init_slabs
  init s attr mem =
      if ltb 0 attr.slab_count
      then init_slab_part (with_banks s attr) attr mem
      else (pos 0, record (with_banks s attr) { slab_mem = none })

  abbrev pub close_bank : Mr E → ℕ → Mr E
  close_bank s i =
      let t = (unregister api (record s { held = lock s.held i }) i).1 in
      record t { held = unlock t.held i }

  -- The loop of `ofi_mr_term`; `none` means that its assertion failed.
  pub term_from : ℕ → ℕ → Mr E → Option (Mr E)
  term_from zero i s = some s
  term_from (suc k) i s = elim (is_zero (s.banks i).ref) [
    | true ↦ term_from k (i + 1) (close_bank s i)
    | false ↦ none
  ]

  abbrev pub close_slabs : Mr E → Mr E
  close_slabs s =
      if ltb 0 s.attr.slab_count
      then record s { env = (fi_close s.env s.slab_mr).1; allocated = s.allocated - 2 }
      else s

  abbrev pub terminated : Option (Mr E) → Option (Mr E)
  terminated none = none
  terminated (some s) = let t = close_slabs s in some (record t { allocated = t.allocated - 1 })

  unfoldable pub term : Mr E → Option (Mr E)
  unfolding term_from
  term s = terminated (term_from s.attr.bank_count 0 s)

  -- The end of `ofi_mr_mark` on both paths: it locks the mutex of the bank.
  abbrev pub marked : ℕ → ℤ × Mr E → ℤ × Mr E
  marked i (ret, s) = (ret, record s { held = lock s.held i })

  abbrev pub mark_free : ℕ → ℕ → Outcome × Mr E → ℤ × Mr E
  mark_free base len (fail ret, s) = (ret, s)
  mark_free base len (ok i, s) = marked i (
      register api
        (record s {
          banks = update s.banks i (record (s.banks i) {
            base = base;
            len = len;
            nonvolatile = true;
            registered = false;
          });
        })
        i)

  unfoldable pub mark : Mr E → ℕ → ℕ → ℤ × Mr E
  mark s base len = mark_free base len (get_free_bank api s)

  abbrev pub clear_nonvolatile : Mr E → ℕ → Mr E
  clear_nonvolatile s i = record s {
    banks = update s.banks i (record (s.banks i) { nonvolatile = false });
  }

  -- A bank that is not in use, under its lock.
  unfoldable pub invalidate_bank : Mr E → ℕ → ℕ → ℕ → Mr E
  invalidate_bank s i base len =
      if intersects (s.banks i) base len then clear_nonvolatile (unregister api s i).1 i else s

  pub invalidate_from : ℕ → ℕ → ℕ → ℕ → Mr E → ℤ × Mr E
  unfolding invalidate_bank
  invalidate_from zero i base len s = (pos 0, s)
  invalidate_from (suc k) i base len s =
      let t : Mr E = record s { held = lock s.held i } in
      let u = invalidate_bank t i base len in
      elim (intersects (s.banks i) base len && is_pos (s.banks i).ref) [
        | true ↦ (ebusy, record t { held = unlock t.held i })
        | false ↦ invalidate_from k (i + 1) base len (record u { held = unlock u.held i })
      ]

  unfoldable pub invalidate : Mr E → ℕ → ℕ → ℤ × Mr E
  unfolding invalidate_from intersects
  invalidate s base len = invalidate_from s.attr.bank_count 0 base len s
