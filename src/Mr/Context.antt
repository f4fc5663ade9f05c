-- ===== src/Mr/Context.antt =====
-- Operations in transit: `ofi_mr_describe` and `ofi_mr_release`.
pub mod Steps
pub mod Balance
pub mod Intact
pub mod Bytes
use nanomsg_transport_ofi.Prelude.{
  ℕ, ◌+◌, ◌-◌, Bool, true, false, Option, none, some, List, [], ◌∷◌, ◌++◌, ℤ, pos, inc, dec, update,
  is_zero, ltb, ◌==◌, if◌then◌else◌, length, e2big,
}
use nanomsg_transport_ofi.Mr.State.{Bank, Slab, Provider, Mr, lock, unlock}
use nanomsg_transport_ofi.Mr.Bank.{Outcome, ok, fail, find_bank}
use nanomsg_transport_ofi.Mr.Slab.{try_slab}

abbrev pub max_banks_per_context : ℕ
max_banks_per_context = 16

-- An element of the scatter-gather array, `struct iovec`
pub record Iov : Type 0 where
  pub iov_base : ℕ
  pub iov_len : ℕ

-- `struct ofi_mr_context`; the lists are its arrays up to `nbanks` and `nslabs`.
pub record Context : Type 0 where
  pub descriptors : List (Option ℕ)
  pub banks : List ℕ
  pub slabs : List ℕ

abbrev pub empty_context : Context
empty_context = record { descriptors = []; banks = []; slabs = [] }

-- Adds bank `i` to the context.
abbrev pub use_bank : Context → ℕ → ℕ → Context
use_bank ctx i desc = record ctx {
  banks = ctx.banks ++ i ∷ [];
  descriptors = ctx.descriptors ++ some desc ∷ [];
}

-- A description under way: what the loop has done so far.
pub record Progress (E : Type 0) : Type 0 where
  pub state : Mr E
  pub ctx : Context
  pub done : List Iov

module _ {E : Type 0} where
  abbrev pub drop_ref : Mr E → ℕ → Mr E
  drop_ref s i = record s {
    held = unlock (lock s.held i) i;
    banks = update s.banks i (record (s.banks i) { ref = dec (s.banks i).ref });
  }

  -- `bank->ref--` for each bank of the context
  unfoldable pub release_banks : List ℕ → Mr E → Mr E
  release_banks [] s = s
  release_banks (i ∷ is) s = release_banks is (drop_ref s i)

  abbrev pub free_slab : Mr E → ℕ → Mr E
  free_slab s i = record s { slabs = update s.slabs i (record (s.slabs i) { inuse = false }) }

  -- `slab->flags = 0` for each slab of the context
  unfoldable pub release_slabs : List ℕ → Mr E → Mr E
  release_slabs [] s = s
  release_slabs (i ∷ is) s = release_slabs is (free_slab s i)

  -- `ofi_mr_release`: the banks, the slabs (with no lock), and the two blocks of the context.
  unfoldable pub release : Context → Mr E → Mr E
  unfolding release_banks release_slabs
  release ctx s =
      let t = release_slabs ctx.slabs (release_banks ctx.banks s) in
      record t { allocated = t.allocated - 2 }

  abbrev pub lock_slabs : Mr E → Mr E
  lock_slabs s = record s { slab_held = inc s.slab_held }

  abbrev pub unlock_slabs : Mr E → Mr E
  unlock_slabs s = record s { slab_held = dec s.slab_held }

  -- The label `err` of `ofi_mr_describe`: the context itself is not freed.
  unfoldable pub undo : Context → Mr E → Mr E
  unfolding release_banks release_slabs
  undo ctx s = unlock_slabs (release_slabs ctx.slabs (lock_slabs (release_banks ctx.banks s)))

  -- Adds the slab to the context, and moves the element to the slab.
  abbrev pub use_slab : Mr E → Context → Iov → ℕ → ℕ → Context × Iov
  use_slab s ctx iov j desc = (
    record ctx { slabs = ctx.slabs ++ j ∷ []; descriptors = ctx.descriptors ++ some desc ∷ [] },
    record iov { iov_base = (s.slabs j).addr },
  )

  -- Takes a reference to bank `i`, which is locked, and unlocks it.
  abbrev pub take_ref : Mr E → ℕ → Mr E
  take_ref s i = record s {
    banks = update s.banks i (record (s.banks i) { ref = inc (s.banks i).ref });
    held = unlock s.held i;
  }

-- What `ofi_mr_describe` hands back: its return code, `*handle`, the array with its elements
-- moved, and the manager. On success the descriptors of the handle are `msg->desc`.
pub record Described (E : Type 0) : Type 0 where
  pub ret : ℤ
  pub handle : Option Context
  pub iovs : List Iov
  pub state : Mr E

module _ {E : Type 0} where
  abbrev pub finish : ℤ × Progress E × List Iov → Described E
  finish (ret, p, rest) =
      if is_zero ret
      then record { ret = ret; handle = some p.ctx; iovs = p.done ++ rest; state = p.state }
      else record { ret = ret; handle = none; iovs = p.done ++ rest; state = undo p.ctx p.state }

  -- Allocates the context and its array of descriptors.
  abbrev pub begin : Mr E → Progress E
  begin s = record {
    state = record s { allocated = s.allocated + 2 };
    ctx = empty_context;
    done = [];
  }

module _ {E : Type 0} (api : Provider E) where
  open api use {fi_mr_desc}

  abbrev pub from_bank : Progress E → Iov → Outcome × Mr E → ℤ × Progress E
  from_bank p iov (fail ret, s) = (ret, record p { state = s })
  from_bank p iov (ok i, s) = (
    pos 0,
    record {
      state = take_ref s i;
      ctx = use_bank p.ctx i (fi_mr_desc (s.banks i).mr);
      done = p.done ++ iov ∷ [];
    },
  )

  abbrev pub from_slab : Progress E → Iov → Outcome × Mr E → ℤ × Progress E
  from_slab p iov (ok j, s) =
      let (ctx, moved) = use_slab s p.ctx iov j (fi_mr_desc s.slab_mr) in
      (pos 0, record { state = s; ctx = ctx; done = p.done ++ moved ∷ [] })
  from_slab p iov (fail e, s) = from_bank p iov (find_bank api s iov.iov_base iov.iov_len)

  -- One round of the loop of `ofi_mr_describe`.
  unfoldable pub describe_iov : Progress E → Iov → ℤ × Progress E
  describe_iov p iov =
      if iov.iov_len == 0
      then (
        pos 0,
        record p {
          ctx = record p.ctx { descriptors = p.ctx.descriptors ++ none ∷ [] };
          done = p.done ++ iov ∷ [];
        },
      )
      else from_slab p iov (try_slab p.state iov.iov_base iov.iov_len)

  -- The loop, up to the first error. The last part is what remains of the array.
  unfoldable pub describe_from : Progress E → List Iov → ℤ × Progress E × List Iov
  unfolding describe_iov
  describe_from p [] = (pos 0, p, [])
  describe_from p (iov ∷ rest) =
      let (ret, q) = describe_iov p iov in
      elim (is_zero ret) [ true ↦ describe_from q rest | false ↦ (ret, q, iov ∷ rest) ]

  unfoldable pub describe : Mr E → List Iov → Described E
  unfolding describe_from undo
  describe s iovs =
      if ltb max_banks_per_context (length iovs)
      then record { ret = e2big; handle = none; iovs = iovs; state = s }
      else finish (describe_from (begin s) iovs)
