-- ===== src/Mr/Slab.antt =====
-- The slabs for small payloads: `ofi_mr_tryslab`.
pub mod Payload
use nanomsg_transport_ofi.Prelude.{
  ℕ, zero, suc, ◌+◌, true, Option, none, some, inc, dec, update, ltb, if◌then◌else◌, efbig, enomem,
}
use nanomsg_transport_ofi.Mr.State.{Slab, Mr, memcpy}
use nanomsg_transport_ofi.Mr.Bank.{Outcome, ok, fail}

-- The loop: the first slab that is not in use.
pub slab_from : ℕ → ℕ → (ℕ → Slab) → Option ℕ
slab_from zero i slabs = none
slab_from (suc k) i slabs =
    let rest = slab_from k (i + 1) slabs in if (slabs i).inuse then rest else some i

module _ {E : Type 0} where
  -- Marks the slab and copies the payload into it, outside the lock.
  abbrev pub take_slab : Mr E → ℕ → ℕ → ℕ → Mr E
  take_slab s i ptr len = record s {
    slab_held = dec (inc s.slab_held);
    slabs = update s.slabs i (record (s.slabs i) { inuse = true });
    mem = memcpy s.mem (s.slabs i).addr ptr len;
  }

  abbrev pub chosen : Mr E → ℕ → ℕ → Option ℕ → Outcome × Mr E
  chosen s ptr len none = (fail enomem, record s { slab_held = dec (inc s.slab_held) })
  chosen s ptr len (some i) = (ok i, take_slab s i ptr len)

  unfoldable pub try_slab : Mr E → ℕ → ℕ → Outcome × Mr E
  unfolding slab_from
  try_slab s ptr len =
      if ltb s.attr.slab_size len
      then (fail efbig, s)
      else chosen s ptr len (slab_from s.attr.slab_count 0 s.slabs)
