-- ===== src/Egress/Sending.antt =====
-- Sending through the egress queue, and the end of a transmission.
use nanomsg_transport_ofi.Prelude.{
  is_some, ℕ, zero, suc, ◌==◌, ltb, true, false, ◌&&◌, Option, none, some, ℤ, pos, is_zero, update,
  if◌then◌else◌,
}
use nanomsg_transport_ofi.Egress.{
  Parts, Egress, atomic_inc, atomic_dec, get_context, mark_busy, mark_free,
}

-- `ret`, with what the call leaves.
pub record Posted (M H S : Type 0) : Type 0 where
  pub ret : ℤ
  pub egress : Egress M H S

-- How `nn_sofi_egress_stage` ends: it is done, or it calls `nn_sofi_critical_error`.
pub data Staged (M H S : Type 0) : Type 0 where
  done : Egress M H S → Staged M H S
  critical : ℤ → Egress M H S → Staged M H S

module _ {M H S : Type 0} (parts : Parts M H S) where
  open parts use {describe, release, sendmsg, pipebase_sent}

  abbrev release_opt : Option H → S → S
  release_opt none w = w
  release_opt (some h) w = release h w

  -- `nn_sofi_egress_free_context`
  unfoldable pub free_context : Egress M H S → ℕ → Egress M H S
  free_context e c = record e {
    contexts = update e.contexts c (record (e.contexts c) { msg = none; mr_handle = none });
    world = release_opt (e.contexts c).mr_handle e.world;
  }

  abbrev pub marked : Option (Egress M H S) → Option (Posted M H S)
  marked none = none
  marked (some e) = some (record { ret = pos 0; egress = e })

  abbrev pub sent : Egress M H S → ℕ → ℤ × S → Option (Posted M H S)
  sent e c (ret, w) =
      let f : Egress M H S = record e { world = w } in
      if is_zero ret
      then marked (mark_busy f c)
      else some (record { ret = ret; egress = free_context f c })

  abbrev pub described : Egress M H S → ℕ → ℤ × H × S → Option (Posted M H S)
  described e c (ret, h, w) =
      let f : Egress M H S = record e {
        contexts = update e.contexts c (record (e.contexts c) { mr_handle = some h });
        world = w;
      } in
      if is_zero ret
      then sent f c (sendmsg (e.contexts c).msg h w)
      else some (record { ret = ret; egress = free_context (record e { world = w }) c })

  -- The message moves from `outmsg` to the context.
  abbrev pub move_msg : Egress M H S → ℕ → Egress M H S
  move_msg e c = record e {
    contexts = update e.contexts c (record (e.contexts c) { msg = e.outmsg });
    outmsg = none;
  }

  abbrev pub with_context : Egress M H S → ℤ × Option ℕ → Option (Posted M H S)
  with_context e (ret, none) = some (record { ret = ret; egress = e })
  with_context e (ret, some c) = described (move_msg e c) c (describe e.outmsg e.world)

  unfoldable pub post_buffers : Egress M H S → Option (Posted M H S)
  unfolding get_context mark_busy free_context
  post_buffers e = with_context e (get_context e)

  -- The end of `nn_sofi_egress_send`: back-pressure.
  abbrev pub throttle : Egress M H S → Egress M H S
  throttle e = record e {
    staged = false;
    counter = atomic_dec e.counter;
    world = if ltb 1 e.counter then pipebase_sent e.world else e.world;
  }

  abbrev pub posted : Option (Posted M H S) → Option (Posted M H S)
  posted none = none
  posted (some p) =
      if is_zero p.ret then some (record { ret = pos 0; egress = throttle p.egress }) else some p

  unfoldable pub send : Egress M H S → Option (Posted M H S)
  unfolding post_buffers
  send e = if e.out_active && e.staged then posted (post_buffers e) else none

  abbrev pub send_staged : Option (Posted M H S) → Option (Staged M H S)
  send_staged none = none
  send_staged (some p) =
      if is_zero p.ret then some (done p.egress) else some (critical p.ret p.egress)

  unfoldable pub stage : Egress M H S → M → Option (Staged M H S)
  unfolding send
  stage e m =
      let f : Egress M H S = record e { outmsg = some m; staged = true } in
      let s = send_staged (send f) in
      if e.staged
      then none
      else if e.closing
      then some (done e)
      else if e.out_active
      then s
      else some (done f)

  -- The end of `nn_sofi_egress_handle`: back-pressure is released.
  abbrev pub unthrottle : Egress M H S → Egress M H S
  unthrottle e = record e {
    counter = atomic_inc e.counter;
    world = if e.counter == 0 then pipebase_sent e.world else e.world;
  }

  abbrev pub unthrottled : Option (Egress M H S) → Option (Egress M H S)
  unthrottled none = none
  unthrottled (some e) = some (unthrottle e)

  -- `nn_sofi_egress_handle_error`
  unfoldable pub handle_error : Egress M H S → ℕ → Option (Egress M H S)
  unfolding free_context mark_free
  handle_error e c = mark_free (free_context e c) c

  -- `nn_sofi_egress_handle`
  unfoldable pub handle : Egress M H S → ℕ → Option (Egress M H S)
  unfolding free_context mark_free
  handle e c = unthrottled (mark_free (free_context (record e { ticks_out = 0 }) c) c)

  abbrev flush_context : Egress M H S → ℕ → Egress M H S
  flush_context e c = free_context (record e { counter = atomic_inc e.counter }) c

  -- The loop of `nn_sofi_egress_flush`; the fuel is the number of contexts.
  unfoldable pub flush_from : ℕ → Option ℕ → Egress M H S → Egress M H S
  unfolding free_context
  flush_from zero c e = e
  flush_from (suc k) none e = e
  flush_from (suc k) (some c) e =
      let rest = flush_from k (e.contexts c).next (flush_context e c) in
      if is_some (e.contexts c).mr_handle then rest else e

  -- `nn_sofi_egress_flush`
  unfoldable pub flush : Egress M H S → Egress M H S
  unfolding flush_from
  flush e = flush_from e.max (some e.head) e
