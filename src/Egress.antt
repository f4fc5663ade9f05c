-- ===== src/Egress.antt =====
-- The egress queue of a streaming endpoint (src/transports/ofi/sofi.c): the contexts of messages
-- that are being sent, and the back-pressure on nanomsg.
pub mod Sending
pub mod Count
pub mod Balance
pub mod Chain
pub mod Total
pub mod Freed
pub mod Front
pub mod Complete
pub mod Start
use nanomsg_transport_ofi.Prelude.{
  is_some, ℕ, zero, suc, ◌+◌, ◌-◌, ◌==◌, ltb, Bool, true, false, ◌&&◌, not, Option, none, some, ℤ,
  pos, is_zero, eagain, update, if◌then◌else◌,
}

-- `struct nn_sofi_out_ctx`; its address is its index. A `msg` of `none` is empty.
pub record Ctx (M H : Type 0) : Type 0 where
  pub msg : Option M
  pub mr_handle : Option H
  pub next : Option ℕ
  pub prev : Option ℕ

-- What the queue calls: the memory region manager, `ofi_sendmsg`, and `nn_pipebase_sent`.
pub record Parts (M H S : Type 0) : Type 0 where
  pub describe : Option M → S → ℤ × H × S
  pub release : H → S → S
  pub sendmsg : Option M → H → S → ℤ × S
  pub pipebase_sent : S → S

-- The fields of `struct nn_sofi` that the queue uses.
pub record Egress (M H S : Type 0) : Type 0 where
  pub contexts : ℕ → Ctx M H
  pub head : ℕ
  pub tail : ℕ
  pub counter : ℕ
  pub max : ℕ
  pub staged : Bool
  pub out_active : Bool
  pub closing : Bool
  pub outmsg : Option M
  pub ticks_out : ℕ
  pub world : S

-- `nn_atomic_inc` and `nn_atomic_dec` by 1, on 32 bits
abbrev pub atomic_inc : ℕ → ℕ
atomic_inc n = if n == 4294967295 then 0 else suc n

abbrev pub atomic_dec : ℕ → ℕ
atomic_dec n = if n == 0 then 4294967295 else n - 1

module _ {M H : Type 0} where
  abbrev pub set_next : (ℕ → Ctx M H) → ℕ → Option ℕ → ℕ → Ctx M H
  set_next cs i p = update cs i (record (cs i) { next = p })

  abbrev pub set_prev : (ℕ → Ctx M H) → ℕ → Option ℕ → ℕ → Ctx M H
  set_prev cs i p = update cs i (record (cs i) { prev = p })

module _ {M H S : Type 0} where
  -- `nn_sofi_egress_empty`
  unfoldable pub is_empty : Egress M H S → Bool
  is_empty e = e.counter == e.max

  -- `nn_sofi_egress_get_context`
  unfoldable pub get_context : Egress M H S → ℤ × Option ℕ
  get_context e =
      if is_some (e.contexts e.head).mr_handle then (eagain, none) else (pos 0, some e.head)

  -- The second half of `nn_sofi_egress_mark_busy`, from `ctx->next->prev = NULL` on.
  abbrev pub pop_head : Egress M H S → ℕ → Option ℕ → Option (Egress M H S)
  pop_head e c none = none
  pop_head e c (some d) =
      some (record e { contexts = set_next (set_prev e.contexts d none) c none; head = d })

  abbrev pub push_tail : Egress M H S → ℕ → Egress M H S
  push_tail e c = record e {
    contexts = set_next (set_prev e.contexts c (some e.tail)) e.tail (some c);
    tail = c;
  }

  -- `nn_sofi_egress_mark_busy`: `none` is a failed assertion, or the use of NULL.
  unfoldable pub mark_busy : Egress M H S → ℕ → Option (Egress M H S)
  mark_busy e c =
      let f = push_tail e c in
      if c == e.head && is_some (e.contexts c).mr_handle
      then pop_head f c (f.contexts c).next
      else none

  abbrev pub push_head : Egress M H S → ℕ → Egress M H S
  push_head e c = record e {
    contexts = set_prev (set_next e.contexts c (some e.head)) e.head (some c);
    head = c;
  }

  -- The tail moves to the head.
  abbrev pub pop_tail : Egress M H S → ℕ → Option ℕ → Option (Egress M H S)
  pop_tail e c none = none
  pop_tail e c (some p) =
      some (
        push_head (record e { contexts = set_prev (set_next e.contexts p none) c none; tail = p })
          c)

  -- A context between two others moves to the head.
  abbrev pub as_first : Egress M H S → ℕ → Egress M H S
  as_first e c = record e { contexts = set_prev e.contexts c none }

  abbrev pub unlink : Egress M H S → ℕ → Option ℕ → Option ℕ → Option (Egress M H S)
  unlink e c (some n) (some p) =
      let cs = set_next (set_prev e.contexts n (some p)) p (some n) in
      some (as_first (push_head (record e { contexts = cs }) c) c)
  unlink e c none p = none
  unlink e c (some n) none = none

  -- `nn_sofi_egress_mark_free`
  unfoldable pub mark_free : Egress M H S → ℕ → Option (Egress M H S)
  mark_free e c =
      if is_some (e.contexts c).mr_handle
      then none
      else if c == e.tail
      then pop_tail e c (e.contexts c).prev
      else if c == e.head
      then some e
      else unlink e c (e.contexts c).next (e.contexts c).prev
