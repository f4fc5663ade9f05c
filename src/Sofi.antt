-- ===== src/Sofi.antt =====
-- The state machine of a streaming endpoint (src/transports/ofi/sofi.c): the connection, its
-- keep-alive ticks and its shutdown, over the egress queue and the ingress buffers.
pub mod Running
pub mod Closing
pub mod Starting
pub mod Hanging
pub mod Ending
pub mod Ticks
pub mod Sound
pub mod Setup
use nanomsg_transport_ofi.Prelude.{
  ℕ, ◌==◌, Bool, true, false, Option, none, some, ℤ, pos, is_zero, if◌then◌else◌,
}
use nanomsg_transport_ofi.Egress
use nanomsg_transport_ofi.Ingress
use nanomsg_transport_ofi.Ingress.Receiving

-- `NN_SOFI_STATE_*`
pub data State : Type 0 where
  idle connecting active closing closed : State

-- What `socket_state` holds: `NN_SOFI_SOCKET_STATE_*`, and the two of `NN_SOFI_STATE_*` that are
-- written into it.
pub data Socket : Type 0 where
  never trying connected shutting draining gone : Socket

-- The events, by source and type; `unknown` is any other.
pub data Event : Type 0 where
  start stop : Event
  eq_connected eq_shutdown : Event
  eq_error : ℤ → Event
  rx_completed : Receiving.Completion → Event
  rx_error : ℤ → Event
  tx_completed : ℕ → Event
  tx_error : ℕ → ℤ → Event
  keepalive_timeout keepalive_stopped : Event
  shutdown_timeout shutdown_stopped : Event
  unknown : Event

-- The calls of the machine, on the world `S` that they change.
pub record Parts (M H S : Type 0) : Type 0 where
  pub egress : Egress.Parts M H S
  pub ingress : Receiving.Parts S
  pub sendmsg_aux : S → ℤ × S
  pub pipebase_start : S → S
  pub pipebase_stop : S → S
  pub keepalive_start : S → S
  pub keepalive_stop : S → S
  pub keepalive_isidle : S → Bool
  pub shutdown_start : ℕ → S → S
  pub shutdown_stop : S → S
  pub shutdown_isidle : S → Bool
  pub endpoint_open : S → ℤ × S
  pub endpoint_close : S → S
  pub cm_accept : S → ℤ × S
  pub cm_connect : S → ℤ × S
  pub cm_shutdown : S → S
  pub worker_start : S → S
  pub worker_stop : S → S
  pub fsm_stopped : S → S

-- `struct nn_sofi`, less the fields of its two queues. These find the world in `world` when they are
-- called, and leave it there. The handshake is compiled out (`OFI_DISABLE_HANDSHAKE`).
pub record Sofi (M H S : Type 0) : Type 0 where
  pub state : State
  pub socket_state : Socket
  pub error : ℤ
  pub egress : Egress.Egress M H S
  pub ingress : Ingress.Ingress S
  pub world : S

-- How a handler ends: it returns, it has called `nn_sofi_critical_error`, which stops the machine,
-- or it has called `nn_fsm_stopped`.
pub data Outcome (M H S : Type 0) : Type 0 where
  running : Sofi M H S → Outcome M H S
  critical : Sofi M H S → Outcome M H S
  stopped : Sofi M H S → Outcome M H S

abbrev pub is_closing : State → Bool
is_closing closing = true
is_closing _ = false

module _ {M H S : Type 0} where
  abbrev pub with_egress : Sofi M H S → Egress.Egress M H S → Sofi M H S
  with_egress s e = record s { egress = e; world = e.world }

  abbrev pub with_ingress : Sofi M H S → Ingress.Ingress S → Sofi M H S
  with_ingress s e = record s { ingress = e; world = e.world }

  -- The two queues, as they are called.
  abbrev pub egress_of : Sofi M H S → Egress.Egress M H S
  egress_of s = record s.egress { world = s.world; closing = is_closing s.state }

  abbrev pub ingress_of : Sofi M H S → Ingress.Ingress S
  ingress_of s = record s.ingress { world = s.world }

  -- `self->error = error;`, before the machine is stopped
  abbrev pub failed : Sofi M H S → ℤ → Outcome M H S
  failed s e = critical (record s { error = e })

  abbrev pub running_if : Option (Sofi M H S) → Option (Outcome M H S)
  running_if none = none
  running_if (some s) = some (running s)
