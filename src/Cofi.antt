-- ===== src/Cofi.antt =====
-- The connecting endpoint (src/transports/ofi/cofi.c). What it calls, in nanomsg and in the
-- streaming endpoint, is the interface `Parts`.
pub mod Edges
pub mod Stopping
use nanomsg_transport_ofi.Prelude.{
  Bool, true, false, ◌&&◌, List, [], ◌∷◌, ℤ, is_zero, if◌then◌else◌,
}

-- `NN_COFI_STATE_*`
pub data State : Type 0 where
  idle active retrying stopping_backoff stopping : State

-- The sources of events: `NN_FSM_ACTION`, `NN_COFI_SRC_SOFI`, `NN_COFI_SRC_RECONNECT_TIMER`, others.
pub data Source : Type 0 where
  fsm_action sofi reconnect_timer elsewhere : Source

-- The types of events: `NN_FSM_START`, `NN_FSM_STOP`, `NN_SOFI_STOPPED`, `NN_BACKOFF_TIMEOUT`,
-- `NN_BACKOFF_STOPPED`, others.
pub data Kind : Type 0 where
  start stop sofi_stopped backoff_timeout backoff_stopped other : Kind

-- `nn_fsm_bad_action`, `nn_fsm_bad_source` and `nn_fsm_bad_state` of nanomsg end the process.
pub data Abort : Type 0 where
  bad_action bad_source bad_state : Abort

-- The calls of the endpoint, on the world `S` that they change.
pub record Parts (S : Type 0) : Type 0 where
  pub sofi_init : S → ℤ × S
  pub sofi_start_connect : S → ℤ × S
  pub sofi_stop : S → S
  pub sofi_term : S → S
  pub sofi_isidle : S → Bool
  pub backoff_start : S → S
  pub backoff_stop : S → S
  pub backoff_isidle : S → Bool
  pub set_error : ℤ → S → S
  pub fsm_stopped : S → S
  pub epbase_stopped : S → S

-- `struct nn_cofi`
pub record Cofi (S : Type 0) : Type 0 where
  pub state : State
  pub world : S

pub data Outcome (S : Type 0) : Type 0 where
  done : Cofi S → Outcome S
  abort : Abort → Outcome S

module _ {S : Type 0} (parts : Parts S) where
  open parts use {
    sofi_init, sofi_start_connect, sofi_stop, sofi_term, sofi_isidle, backoff_start, backoff_stop,
    backoff_isidle, set_error, fsm_stopped, epbase_stopped,
  }

  abbrev start_initialised : ℤ × S → ℤ × S
  start_initialised (ret, w) = if is_zero ret then sofi_start_connect w else (ret, w)

  unfoldable pub start_connecting : S → ℤ × S
  start_connecting w = start_initialised (sofi_init w)

  -- The end of `nn_cofi_shutdown`, with all resources idle.
  pub all_idle : State → S → Outcome S
  all_idle stopping w = done (record { state = stopping; world = epbase_stopped (fsm_stopped w) })
  all_idle _ w = abort bad_state

  unfoldable pub finish_shutdown : State → S → Outcome S
  unfolding all_idle
  finish_shutdown state w =
      if backoff_isidle w && sofi_isidle w
      then all_idle state w
      else done (record { state = state; world = w })

  -- `nn_cofi_shutdown` behind its first test.
  unfoldable pub drain : State → Source → Kind → S → Outcome S
  unfolding finish_shutdown
  drain state sofi sofi_stopped w = finish_shutdown state (sofi_term w)
  drain state sofi _ w = abort bad_action
  drain state reconnect_timer backoff_stopped w = finish_shutdown state w
  drain state reconnect_timer _ w = abort bad_action
  drain state _ _ w = abort bad_source

  -- `nn_cofi_shutdown` on `NN_FSM_ACTION`, `NN_FSM_STOP`.
  unfoldable pub begin_stop : S → Outcome S
  unfolding drain
  begin_stop w =
      let w' = backoff_stop w in
      if sofi_isidle w'
      then drain stopping fsm_action stop w'
      else done (record { state = stopping; world = sofi_stop w' })

  unfoldable pub shutdown : Cofi S → Source → Kind → Outcome S
  unfolding begin_stop drain
  shutdown c fsm_action stop = begin_stop c.world
  shutdown c src kind = drain c.state src kind c.world

  -- `nn_cofi_critical_error`: `nn_fsm_stop` calls the shutdown handler at once.
  unfoldable pub critical_error : ℤ → S → Outcome S
  unfolding begin_stop
  critical_error error w = begin_stop (set_error error w)

  abbrev started : ℤ × S → Outcome S
  started (ret, w) =
      if is_zero ret then done (record { state = active; world = w }) else critical_error ret w

  -- The `switch` of `nn_cofi_handler`.
  unfoldable pub dispatch : State → Source → Kind → S → Outcome S
  unfolding start_connecting critical_error
  dispatch idle fsm_action start w = started (start_connecting w)
  dispatch idle fsm_action _ w = abort bad_action
  dispatch idle _ _ w = abort bad_source
  dispatch active sofi sofi_stopped w =
      done (record { state = retrying; world = backoff_start (sofi_term w) })
  dispatch active sofi _ w = abort bad_action
  dispatch active _ _ w = abort bad_source
  dispatch retrying reconnect_timer backoff_timeout w =
      done (record { state = stopping_backoff; world = backoff_stop w })
  dispatch retrying reconnect_timer _ w = abort bad_action
  dispatch retrying _ _ w = abort bad_source
  dispatch stopping_backoff reconnect_timer backoff_stopped w = started (start_connecting w)
  dispatch stopping_backoff reconnect_timer _ w = abort bad_action
  dispatch stopping_backoff _ _ w = abort bad_source
  dispatch stopping _ _ w = abort bad_state

  unfoldable pub handler : Cofi S → Source → Kind → Outcome S
  unfolding dispatch
  handler c src kind = dispatch c.state src kind c.world
