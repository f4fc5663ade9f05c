-- ===== src/Sofi/Closing.antt =====
-- `nn_sofi_shutdown`.
use nanomsg_transport_ofi.Prelude.{
  ℕ, Bool, true, false, ◌&&◌, ◌||◌, not, Option, none, some, is_zero, if◌then◌else◌,
}
use nanomsg_transport_ofi.Egress
use nanomsg_transport_ofi.Egress.Sending
use nanomsg_transport_ofi.Ingress
use nanomsg_transport_ofi.Ingress.Receiving
use nanomsg_transport_ofi.Sofi.{
  State, connecting, closing, Socket, trying, connected, shutting, draining, gone, Event, stop,
  eq_shutdown, eq_error, rx_completed, rx_error, tx_completed, tx_error, keepalive_stopped,
  shutdown_timeout, shutdown_stopped, Parts, Sofi, Outcome, running, stopped, with_egress,
  with_ingress, egress_of, ingress_of,
}
use nanomsg_transport_ofi.Sofi.Running.{transmitted}

-- How the first part of the handler ends: it goes on to the test, or it returns.
pub data Step (M H S : Type 0) : Type 0 where
  check : Sofi M H S → Step M H S
  wait : Sofi M H S → Step M H S

abbrev pub is_connecting : State → Bool
is_connecting connecting = true
is_connecting _ = false

-- `OFI_DRAIN_TIMEOUT` and `NN_SOFI_TIMEOUT_SHUTDOWN`
abbrev pub drain_timeout : ℕ
drain_timeout = 500

abbrev pub shutdown_timeout_ms : ℕ
shutdown_timeout_ms = 500

module _ {M H S : Type 0} where
  abbrev pub check_if : Option (Sofi M H S) → Option (Step M H S)
  check_if none = none
  check_if (some s) = some (check s)

module _ {M H S : Type 0} (parts : Parts M H S) where
  -- The end of `NN_FSM_STOP`: staged messages are discarded.
  abbrev pub discard : Sofi M H S → Sofi M H S
  discard s =
      if is_connecting s.state || not (is_zero s.error)
      then with_egress s (Sending.flush parts.egress (egress_of s))
      else s

  unfoldable pub begin_stop : Sofi M H S → Sofi M H S
  begin_stop s =
      let t : Sofi M H S = record s { state = closing; world = parts.keepalive_stop s.world } in
      discard (with_ingress t (Receiving.flush (ingress_of t)))

  -- The timer of the shutdown ran out, or has stopped.
  abbrev pub expired : Sofi M H S → Socket → Sofi M H S
  expired s shutting = record s { world = parts.shutdown_stop s.world }
  expired s draining = record s { world = parts.shutdown_stop s.world }
  expired s _ = s

  abbrev pub shut : Sofi M H S → Sofi M H S
  shut s = record s {
    socket_state = shutting;
    world = parts.shutdown_start shutdown_timeout_ms (parts.cm_shutdown s.world);
  }

  abbrev pub timer_ended : Sofi M H S → Socket → Option (Step M H S)
  timer_ended s draining = some (wait (shut s))
  timer_ended s shutting = some (check (record s { socket_state = gone }))
  timer_ended s gone = some (check s)
  timer_ended s _ = none

  -- The first part: `none` is an abort.
  unfoldable pub event : Sofi M H S → Event → Option (Step M H S)
  unfolding begin_stop
  event s stop = some (check (begin_stop s))
  event s (tx_completed c) =
      let t = check_if (transmitted parts s (Sending.handle parts.egress (egress_of s) c)) in
      if is_zero s.error then t else some (check s)
  event s (tx_error c e) =
      let t = check_if (transmitted parts s (Sending.handle_error parts.egress (egress_of s) c)) in
      if is_zero s.error then t else some (check s)
  event s (rx_completed c) = some (check s)
  event s (rx_error e) = some (check s)
  event s eq_shutdown =
      some (check (record s { socket_state = gone; world = parts.shutdown_stop s.world }))
  event s (eq_error e) = some (check s)
  event s keepalive_stopped = some (check s)
  event s shutdown_timeout = some (wait (expired s s.socket_state))
  event s shutdown_stopped = timer_ended s s.socket_state
  event s _ = none

  -- Nothing is under way any more.
  abbrev pub all_idle : Sofi M H S → Bool
  all_idle s =
      Egress.is_empty s.egress
      && Ingress.is_empty s.ingress
      && parts.keepalive_isidle s.world
      && parts.shutdown_isidle s.world

  abbrev pub finished : Sofi M H S → Outcome M H S
  finished s = stopped (record s {
    world =
        parts.fsm_stopped (parts.pipebase_stop (parts.endpoint_close (parts.worker_stop s.world)));
  })

  abbrev pub close : Sofi M H S → Socket → Option (Outcome M H S)
  close s connected = some (
      running
        (record s { socket_state = draining; world = parts.shutdown_start drain_timeout s.world }))
  close s trying = some (finished (record s { socket_state = gone }))
  close s gone = some (finished s)
  close s _ = none

  -- The second part.
  unfoldable pub finish : Sofi M H S → Option (Outcome M H S)
  finish s = let t = close s s.socket_state in if all_idle s then t else some (running s)

  abbrev pub conclude : Option (Step M H S) → Option (Outcome M H S)
  conclude none = none
  conclude (some (wait s)) = some (running s)
  conclude (some (check s)) = finish s

  -- `nn_sofi_shutdown`: `none` is an abort.
  unfoldable pub shutdown : Sofi M H S → Event → Option (Outcome M H S)
  unfolding event finish
  shutdown s ev = conclude (event s ev)
