-- ===== src/Sofi/Starting.antt =====
-- `nn_sofi_start_accept` and `nn_sofi_start_connect`.
use nanomsg_transport_ofi.Prelude.{Option, none, some, ℤ, pos, is_zero, if◌then◌else◌}
use nanomsg_transport_ofi.Sofi.{trying, gone, start, Parts, Sofi, Outcome, running}
use nanomsg_transport_ofi.Sofi.Running.{handler}

module _ {M H S : Type 0} (parts : Parts M H S) where
  -- The machine is started, and the worker: the handler runs on `NN_FSM_START`.
  abbrev pub started : Option (Outcome M H S) → Option (ℤ × Sofi M H S)
  started (some (running s)) = some (pos 0, record s { world = parts.worker_start s.world })
  started _ = none

  abbrev pub requested : Sofi M H S → ℤ × S → Option (ℤ × Sofi M H S)
  requested s (ret, w) =
      let t : Sofi M H S = record s { socket_state = trying; world = w } in
      if is_zero ret
      then started (handler parts t t.state start)
      else some (ret, record t { socket_state = gone })

  -- The endpoint was opened, or not, and asks for the connection.
  abbrev pub opened : (S → ℤ × S) → Sofi M H S → ℤ × S → Option (ℤ × Sofi M H S)
  opened request s (ret, w) =
      let r = requested s (request w) in
      if is_zero ret then r else some (ret, record s { world = w })

  -- `nn_sofi_start_accept`
  unfoldable pub start_accept : Sofi M H S → Option (ℤ × Sofi M H S)
  unfolding handler
  start_accept s = opened parts.cm_accept s (parts.endpoint_open (parts.worker_stop s.world))

  -- `nn_sofi_start_connect`
  unfoldable pub start_connect : Sofi M H S → Option (ℤ × Sofi M H S)
  unfolding handler
  start_connect s = opened parts.cm_connect s (parts.endpoint_open (parts.worker_stop s.world))
