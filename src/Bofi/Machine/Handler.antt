-- ===== src/Bofi/Machine/Handler.antt =====
-- `nn_bofi_shutdown` and `nn_bofi_handler`.
use nanomsg_transport_ofi.Prelude.{ℕ, ℤ, Option, none, some, [], ◌∷◌, ◌++◌, is_zero, if◌then◌else◌}
use nanomsg_transport_ofi.Bofi.Offsets.{Offsets, new_offset}
use nanomsg_transport_ofi.Bofi.Machine.{
  State, idle, active, stopping, Source, fsm_action, sofi, endpoint_eq, Kind, start, stop,
  sofi_stopped, connreq, Pep, Sofi, bad_action, bad_source, bad_state, bad_pep, Parts, Bofi,
  Outcome, done, fault, close_pep, start_accepting, finish_shutdown, begin_stop, critical_error,
  accepting, reap_sofi,
}

module _ {S : Type 0} (parts : Parts S) where
  open parts use {cm_reject, alloc, sofi_init, sofi_start_accept, sofi_term}

  abbrev pub finish : Outcome S → Outcome S
  finish (done b) = finish_shutdown parts b
  finish (fault f) = fault f

  -- `nn_bofi_shutdown`; the argument `Sofi` is what `srcptr` points to.
  unfoldable pub shutdown : Bofi S → Source → Kind → Sofi → Outcome S
  unfolding begin_stop reap_sofi
  shutdown b fsm_action stop s = begin_stop parts b
  shutdown b sofi sofi_stopped s = finish (reap_sofi parts b s)
  shutdown b _ _ s = fault bad_state

  -- `nn_sofi_init` failed: the cleanup, then the error.
  abbrev pub init_failed : ℤ → Outcome S → Outcome S
  init_failed ret (done b) = critical_error parts ret b
  init_failed ret (fault f) = fault f

  -- `nn_sofi_start_accept` failed: the connection is rejected.
  abbrev pub rejected : Bofi S → Sofi → Option (Pep × S) → Outcome S
  rejected b s none = fault bad_pep
  rejected b s (some (pep, w)) =
      accepting parts (start_accepting parts (record b { pep = pep; world = sofi_term s w }))

  -- It succeeded: the endpoint joins the list.
  abbrev pub joined : Bofi S → Sofi → Option (Pep × S) → Outcome S
  joined b s none = fault bad_pep
  joined b s (some (pep, w)) =
      accepting parts
        (start_accepting parts (record b { pep = pep; sofis = b.sofis ++ s ∷ []; world = w }))

  abbrev pub accept_started : Bofi S → Sofi → ℤ × S → Outcome S
  accept_started b s (ret, w) =
      if is_zero ret
      then joined b s (close_pep parts b.pep w)
      else rejected b s (close_pep parts b.pep (cm_reject w))

  abbrev pub sofi_initialised : Bofi S → Sofi → ℤ × S → Outcome S
  sofi_initialised b s (ret, w) =
      if is_zero ret
      then accept_started b s (sofi_start_accept s w)
      else init_failed ret (reap_sofi parts (record b { world = w }) s)

  abbrev pub offset_taken : Bofi S → ℕ → ℕ × Offsets → S → Outcome S
  offset_taken b a (i, o) w =
      let s : Sofi = record { address = a; offset = i } in
      sofi_initialised (record b { offsets = o }) s (sofi_init s w)

  abbrev pub sofi_allocated : Bofi S → ℕ × S → Outcome S
  sofi_allocated b (a, w) = offset_taken b a (new_offset b.offsets) w

  -- The connection request in the active state.
  unfoldable pub connection_request : Bofi S → Outcome S
  unfolding new_offset start_accepting critical_error reap_sofi
  connection_request b = sofi_allocated b (alloc b.world)

  -- The `switch` of `nn_bofi_handler`.
  unfoldable pub dispatch : State → Source → Kind → Bofi S → Sofi → Outcome S
  unfolding start_accepting critical_error connection_request reap_sofi
  dispatch idle fsm_action start b s = accepting parts (start_accepting parts b)
  dispatch idle fsm_action _ b s = fault bad_action
  dispatch idle _ _ b s = fault bad_source
  dispatch active sofi sofi_stopped b s = reap_sofi parts b s
  dispatch active sofi _ b s = fault bad_action
  dispatch active endpoint_eq connreq b s = connection_request b
  dispatch active endpoint_eq _ b s = fault bad_action
  dispatch active _ _ b s = fault bad_source
  dispatch stopping _ _ b s = fault bad_state

  unfoldable pub handler : Bofi S → Source → Kind → Sofi → Outcome S
  unfolding dispatch
  handler b src kind s = dispatch b.state src kind b s
