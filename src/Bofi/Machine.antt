-- ===== src/Bofi/Machine.antt =====
-- The state machine of the bound endpoint. What it calls, in libfabric, in nanomsg, in the worker
-- pool and in the streaming endpoint, is the interface `Parts`.
pub mod Handler
pub mod Accept
pub mod Drain
use nanomsg_transport_ofi.Prelude.{
  ℕ, Bool, true, false, Option, none, some, List, [], ◌∷◌, ◌++◌, ℤ, pos, zero, is_zero,
  if◌then◌else◌, contains, ◌==◌, map,
}
use nanomsg_transport_ofi.Bofi.Offsets.{Offsets, new_offset, free_offset}

-- `NN_BOFI_STATE_*` that the code enters
pub data State : Type 0 where
  idle active stopping : State

-- `NN_FSM_ACTION`, `NN_BOFI_SRC_SOFI`, `NN_BOFI_SRC_ENDPOINT | OFI_SRC_EQ`, others
pub data Source : Type 0 where
  fsm_action sofi endpoint_eq elsewhere : Source

-- `NN_FSM_START`, `NN_FSM_STOP`, `NN_SOFI_STOPPED`, `FI_CONNREQ`, others
pub data Kind : Type 0 where
  start stop sofi_stopped connreq other : Kind

-- The pointer `pep`: NULL, to an open passive endpoint, or to one that is freed.
pub data Pep : Type 0 where
  null opened freed : Pep

-- An accepted connection: the address of its `struct nn_sofi`, and the `offset` in it.
pub record Sofi : Type 0 where
  pub address : ℕ
  pub offset : ℕ

-- Ways in which the process ends: nanomsg's checks of the machine, the assertion on an offset,
-- `nn_list_erase` of an item that is in no list, and the use of a `pep` that is not open.
pub data Fault : Type 0 where
  bad_action bad_source bad_state bad_offset not_in_list bad_pep : Fault

pub record Parts (S : Type 0) : Type 0 where
  pub worker_stop : S → S
  pub worker_start : S → S
  pub fi_passive_ep : S → ℤ × S
  pub worker_open_eq : S → ℤ × S
  pub fi_pep_bind : S → ℤ × S
  pub cm_listen : S → ℤ × S
  pub cm_reject : S → S
  pub pep_release : S → S
  pub alloc : S → ℕ × S
  pub sofi_init : Sofi → S → ℤ × S
  pub sofi_start_accept : Sofi → S → ℤ × S
  pub sofi_stop : Sofi → S → S
  pub sofi_term : Sofi → S → S
  pub set_error : ℤ → S → S
  pub fsm_stopped : S → S
  pub epbase_stopped : S → S

-- `struct nn_bofi`
pub record Bofi (S : Type 0) : Type 0 where
  pub state : State
  pub pep : Pep
  pub offsets : Offsets
  pub sofis : List Sofi
  pub world : S

pub data Outcome (S : Type 0) : Type 0 where
  done : Bofi S → Outcome S
  fault : Fault → Outcome S

abbrev pub addresses : List Sofi → List ℕ
addresses = map (λ s. s.address)

-- `nn_list_erase`
unfoldable pub erase : ℕ → List Sofi → List Sofi
erase a [] = []
erase a (s ∷ ss) = let rest = erase a ss in if s.address == a then ss else s ∷ rest

module _ {S : Type 0} (parts : Parts S) where
  open parts use {
    worker_stop, worker_start, fi_passive_ep, worker_open_eq, fi_pep_bind, cm_listen, pep_release,
    sofi_stop, sofi_term, set_error, fsm_stopped, epbase_stopped,
  }

  -- `ofi_passive_endpoint_close`: `none` is the use of a pointer that is not open.
  abbrev pub close_pep : Pep → S → Option (Pep × S)
  close_pep opened w = some (freed, pep_release w)
  close_pep null w = none
  close_pep freed w = none

  abbrev pep_bound : Pep → ℤ × S → ℤ × Pep × S
  pep_bound pep (ret, w) = if is_zero ret then (ret, opened, w) else (ret, pep, w)

  abbrev eq_opened : Pep → ℤ × S → ℤ × Pep × S
  eq_opened pep (ret, w) = if is_zero ret then pep_bound pep (fi_pep_bind w) else (ret, null, w)

  abbrev ep_opened : Pep → ℤ × S → ℤ × Pep × S
  ep_opened pep (ret, w) = if is_zero ret then eq_opened pep (worker_open_eq w) else (ret, null, w)

  -- `ofi_passive_endpoint_open`: the return code, and the pointer, which a failure to bind leaves.
  unfoldable pub open_pep : Pep → S → ℤ × Pep × S
  open_pep pep w = ep_opened pep (fi_passive_ep w)

  abbrev listening : Bofi S → Pep → ℤ × S → ℤ × Bofi S
  listening b pep (ret, w) =
      if is_zero ret
      then (ret, record b { state = active; pep = pep; world = worker_start w })
      else (ret, record b { pep = pep; world = w })

  abbrev pep_opened : Bofi S → ℤ × Pep × S → ℤ × Bofi S
  pep_opened b (ret, pep, w) =
      if is_zero ret
      then listening b pep (cm_listen w)
      else (ret, record b { pep = pep; world = w })

  -- `nn_bofi_start_accepting`
  unfoldable pub start_accepting : Bofi S → ℤ × Bofi S
  unfolding open_pep
  start_accepting b = pep_opened b (open_pep b.pep (worker_stop b.world))

  -- The end of `nn_bofi_shutdown`
  abbrev pub finish_shutdown : Bofi S → Outcome S
  finish_shutdown b = elim b.sofis [
    | [] ↦ done (record b { world = epbase_stopped (fsm_stopped b.world) })
    | s ∷ ss ↦ done b
  ]

  unfoldable pub stop_all : List Sofi → S → S
  stop_all [] w = w
  stop_all (s ∷ ss) w = stop_all ss (sofi_stop s w)

  -- `nn_bofi_shutdown` on `NN_FSM_STOP`, which `nn_fsm_stop` calls at once.
  abbrev pub pep_closed : Bofi S → Option (Pep × S) → Outcome S
  pep_closed b none = fault bad_pep
  pep_closed b (some (pep, w)) =
      finish_shutdown (record b { state = stopping; pep = pep; world = stop_all b.sofis w })

  unfoldable pub begin_stop : Bofi S → Outcome S
  unfolding stop_all
  begin_stop b = pep_closed b (close_pep b.pep b.world)

  -- `nn_bofi_critical_error`
  unfoldable pub critical_error : ℤ → Bofi S → Outcome S
  unfolding begin_stop
  critical_error error b = begin_stop (record b { world = set_error error b.world })

  abbrev pub accepting : ℤ × Bofi S → Outcome S
  accepting (ret, b) = if is_zero ret then done b else critical_error ret b

  -- `nn_bofi_reap_sofi`
  abbrev pub reap_freed : Bofi S → Sofi → Option Offsets → Outcome S
  reap_freed b s none = fault bad_offset
  reap_freed b s (some o) =
      if contains s.address (addresses b.sofis)
      then done
          (record b { offsets = o; sofis = erase s.address b.sofis; world = sofi_term s b.world })
      else fault not_in_list

  unfoldable pub reap_sofi : Bofi S → Sofi → Outcome S
  unfolding free_offset erase
  reap_sofi b s = reap_freed b s (free_offset b.offsets s.offset)
