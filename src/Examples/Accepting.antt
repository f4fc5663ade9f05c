-- ===== src/Examples/Accepting.antt =====
-- The bound endpoint at concrete inputs. The world counts calls.
use nanomsg_transport_ofi.Prelude.{ℕ, ◌+◌, ◌≡◌, refl, true, false, [], ◌∷◌, pos, arith, update}
use nanomsg_transport_ofi.Bofi.Offsets.{Offsets, new_offset}
use nanomsg_transport_ofi.Bofi.Offsets.Fresh.{Allocates, IsFull, grown, new_offset-Allocates}
use nanomsg_transport_ofi.Bofi.Machine.{
  idle, active, stopping, fsm_action, stop, endpoint_eq, connreq, opened, freed, null, Sofi, Parts,
  Bofi, done, reap_sofi,
}
use nanomsg_transport_ofi.Bofi.Machine.Handler.{connection_request, handler, shutdown}
use nanomsg_transport_ofi.Bofi.Machine.Accept.{Prepared, Accepted, reap-accept}
use nanomsg_transport_ofi.Bofi.Machine.Drain.{handler-Listens, drain, stop-drains}

abbrev fresh : Offsets
fresh = record { used = λ i. false; size = 64 }

abbrev full : Offsets
full = record { used = λ i. true; size = 64 }

new_offset-Allocates_example :
    Allocates full (grown full) 64
    × (IsFull full
        → new_offset (grown full)
          ≡ (64, record (grown full) { used = update (grown full).used 64 true }))
unfolding new_offset
new_offset-Allocates_example = new_offset-Allocates full (grown full) 64 refl

abbrev parts : Parts ℕ
parts = record {
  worker_stop = λ w. w + 1;
  worker_start = λ w. w + 1;
  fi_passive_ep = λ w. (pos 0, w + 1);
  worker_open_eq = λ w. (pos 0, w + 1);
  fi_pep_bind = λ w. (pos 0, w + 1);
  cm_listen = λ w. (pos 0, w + 1);
  cm_reject = λ w. w + 1;
  pep_release = λ w. w + 1;
  alloc = λ w. (w + 1000, w + 1);
  sofi_init = λ s w. (pos 0, w + 1);
  sofi_start_accept = λ s w. (pos 0, w + 1);
  sofi_stop = λ s w. w + 1;
  sofi_term = λ s w. w + 1;
  set_error = λ e w. w + 1;
  fsm_stopped = λ w. w + 1;
  epbase_stopped = λ w. w + 1;
}

abbrev begun : Bofi ℕ
begun = record { state = idle; pep = null; offsets = fresh; sofis = []; world = 0 }

abbrev listening : Bofi ℕ
listening = record begun { state = active; pep = opened }

abbrev first : Sofi
first = record { address = 1000; offset = 0 }

abbrev taken : Offsets
taken = record fresh { used = update fresh.used 0 true }

first_taken : new_offset fresh ≡ (0, taken)
unfolding new_offset
first_taken = refl

abbrev prepared : Prepared parts listening
prepared = record {
  sofi = first;
  offsets = taken;
  allocated = 1;
  is_alloc = refl;
  is_offset = first_taken;
  is_new = refl;
}

abbrev accepted : Accepted parts listening prepared
accepted = record { initialised = 2; started = 3; is_init = refl; is_start = refl }

-- The endpoint after the first connection.
abbrev joined : Bofi ℕ
joined = record { state = active; pep = opened; offsets = taken; sofis = first ∷ []; world = 10 }

handler-Listens_example : opened ≡ opened
unfolding handler
handler-Listens_example = handler-Listens parts listening joined endpoint_eq connreq first refl refl

reap-accept_example :
    reap_sofi parts joined first ≡ done (record joined { offsets = fresh; sofis = []; world = 11 })
unfolding connection_request
reap-accept_example =
    reap-accept parts listening joined prepared accepted 5 refl (omega arith) refl refl

-- A second connection, whose endpoint reports first.
abbrev second : Sofi
second = record { address = 90; offset = 1 }

abbrev both_joined : Bofi ℕ
both_joined = record joined {
  offsets = record { used = update taken.used 1 true; size = 64 };
  sofis = first ∷ second ∷ [];
}

stop-drains_example :
    drain parts (shutdown parts both_joined fsm_action stop second) (second ∷ first ∷ [])
    ≡ done (record {
      state = stopping;
      pep = freed;
      offsets = record both_joined.offsets {
        used = update (update both_joined.offsets.used 1 false) first.offset false;
      };
      sofis = [];
      world = 17;
    })
unfolding shutdown
stop-drains_example =
    stop-drains parts both_joined second (first ∷ []) refl
      (first ∷ [], [], refl, ([], [], refl, refl)) refl refl
