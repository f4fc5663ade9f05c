-- ===== src/Examples/Polling.antt =====
-- The worker pool and an endpoint at concrete inputs.
use nanomsg_transport_ofi.Prelude.{
  some, ℕ, ◌+◌, ◌≡◌, refl, true, false, none, List, [], ◌∷◌, ◌++◌, pos, ◌==◌, if◌then◌else◌,
}
use nanomsg_transport_ofi.Worker.{Item, cq, Worker, ask_stop, end_stop}
use nanomsg_transport_ofi.Endpoint.{Fabric, ActiveEndpoint, Setup, open_endpoint}
use nanomsg_transport_ofi.Worker.Poller.{
  Reading, nothing, event, pass_over, pass_over-append, go_on,
}
use nanomsg_transport_ofi.Worker.Stopping.{stop-signalled}
use nanomsg_transport_ofi.Worker.Lock.{
  ◌⟶◌, request, Pool, requested, blocked, ◌⟶*◌, here, step, enter, c_enter,
}
use nanomsg_transport_ofi.Worker.Orderly.{IsOrderly, is_blocked, clash}
use nanomsg_transport_ofi.Worker.Handshake.{IsStalled, ⟶*-excludes, release-stalls}

-- A queue has an event when the world is its number.
abbrev read : Item → ℕ → Reading × ℕ
read i w = (if i.fd == w then event 5 else nothing, w)

abbrev worker : ℕ → ℕ → Worker
worker a fd = record {
  address = a;
  owner = a + 100;
  active = 2;
  efd_sync = false;
  items = record { fd_type = cq; fd = fd; src = 1; data_size = 8 } ∷ [];
}

pass_over-append_example :
    pass_over read (worker 1 10 ∷ worker 2 11 ∷ []) 10
    ≡ go_on read
        (pass_over read (worker 1 10 ∷ []) 10)
        (pass_over read (worker 1 10 ∷ []) 10).feed
        (worker 2 11 ∷ [])
pass_over-append_example = pass_over-append read (worker 1 10 ∷ []) (worker 2 11 ∷ []) 10

silent_first : (pass_over read (worker 1 10 ∷ []) 7).feed ≡ none
unfolding pass_over
silent_first = refl

stop-signalled_example :
    (v : Worker) × (after : List Worker) × ((pass_over read
        (worker 1 10 ∷ ask_stop false (worker 2 11) ∷ [])
        7).workers
      ≡ (pass_over read (worker 1 10 ∷ []) 7).workers ++ v ∷ after)
    × (v.efd_sync ≡ true)
    × (end_stop v ≡ record (worker 2 11) { active = 0; efd_sync = false })
stop-signalled_example = stop-signalled read (worker 1 10 ∷ []) [] (worker 2 11) 7 refl silent_first

-- The client asked for the lock, and the poller has acknowledged.
abbrev asked : Pool
asked = record {
  lock_mutex = true;
  lock_state = true;
  lock_safe = false;
  efd_lock_req = false;
  efd_lock_ack = true;
  client = requested;
  poller = blocked;
}

abbrev asked-IsOrderly : IsOrderly asked
asked-IsOrderly = record {
  held = λ c. clash false c refl;
  asked = λ c. clash false c refl;
  acked = λ c. refl;
  set = λ c. refl;
  safe = refl;
}

abbrev locked : Pool
locked = enter asked

abbrev locked-IsOrderly : IsOrderly locked
locked-IsOrderly = record {
  held = λ c. (refl, refl, refl);
  asked = λ c. clash false c refl;
  acked = λ c. refl;
  set = λ c. refl;
  safe = refl;
}

⟶*-excludes_example : is_blocked locked.poller ≡ true
⟶*-excludes_example =
    ⟶*-excludes asked locked (step asked locked locked (c_enter asked refl refl) (here locked)) refl
      asked-IsOrderly refl

release-stalls_example :
    (t : Pool) × (locked ⟶* t) × IsStalled t × ((u : Pool) → t ⟶ u → u ≡ request t)
release-stalls_example = release-stalls locked locked-IsOrderly refl

-- The world is the number of the next queue.
abbrev fabric : Fabric ℕ
fabric = record {
  endpoint = λ w. (pos 0, w);
  eq_open = λ w. (pos 0, w, w + 1);
  cq_open = λ w. (pos 0, w, w + 1);
  bind = λ q w. (pos 0, w);
  enable = λ w. (pos 0, w);
}

abbrev setup : Setup
setup = record { entry_size = 4; tx_size = 8; rx_size = 8; src_eq = 11; src_tx = 12; src_rx = 13 }

abbrev opened : ActiveEndpoint
opened = record { eq = 20; cq_tx = 21; cq_rx = 22 }

opens : (open_endpoint fabric setup (worker 1 10) 20).endpoint ≡ some opened
unfolding open_endpoint
opens = refl
