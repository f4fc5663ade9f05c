-- ===== src/Examples/Initialising.antt =====
-- A streaming endpoint that is made, runs, and is destroyed.
use nanomsg_transport_ofi.Prelude.{ℕ, ◌≡◌, ◌<◌, ◌≤◌, refl, some, [], ◌∷◌, pos, negsuc, arith, count}
use nanomsg_transport_ofi.Ingress.Sound.{IsSound}
use nanomsg_transport_ofi.Egress
use nanomsg_transport_ofi.Egress.Start as EgressStart
use nanomsg_transport_ofi.Ingress
use nanomsg_transport_ofi.Ingress.Start as IngressStart
use nanomsg_transport_ofi.Ingress.Receiving
use nanomsg_transport_ofi.Sofi.Running.{handler}
use nanomsg_transport_ofi.Sofi.Closing.{shutdown}
use nanomsg_transport_ofi.Sofi.Setup.{
  Parts, Settings, Held, init, term, queue_size, world_of, endpoint,
}
use nanomsg_transport_ofi.Sofi.Setup.Sizes.{places, queue_size-places}
use nanomsg_transport_ofi.Sofi.Setup.Releasing.{IsWilling}
use nanomsg_transport_ofi.Sofi.Setup.Lifetime.{init-calls-term, with_refs}
use nanomsg_transport_ofi.Sofi.Setup.Ready.{Allows, init-keeps}
use nanomsg_transport_ofi.Sofi.Sound.{left}
use nanomsg_transport_ofi.Examples.Reaching.{parts, at_start, ended, run}

abbrev setup : Parts ℕ
setup = record {
  core_init = λ w. w;
  core_term = λ w. w;
  mr_reg = λ k w. (pos 0, w);
  mr_close = λ k w. (pos 0, w);
  chunk_alloc = λ n page w. (pos 0, w);
  chunk_free = λ i w. w;
  getworker = λ w. w;
  worker_term = λ w. w;
  mr_init = λ b w. w;
  mr_term = λ w. w;
}

-- The option is AUTO for the one queue, and 16 for the other.
abbrev settings : Settings
settings = record {
  tx_queue = pos 16;
  rx_queue = pos 0;
  rx_msg_size = pos 4096;
  slab_size = pos 4096;
  tx_attr_size = 2;
  rx_attr_size = 2;
}

abbrev nothing : Held ℕ
nothing = record { keys = 7 ∷ []; chunks = []; world = 0 }

queue_size-places_example :
    (queue_size (negsuc 0) 128 ≡ pos (places (negsuc 0) 128))
    × (0 < places (negsuc 0) 128)
    × (places (negsuc 0) 128 ≤ 128)
queue_size-places_example =
    queue_size-places (negsuc 0) 128 (omega arith) (omega arith) (omega arith)

two_places : Allows (pos 0) 2
two_places = record { option = omega arith; some_place = omega arith; bounded = omega arith }

made : (init {M = ℕ} {H = ℕ} setup 1 settings nothing).endpoint ≡ some at_start
unfolding init endpoint EgressStart.start
made = refl

init-keeps_example : IsSound 2 (left ended).ingress
unfolding queue_size
init-keeps_example =
    init-keeps setup parts 1 settings nothing at_start (left ended) two_places made run

abbrev after : Held ℕ
unfolding init
after = world_of (init {M = ℕ} {H = ℕ} setup 1 settings nothing).held 5

setup-IsWilling : IsWilling setup
setup-IsWilling = record { mr_reg = λ k w. refl; mr_close = λ k w. refl }

-- The message that arrived was discarded; its buffer has two references to its chunk, and the chunk is left.
init-calls-term_example :
    let u = (term setup 1 (with_refs (left ended).ingress.refs (left ended)) after).1 in
    (count 0 u.keys ≡ 0) × (count 0 u.chunks ≡ 1)
unfolding init queue_size handler shutdown IngressStart.start Receiving.post Receiving.flush
    Receiving.handle nanomsg_transport_ofi.Links.Loop.link_from Egress.is_empty Ingress.is_empty
init-calls-term_example =
    init-calls-term setup parts 1 settings nothing at_start (left ended) 5 (left ended).ingress.refs
      0 setup-IsWilling two_places made run
