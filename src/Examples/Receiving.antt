-- ===== src/Examples/Receiving.antt =====
-- The receive buffers at concrete inputs: three buffers, of which 0 is free, 1 busy, and 2 populated.
use nanomsg_transport_ofi.Prelude.{
  ℕ, zero, suc, ◌+◌, ◌≡◌, refl, true, false, none, some, [], ◌∷◌, pos, arith, ◌==◌, if◌then◌else◌,
}
use nanomsg_transport_ofi.Links.{Links}
use nanomsg_transport_ofi.Ingress.{Ingress, is_empty}
use nanomsg_transport_ofi.Ingress.Receiving.{
  Parts, Completion, Fetched, is_keepalive, handle, fetch, flush,
}
use nanomsg_transport_ofi.Ingress.Lists.{Apart, Holds}
use nanomsg_transport_ofi.Ingress.Flushing.{Whole, flush-drains}
use nanomsg_transport_ofi.Ingress.Delivering.{waiting, handle-message, fetch-oldest, fetch-reposts}

-- The world counts the buffers that libfabric takes, and the messages that nanomsg is told of.
abbrev parts : Parts (ℕ × ℕ)
parts = record { recvmsg = λ b w. (pos 0, (w.0 + 1, w.1)); received = λ w. (w.0, w.1 + 1) }

abbrev links : Links
links = record { next = λ i. none; prev = λ i. none }

abbrev buffers : Ingress (ℕ × ℕ)
buffers = record {
  links = links;
  free = some 0;
  busy = some 1;
  pop_head = some 2;
  pop_tail = some 2;
  max = 3;
  post_later = false;
  nn_busy = true;
  nn_later = false;
  flush_later = false;
  msg = λ i. if i == 2 then some (record { chunk = 2; len = 40 }) else none;
  refs = λ i. 1;
  ticks_in = 3;
  world = (0, 0);
}

three-Apart : Apart (0 ∷ []) (1 ∷ []) (2 ∷ [])
three-Apart zero = omega arith
three-Apart (suc zero) = omega arith
three-Apart (suc (suc zero)) = omega arith
three-Apart (suc (suc (suc i))) = ground arith

abbrev buffers-Holds : Holds buffers (0 ∷ []) (1 ∷ []) (2 ∷ [])
buffers-Holds = record {
  free = refl;
  busy = refl;
  pop_head = refl;
  pop_tail = refl;
  free_links = (refl, refl, refl);
  busy_links = (refl, refl, refl);
  pop_links = (refl, refl, refl);
  apart = three-Apart;
}

-- The same with nanomsg idle.
abbrev heard : Ingress (ℕ × ℕ)
heard = record buffers { nn_busy = false }

abbrev heard-Holds : Holds heard (0 ∷ []) (1 ∷ []) (2 ∷ [])
heard-Holds = record {
  free = refl;
  busy = refl;
  pop_head = refl;
  pop_tail = refl;
  free_links = (refl, refl, refl);
  busy_links = (refl, refl, refl);
  pop_links = (refl, refl, refl);
  apart = three-Apart;
}

flush-drains_example :
    Whole (flush heard) (2 ∷ 1 ∷ 0 ∷ []) [] []
    × (is_empty (flush heard) ≡ true)
    × ((flush heard).post_later ≡ false)
    × ((flush heard).nn_later ≡ false)
flush-drains_example =
    flush-drains heard (0 ∷ []) (1 ∷ []) (2 ∷ []) (record { holds = heard-Holds; all = refl }) refl

abbrev arrival : Completion
arrival = record { buf = 1; len = 16; bytes = λ i. 0 }

handle-message_example :
    Holds (handle parts buffers arrival) (0 ∷ []) [] (2 ∷ 1 ∷ [])
    × (waiting (handle parts buffers arrival) (2 ∷ 1 ∷ [])
        ≡ some (record { chunk = 2; len = 40 }) ∷ some (record { chunk = 1; len = 16 }) ∷ [])
    × ((handle parts buffers arrival).nn_busy ≡ true)
    × ((handle parts buffers arrival).nn_later ≡ true)
    × ((handle parts buffers arrival).world ≡ (0, 0))
    × ((handle parts buffers arrival).ticks_in ≡ 0)
unfolding is_keepalive
handle-message_example =
    handle-message parts buffers arrival (0 ∷ []) [] [] (2 ∷ []) buffers-Holds refl

fetch-oldest_example :
    (r : Fetched (ℕ × ℕ)) × (fetch parts buffers ≡ some r)
    × (r.ret ≡ pos 0)
    × (r.msg ≡ some (record { chunk = 2; len = 40 }))
    × Holds r.ingress (2 ∷ 0 ∷ []) (1 ∷ []) []
    × (waiting r.ingress [] ≡ [])
    × (r.ingress.nn_busy ≡ false)
    × (r.ingress.nn_later ≡ false)
    × (r.ingress.world ≡ (0, 0))
fetch-oldest_example =
    fetch-oldest parts buffers 2 (0 ∷ []) (1 ∷ []) [] buffers-Holds refl refl refl

-- The same with a buffer to be posted later.
abbrev owing : Ingress (ℕ × ℕ)
owing = record buffers { post_later = true }

abbrev owing-Holds : Holds owing (0 ∷ []) (1 ∷ []) (2 ∷ [])
owing-Holds = record {
  free = refl;
  busy = refl;
  pop_head = refl;
  pop_tail = refl;
  free_links = (refl, refl, refl);
  busy_links = (refl, refl, refl);
  pop_links = (refl, refl, refl);
  apart = three-Apart;
}

fetch-reposts_example :
    (r : Fetched (ℕ × ℕ)) × (fetch parts owing ≡ some r)
    × (r.msg ≡ some (record { chunk = 2; len = 40 }))
    × Holds r.ingress (0 ∷ []) (2 ∷ 1 ∷ []) []
fetch-reposts_example =
    fetch-reposts parts owing 2 (0 ∷ []) (1 ∷ []) [] owing-Holds refl refl refl refl
