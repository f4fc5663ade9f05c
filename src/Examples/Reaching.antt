-- ===== src/Examples/Reaching.antt =====
-- A run of a streaming endpoint: it connects, receives a message, hands it over, and is stopped.
use nanomsg_transport_ofi.Prelude.{ℕ, refl, true, Option, none, some, [], ◌∷◌, pos, arith}
use nanomsg_transport_ofi.Egress
use nanomsg_transport_ofi.Egress.Start as EgressStart
use nanomsg_transport_ofi.Ingress
use nanomsg_transport_ofi.Ingress.Start as IngressStart
use nanomsg_transport_ofi.Ingress.Receiving
use nanomsg_transport_ofi.Ingress.Lists.{Apart}
use nanomsg_transport_ofi.Ingress.Sound.{NamesBusy}
use nanomsg_transport_ofi.Sofi.{
  idle, never, start, stop, eq_connected, rx_completed, Parts, Sofi, Outcome, running, Event,
}
use nanomsg_transport_ofi.Sofi.Running.{handler}
use nanomsg_transport_ofi.Sofi.Closing.{shutdown}
use nanomsg_transport_ofi.Sofi.Sound.{left}
use nanomsg_transport_ofi.Sofi.Sound.Reaching.{Calls, after, here, handled, shut}

abbrev pub parts : Parts ℕ ℕ ℕ
parts = record {
  egress = record {
    describe = λ m w. (pos 0, 7, w);
    release = λ h w. w;
    sendmsg = λ m h w. (pos 0, w);
    pipebase_sent = λ w. w;
  };
  ingress = record { recvmsg = λ b w. (pos 0, w); received = λ w. w };
  sendmsg_aux = λ w. (pos 0, w);
  pipebase_start = λ w. w;
  pipebase_stop = λ w. w;
  keepalive_start = λ w. w;
  keepalive_stop = λ w. w;
  keepalive_isidle = λ w. true;
  shutdown_start = λ t w. w;
  shutdown_stop = λ w. w;
  shutdown_isidle = λ w. true;
  endpoint_open = λ w. (pos 0, w);
  endpoint_close = λ w. w;
  cm_accept = λ w. (pos 0, w);
  cm_connect = λ w. (pos 0, w);
  cm_shutdown = λ w. w;
  worker_start = λ w. w;
  worker_stop = λ w. w;
  fsm_stopped = λ w. w;
}

abbrev pub at_start : Sofi ℕ ℕ ℕ
at_start = record {
  state = idle;
  socket_state = never;
  error = pos 0;
  egress = EgressStart.queue 2 2 0;
  ingress = IngressStart.start 2 0;
  world = 0;
}

-- What a call that does not abort comes to.
abbrev pub outcome : Option (Outcome ℕ ℕ ℕ) → Outcome ℕ ℕ ℕ
outcome none = running at_start
outcome (some o) = o

abbrev pub next : Sofi ℕ ℕ ℕ → Event → Outcome ℕ ℕ ℕ
unfolding handler
next s ev = outcome (handler parts s s.state ev)

abbrev pub started : Sofi ℕ ℕ ℕ
started = left (next at_start start)

abbrev pub joined : Sofi ℕ ℕ ℕ
joined = left (next started eq_connected)

abbrev pub message : Receiving.Completion
message = record { buf = 0; len = 3; bytes = λ i. 65 }

abbrev pub filled : Sofi ℕ ℕ ℕ
filled = left (next joined (rx_completed message))

abbrev pub ended : Outcome ℕ ℕ ℕ
unfolding shutdown
ended = outcome (shutdown parts filled stop)

joined_lists : Apart (1 ∷ []) (0 ∷ []) []
joined_lists j = ground arith

message_named : NamesBusy joined.ingress message
unfolding handler IngressStart.start Receiving.post nanomsg_transport_ofi.Links.Loop.link_from
message_named = (
  1 ∷ [],
  [],
  [],
  [],
  record {
    holds = record {
      free = refl;
      busy = refl;
      pop_head = refl;
      pop_tail = refl;
      free_links = (refl, refl, refl);
      busy_links = (refl, refl, refl);
      pop_links = refl;
      apart = joined_lists;
    };
    all = refl;
  },
)

pub run : Calls parts at_start (left ended)
unfolding handler shutdown IngressStart.start Receiving.post
    nanomsg_transport_ofi.Links.Loop.link_from Egress.is_empty Ingress.is_empty Receiving.flush
    Receiving.handle
run = after at_start started (left ended) (handled at_start start (next at_start start) tt refl) (
    after started joined (left ended)
      (handled started eq_connected (next started eq_connected) tt refl)
      (after joined filled (left ended)
        (handled joined (rx_completed message) (next joined (rx_completed message)) message_named
          refl)
        (after filled (left ended) (left ended) (shut filled stop ended refl) (here (left ended)))))
