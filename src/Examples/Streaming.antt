-- ===== src/Examples/Streaming.antt =====
-- The machine of a streaming endpoint at concrete inputs.
use nanomsg_transport_ofi.Prelude.{
  ◌≤◌, ℕ, ◌+◌, ◌≡◌, refl, true, false, none, some, [], ◌∷◌, pos, etimedout, arith, ◌==◌,
  if◌then◌else◌,
}
use nanomsg_transport_ofi.Egress
use nanomsg_transport_ofi.Egress.{Ctx}
use nanomsg_transport_ofi.Ingress
use nanomsg_transport_ofi.Ingress.Receiving
use nanomsg_transport_ofi.Ingress.Lists.{Apart}
use nanomsg_transport_ofi.Ingress.Flushing.{Whole}
use nanomsg_transport_ofi.Sofi.{
  active, connected, gone, stop, eq_shutdown, keepalive_stopped, shutdown_timeout, shutdown_stopped,
  Parts, Sofi, running, critical,
}
use nanomsg_transport_ofi.Sofi.Closing.{begin_stop, finished, shutdown}
use nanomsg_transport_ofi.Sofi.Hanging
use nanomsg_transport_ofi.Sofi.Ending.{IsClosed, shutdown-IsClosed, clean-closes}
use nanomsg_transport_ofi.Sofi.Ticks.{Calm, silent, tick-Calm, run-silent}
use nanomsg_transport_ofi.Sofi.Ticks

-- The world is 0 while both timers are idle; any call makes it more.
abbrev later : ℕ → ℕ
later w = w + 1

abbrev parts : Parts ℕ ℕ ℕ
parts = record {
  egress = record {
    describe = λ m w. (pos 0, 7, w);
    release = λ h w. w;
    sendmsg = λ m h w. (pos 0, w);
    pipebase_sent = later;
  };
  ingress = record { recvmsg = λ b w. (pos 0, w); received = later };
  sendmsg_aux = λ w. (pos 0, w + 1);
  pipebase_start = later;
  pipebase_stop = later;
  keepalive_start = later;
  keepalive_stop = later;
  keepalive_isidle = λ w. w == 0;
  shutdown_start = λ t w. w + 1;
  shutdown_stop = later;
  shutdown_isidle = λ w. w == 0;
  endpoint_open = λ w. (pos 0, w + 1);
  endpoint_close = later;
  cm_accept = λ w. (pos 0, w + 1);
  cm_connect = λ w. (pos 0, w + 1);
  cm_shutdown = later;
  worker_start = later;
  worker_stop = later;
  fsm_stopped = later;
}

abbrev contexts : ℕ → Ctx ℕ ℕ
contexts i =
    if i == 1
    then record { msg = some 5; mr_handle = some 7; next = none; prev = some 0 }
    else record { msg = none; mr_handle = none; next = some 1; prev = none }

abbrev queue : Egress.Egress ℕ ℕ ℕ
queue = record {
  contexts = contexts;
  head = 0;
  tail = 1;
  counter = 2;
  max = 2;
  staged = false;
  out_active = true;
  closing = false;
  outmsg = none;
  ticks_out = 1;
  world = 0;
}

abbrev buffers : Ingress.Ingress ℕ
buffers = record {
  links = record { next = λ i. none; prev = λ i. none };
  free = none;
  busy = some 0;
  pop_head = none;
  pop_tail = none;
  max = 1;
  post_later = false;
  nn_busy = false;
  nn_later = false;
  flush_later = false;
  msg = λ i. none;
  refs = λ i. 1;
  ticks_in = 1;
  world = 0;
}

abbrev endpoint : Sofi ℕ ℕ ℕ
endpoint = record {
  state = active;
  socket_state = connected;
  error = pos 0;
  egress = queue;
  ingress = buffers;
  world = 0;
}

one-Apart : Apart [] (0 ∷ []) []
one-Apart j = ground arith

abbrev buffers-Whole : Whole buffers [] (0 ∷ []) []
buffers-Whole = record {
  holds = record {
    free = refl;
    busy = refl;
    pop_head = refl;
    pop_tail = refl;
    free_links = refl;
    busy_links = (refl, refl, refl);
    pop_links = refl;
    apart = one-Apart;
  };
  all = refl;
}

run-silent_example :
    ((j : ℕ)
      → j ≤ 3
      → (t : Sofi ℕ ℕ ℕ) × (Ticks.run parts (some (running endpoint)) (silent j) ≡ some (running t))
        × (t.ingress.ticks_in ≡ 1 + j))
    × ((t : Sofi ℕ ℕ ℕ) × (Ticks.run parts (some (running endpoint)) (silent 4) ≡ some (critical t))
        × (t.error ≡ etimedout))
run-silent_example = run-silent parts 3 endpoint (λ w. refl) refl (omega arith)

-- The endpoint after a critical error with one message under way.
abbrev failing : Sofi ℕ ℕ ℕ
failing = record endpoint { error = etimedout; egress = record queue { counter = 1 } }

critical-hangs_example :
    Hanging.is_stopped (
      Hanging.run parts
        (shutdown parts failing stop)
        ((0, keepalive_stopped) ∷ (0, eq_shutdown) ∷ []))
    ≡ false
unfolding Egress.is_empty
critical-hangs_example =
    Hanging.critical-hangs parts failing ((0, keepalive_stopped) ∷ (0, eq_shutdown) ∷ []) refl refl
      refl refl

clean-closes_example :
    Hanging.is_stopped (
      Hanging.run parts (shutdown parts endpoint stop) (
        (0, keepalive_stopped)
        ∷ (1, shutdown_timeout)
        ∷ (1, shutdown_stopped)
        ∷ (1, shutdown_timeout)
        ∷ (0, shutdown_stopped)
        ∷ []))
    ≡ true
unfolding begin_stop Egress.is_empty Receiving.flush Ingress.mark_free Ingress.pop_populated
clean-closes_example =
    clean-closes parts endpoint [] (0 ∷ []) [] 0 1 1 1 0 refl refl refl buffers-Whole refl refl refl
      refl

-- The endpoint when its socket is gone, and nothing is under way.
abbrev drained : Sofi ℕ ℕ ℕ
drained = record endpoint {
  socket_state = gone;
  ingress = record buffers { free = some 0; busy = none };
}

drained_stops : shutdown parts drained keepalive_stopped ≡ some (finished parts drained)
unfolding shutdown Egress.is_empty Ingress.is_empty
drained_stops = refl

shutdown-IsClosed_example :
    (u : Sofi ℕ ℕ ℕ) × (finished parts drained ≡ finished parts u) × IsClosed parts u
shutdown-IsClosed_example =
    shutdown-IsClosed parts drained (record drained { world = 4 }) keepalive_stopped drained_stops
