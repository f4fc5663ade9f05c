-- ===== src/Cofi/Stopping.antt =====
-- How a connecting endpoint stops.
use nanomsg_transport_ofi.Prelude.{◌≡◌, true, false, List, [], ◌∷◌, arith}
use nanomsg_transport_ofi.Cofi.{
  stopping, Source, fsm_action, sofi, reconnect_timer, Kind, stop, sofi_stopped, backoff_stopped,
  bad_source, Parts, Cofi, Outcome, done, abort, shutdown,
}

module _ {S : Type 0} (parts : Parts S) where
  open parts use {
    sofi_stop, sofi_term, sofi_isidle, backoff_stop, backoff_isidle, fsm_stopped, epbase_stopped,
  }

  -- An event of the shutdown, after the world has moved.
  pub record Turn : Type 0 where
    pub move : S → S
    pub src : Source
    pub kind : Kind

  pub settle : Outcome S → List Turn → Outcome S
  settle o [] = o
  settle (abort a) (t ∷ ts) = abort a
  settle (done c) (t ∷ ts) =
      settle (shutdown parts (record c { world = t.move c.world }) t.src t.kind) ts

  -- In every state a stop is fatal if the streaming endpoint is idle.
  pub stop_idle_aborts :
      (c : Cofi S)
      → sofi_isidle (backoff_stop c.world) ≡ true
      → shutdown parts c fsm_action stop ≡ abort bad_source
  unfolding shutdown
  stop_idle_aborts c h = ground arith

  -- The world after the streaming endpoint was asked to stop.
  abbrev pub asked : Cofi S → S
  asked c = sofi_stop (backoff_stop c.world)

  abbrev pub stopped : S → Outcome S
  stopped w = done (record { state = stopping; world = epbase_stopped (fsm_stopped w) })

  -- If the streaming endpoint is not idle, the stop ends with `nn_epbase_stopped` once the endpoint
  -- and the back-off timer have both stopped, the timer first.
  pub stop_timer_first :
      (c : Cofi S) (f g : S → S) (w : S)
      → sofi_isidle (backoff_stop c.world) ≡ false
      → sofi_isidle (f (asked c)) ≡ false
      → sofi_term (g (f (asked c))) ≡ w
      → backoff_isidle w ≡ true
      → sofi_isidle w ≡ true
      → settle (shutdown parts c fsm_action stop) (
          record { move = f; src = reconnect_timer; kind = backoff_stopped }
          ∷ record { move = g; src = sofi; kind = sofi_stopped }
          ∷ [])
        ≡ stopped w
  unfolding settle shutdown
  stop_timer_first c f g w h i e b k = ground arith

  -- Or the endpoint first.
  pub stop_sofi_first :
      (c : Cofi S) (f g : S → S) (w : S)
      → sofi_isidle (backoff_stop c.world) ≡ false
      → backoff_isidle (sofi_term (f (asked c))) ≡ false
      → g (sofi_term (f (asked c))) ≡ w
      → backoff_isidle w ≡ true
      → sofi_isidle w ≡ true
      → settle (shutdown parts c fsm_action stop) (
          record { move = f; src = sofi; kind = sofi_stopped }
          ∷ record { move = g; src = reconnect_timer; kind = backoff_stopped }
          ∷ [])
        ≡ stopped w
  unfolding settle shutdown
  stop_sofi_first c f g w h i e b k = ground arith
