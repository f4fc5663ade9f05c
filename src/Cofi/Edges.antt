-- ===== src/Cofi/Edges.antt =====
-- The transition diagram of `nn_cofi_handler`, and the cycle by which it reconnects.
use nanomsg_transport_ofi.Prelude.{
  ◌≡◌, true, false, ℤ, List, [], ◌∷◌, is_zero, arith, if◌then◌else◌,
}
use nanomsg_transport_ofi.Cofi.{
  State, idle, active, retrying, stopping_backoff, stopping, Source, sofi, reconnect_timer, Kind,
  sofi_stopped, backoff_timeout, backoff_stopped, bad_source, Parts, Cofi, Outcome, done, abort,
  start_connecting, handler,
}

infix 40 ◌⟶◌
pub data ◌⟶◌ : State → State → Type 0 where
  connect : idle ⟶ active
  refuse : idle ⟶ stopping
  lose : active ⟶ retrying
  expire : retrying ⟶ stopping_backoff
  reconnect : stopping_backoff ⟶ active
  give_up : stopping_backoff ⟶ stopping

-- The events of a lost connection, in the order in which they come.
abbrev pub lost : List (Source × Kind)
lost =
    (sofi, sofi_stopped)
    ∷ (reconnect_timer, backoff_timeout)
    ∷ (reconnect_timer, backoff_stopped)
    ∷ []

module _ {S : Type 0} (parts : Parts S) where
  open parts use {sofi_term, sofi_isidle, backoff_start, backoff_stop, set_error}

  pub run : Outcome S → List (Source × Kind) → Outcome S
  run o [] = o
  run (abort a) (e ∷ es) = abort a
  run (done c) ((src, kind) ∷ es) = run (handler parts c src kind) es

  -- The world when the endpoint tries to reconnect.
  abbrev pub waited : S → S
  waited w = backoff_stop (backoff_start (sofi_term w))

  -- Every event that the handler accepts follows the diagram.
  pub handler-⟶ :
      (c d : Cofi S) (src : Source) (kind : Kind)
      → handler parts c src kind ≡ done d
      → c.state ⟶ d.state
  unfolding handler
  handler-⟶ c d src kind h = grind (arith, connect, refuse, lose, expire, reconnect, give_up)

  -- A connection that is lost leads to one new attempt, after the streaming endpoint is terminated
  -- and the back-off timer has run and stopped. If the attempt succeeds, the endpoint is active
  -- again. If it fails, and the streaming endpoint is idle then, the process is aborted.
  pub run-lost :
      (c : Cofi S) (ret : ℤ) (w : S)
      → c.state ≡ active
      → start_connecting parts (waited c.world) ≡ (ret, w)
      → (is_zero ret ≡ false → sofi_isidle (backoff_stop (set_error ret w)) ≡ true)
      → run (done c) lost
        ≡ (if is_zero ret then done (record { state = active; world = w }) else abort bad_source)
  unfolding run handler
  run-lost c ret w e s h = ground arith
