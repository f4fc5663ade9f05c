-- ===== src/Sofi/Sound/Stopping.antt =====
-- `nn_sofi_shutdown` keeps all receive buffers in the lists.
use nanomsg_transport_ofi.Prelude.{ℕ, ◌||◌, not, Option, none, some, refl, if-both, is_zero}
use nanomsg_transport_ofi.Egress
use nanomsg_transport_ofi.Egress.Sending
use nanomsg_transport_ofi.Ingress.Receiving
use nanomsg_transport_ofi.Ingress.Sound.{IsSound-frame, flush-IsSound}
use nanomsg_transport_ofi.Sofi.{
  closing, Socket, trying, connected, shutting, draining, gone, Event, stop, eq_shutdown, eq_error,
  rx_completed, rx_error, tx_completed, tx_error, keepalive_stopped, shutdown_timeout,
  shutdown_stopped, Parts, Sofi, running, with_egress, with_ingress, egress_of, ingress_of,
}
use nanomsg_transport_ofi.Sofi.Sound.{Sound, Keeps}
use nanomsg_transport_ofi.Sofi.Running.{transmitted}
use nanomsg_transport_ofi.Sofi.Closing.{
  Step, check, wait, shutdown, event, finish, begin_stop, close, conclude, check_if, timer_ended,
  expired, all_idle, is_connecting,
}

module _ {M H S : Type 0} where
  -- All receive buffers are in the lists after the first part of a shutdown.
  abbrev pub StepKeeps : ℕ → Option (Step M H S) → Type 0
  StepKeeps n none = Unit
  StepKeeps n (some (check s)) = Sound n s
  StepKeeps n (some (wait s)) = Sound n s

module _ {M H S : Type 0} {n : ℕ} (parts : Parts M H S) where
  check_if-Keeps :
      (s : Sofi M H S) (o : Option (Egress.Egress M H S))
      → Sound n s
      → StepKeeps n (check_if (transmitted parts s o))
  check_if-Keeps s none h = tt
  check_if-Keeps s (some e) h = h

  begin_stop-Sound : (s : Sofi M H S) → Sound n s → Sound n (begin_stop parts s)
  unfolding begin_stop
  begin_stop-Sound s h =
      let t : Sofi M H S = record s { state = closing; world = parts.keepalive_stop s.world } in
      let k = flush-IsSound (ingress_of t) (IsSound-frame s.ingress (ingress_of t) refl refl h) in
      let u : Sofi M H S = with_ingress t (Receiving.flush (ingress_of t)) in
      if-both (λ z. Sound n z) (is_connecting u.state || not (is_zero u.error))
        (with_egress u (Sending.flush parts.egress (egress_of u))) u k k

  timer_ended-Keeps :
      (s : Sofi M H S) (k : Socket) → Sound n s → StepKeeps n (timer_ended parts s k)
  timer_ended-Keeps s draining h = h
  timer_ended-Keeps s shutting h = h
  timer_ended-Keeps s gone h = h
  timer_ended-Keeps s _ h = tt

  expired-Sound : (s : Sofi M H S) (k : Socket) → Sound n s → Sound n (expired parts s k)
  expired-Sound s draining h = h
  expired-Sound s shutting h = h
  expired-Sound s _ h = h

  event-Keeps : (s : Sofi M H S) (ev : Event) → Sound n s → StepKeeps n (event parts s ev)
  unfolding event
  event-Keeps s stop h = begin_stop-Sound s h
  event-Keeps s (tx_completed c) h =
      if-both (λ z. StepKeeps n z) (is_zero s.error) _ (some (check s)) (check_if-Keeps s _ h) h
  event-Keeps s (tx_error c e) h =
      if-both (λ z. StepKeeps n z) (is_zero s.error) _ (some (check s)) (check_if-Keeps s _ h) h
  event-Keeps s (rx_completed c) h = h
  event-Keeps s (rx_error e) h = h
  event-Keeps s eq_shutdown h = h
  event-Keeps s (eq_error e) h = h
  event-Keeps s keepalive_stopped h = h
  event-Keeps s shutdown_timeout h = expired-Sound s s.socket_state h
  event-Keeps s shutdown_stopped h = timer_ended-Keeps s s.socket_state h
  event-Keeps s _ h = tt

  close-Keeps : (s : Sofi M H S) (k : Socket) → Sound n s → Keeps n (close parts s k)
  close-Keeps s connected h = h
  close-Keeps s trying h = h
  close-Keeps s gone h = h
  close-Keeps s _ h = tt

module _ {M H S : Type 0} (parts : Parts M H S) where
  conclude-Keeps : (n : ℕ) (o : Option (Step M H S)) → StepKeeps n o → Keeps n (conclude parts o)
  unfolding finish
  conclude-Keeps n none h = tt
  conclude-Keeps n (some (wait s)) h = h
  conclude-Keeps n (some (check s)) h =
      if-both (λ z. Keeps n z) (all_idle parts s) (close parts s s.socket_state) (some (running s))
        (close-Keeps parts s s.socket_state h) h

  pub shutdown-Keeps :
      {n : ℕ} (s : Sofi M H S) (ev : Event) → Sound n s → Keeps n (shutdown parts s ev)
  unfolding shutdown
  shutdown-Keeps {n} s ev h = conclude-Keeps n (event parts s ev) (event-Keeps parts s ev h)
