-- ===== src/Sofi/Ending.antt =====
-- How the shutdown ends: with nothing under way, and on a clean connection in a fixed order.
use nanomsg_transport_ofi.Prelude.{
  ℕ, Bool, true, false, ◌&&◌, not, Option, none, some, List, [], ◌∷◌, is_zero, if◌then◌else◌, ◌≡◌,
  refl, ap, subst, sym, ◌∙◌, Bool-cases, inl, inr, arith,
}
use nanomsg_transport_ofi.Egress
use nanomsg_transport_ofi.Egress.Sending
use nanomsg_transport_ofi.Ingress
use nanomsg_transport_ofi.Ingress.Receiving
use nanomsg_transport_ofi.Ingress.Flushing
use nanomsg_transport_ofi.Sofi.{
  closing, Socket, never, trying, connected, shutting, draining, gone, Event, stop,
  keepalive_stopped, shutdown_timeout, shutdown_stopped, Parts, Sofi, Outcome, running, stopped,
  with_egress, with_ingress, egress_of, ingress_of,
}
use nanomsg_transport_ofi.Sofi.Closing.{
  Step, check, wait, begin_stop, event, all_idle, close, finish, finished, conclude, shutdown,
}
use nanomsg_transport_ofi.Sofi.Hanging.{run, is_stopped}

and_left : (a b : Bool) → (a && b) ≡ true → a ≡ true
and_left true b h = refl
and_left false b h = h

and_right : (a b : Bool) → (a && b) ≡ true → b ≡ true
and_right true b h = h
and_right false b h = ground (arith, h)

idle_false : (a b c : Bool) → b ≡ false → (a && b && c) ≡ false
idle_false true b c h = ap (λ z. z && c) h
idle_false false b c h = refl

idle_true : (a b c d : Bool) → a ≡ true → b ≡ true → (c && d) ≡ true → (a && b && c && d) ≡ true
idle_true a b c d h k l = ap (λ z. z && b && c && d) h ∙ ap (λ z. z && c && d) k ∙ l

module _ {M H S : Type 0} (parts : Parts M H S) where
  -- The machine before the last calls: nothing is under way, and the socket is gone.
  pub record IsClosed (s : Sofi M H S) : Type 0 where
    pub egress_empty : Egress.is_empty s.egress ≡ true
    pub ingress_empty : Ingress.is_empty s.ingress ≡ true
    pub keepalive_idle : parts.keepalive_isidle s.world ≡ true
    pub shutdown_idle : parts.shutdown_isidle s.world ≡ true
    pub socket : s.socket_state ≡ gone

  idle-parts :
      (s : Sofi M H S) (p : Socket)
      → p ≡ gone
      → all_idle parts s ≡ true
      → IsClosed (record s { socket_state = p })
  idle-parts s p q h =
      let a = Egress.is_empty s.egress in
      let b = Ingress.is_empty s.ingress in
      let c = parts.keepalive_isidle s.world in
      let d = parts.shutdown_isidle s.world in
      let abc = and_left (a && b && c) d h in
      let ab = and_left (a && b) c abc in
      record {
        egress_empty = and_left a b ab;
        ingress_empty = and_right a b ab;
        keepalive_idle = and_right (a && b) c abc;
        shutdown_idle = and_right (a && b && c) d h;
        socket = q;
      }

  -- A machine that was stopped was closed before.
  abbrev Closes : Option (Outcome M H S) → Type 0
  Closes (some (stopped t)) = (s : Sofi M H S) × (stopped t ≡ finished parts s) × IsClosed s
  Closes _ = true ≡ true

  close-Closes :
      (s : Sofi M H S) (p : Socket)
      → s.socket_state ≡ p
      → all_idle parts s ≡ true
      → Closes (close parts s p)
  close-Closes s never q h = refl
  close-Closes s trying q h = (record s { socket_state = gone }, refl, idle-parts s gone refl h)
  close-Closes s connected q h = refl
  close-Closes s shutting q h = refl
  close-Closes s draining q h = refl
  close-Closes s gone q h = (s, refl, idle-parts s s.socket_state q h)

  finish-Closes : (s : Sofi M H S) → Closes (finish parts s)
  unfolding finish
  finish-Closes s =
      let c = close parts s s.socket_state in
      elim (Bool-cases (all_idle parts s)) [
        | inl h ↦
            subst (λ z. Closes (if z then c else some (running s))) (sym h)
              (close-Closes s s.socket_state refl h)
        | inr h ↦ subst (λ z. Closes (if z then c else some (running s))) (sym h) refl
      ]

  conclude-Closes : (o : Option (Step M H S)) → Closes (conclude parts o)
  conclude-Closes none = refl
  conclude-Closes (some (wait s)) = refl
  conclude-Closes (some (check s)) = finish-Closes s

  -- The machine is only reported as stopped when both queues are empty, both timers are idle and the
  -- socket is closed, and then the worker, the endpoint and the pipe are released in this order.
  pub shutdown-IsClosed :
      (s t : Sofi M H S) (e : Event)
      → shutdown parts s e ≡ some (stopped t)
      → (u : Sofi M H S) × (stopped t ≡ finished parts u) × IsClosed u
  unfolding shutdown
  shutdown-IsClosed s t e h = subst Closes h (conclude-Closes (event parts s e))

  finish-waits : (s : Sofi M H S) → all_idle parts s ≡ false → finish parts s ≡ some (running s)
  unfolding finish
  finish-waits s h = ap (λ z. if z then close parts s s.socket_state else some (running s)) h

  finish-closes :
      (s : Sofi M H S) → all_idle parts s ≡ true → finish parts s ≡ close parts s s.socket_state
  unfolding finish
  finish-closes s h = ap (λ z. if z then close parts s s.socket_state else some (running s)) h

  -- A connected endpoint without an error, with no message under way, with all its buffers in the lists and
  -- nanomsg not busy, closes by the events of its timers alone, if the keep-alive timer still runs when it is
  -- stopped, and both timers are idle when the keep-alive timer has stopped and when the shutdown timer
  -- has stopped for the second time.
  pub clean-closes :
      (s : Sofi M H S) (fs bs ps : List ℕ) (w1 w2 w3 w4 w5 : S)
      → s.socket_state ≡ connected
      → is_zero s.error ≡ true
      → Egress.is_empty s.egress ≡ true
      → Flushing.Whole s.ingress fs bs ps
      → s.ingress.nn_busy ≡ false
      → parts.keepalive_isidle (begin_stop parts s).world ≡ false
      → parts.keepalive_isidle w1 && parts.shutdown_isidle w1 ≡ true
      → parts.keepalive_isidle w5 && parts.shutdown_isidle w5 ≡ true
      → is_stopped (
          run parts (shutdown parts s stop) (
            (w1, keepalive_stopped)
            ∷ (w2, shutdown_timeout)
            ∷ (w3, shutdown_stopped)
            ∷ (w4, shutdown_timeout)
            ∷ (w5, shutdown_stopped)
            ∷ []))
        ≡ true
  unfolding run shutdown event begin_stop
  clean-closes s fs bs ps w1 w2 w3 w4 w5 c e g h n k i1 i5 =
      let t : Sofi M H S = record s { state = closing; world = parts.keepalive_stop s.world } in
      let u : Sofi M H S = with_ingress t (Receiving.flush (ingress_of t)) in
      let q : begin_stop parts s ≡ u =
        ap (λ z. if not z then with_egress u (Sending.flush parts.egress (egress_of u)) else u) e in
      let m =
        Flushing.flush-drains (ingress_of t) fs bs ps
          (Flushing.Whole-frame s.ingress (ingress_of t) fs bs ps refl refl h) n in
      let b : Sofi M H S = record u { world = w1 } in
      let d : Sofi M H S = record u { socket_state = gone; world = w5 } in
      let later =
        (w2, shutdown_timeout)
        ∷ (w3, shutdown_stopped)
        ∷ (w4, shutdown_timeout)
        ∷ (w5, shutdown_stopped)
        ∷ [] in
      let a0 =
        idle_false (Egress.is_empty u.egress && Ingress.is_empty u.ingress)
          (parts.keepalive_isidle u.world) (parts.shutdown_isidle u.world)
          (ap (λ z. parts.keepalive_isidle z.world) (sym q) ∙ k) in
      let a1 =
        idle_true (Egress.is_empty b.egress) (Ingress.is_empty b.ingress)
          (parts.keepalive_isidle w1) (parts.shutdown_isidle w1) g m.1 i1 in
      let a5 =
        idle_true (Egress.is_empty d.egress) (Ingress.is_empty d.ingress)
          (parts.keepalive_isidle w5) (parts.shutdown_isidle w5) g m.1 i5 in
      ap (λ z. is_stopped (run parts (finish parts z) ((w1, keepalive_stopped) ∷ later))) q
      ∙ ap (λ z. is_stopped (run parts z ((w1, keepalive_stopped) ∷ later))) (finish-waits u a0)
      ∙ ap (λ z. is_stopped (run parts z later)) (finish-closes b a1 ∙ ap (close parts b) c)
      ∙ ap is_stopped (finish-closes d a5)
