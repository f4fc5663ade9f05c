-- ===== src/Sofi/Hanging.antt =====
-- After a critical error with a message under way, the shutdown does not end.
use nanomsg_transport_ofi.Prelude.{
  is_some, ℕ, zero, suc, Bool, true, false, ◌&&◌, ◌||◌, not, Option, none, some, List, [], ◌∷◌,
  is_zero, if◌then◌else◌, ◌≡◌, refl, ap, subst, sym, ◌∙◌,
}
use mathlib.Core.Bool.{true≢false}
use nanomsg_transport_ofi.Egress
use nanomsg_transport_ofi.Egress.Sending
use nanomsg_transport_ofi.Ingress
use nanomsg_transport_ofi.Ingress.Receiving
use nanomsg_transport_ofi.Sofi.{
  closing, Socket, never, trying, connected, shutting, draining, gone, Event, start, stop,
  eq_connected, eq_shutdown, eq_error, rx_completed, rx_error, tx_completed, tx_error,
  keepalive_timeout, keepalive_stopped, shutdown_timeout, shutdown_stopped, unknown, Parts, Sofi,
  Outcome, running, critical, stopped, with_egress, with_ingress, egress_of, ingress_of,
}
use nanomsg_transport_ofi.Sofi.Closing.{
  Step, check, wait, begin_stop, discard, event, expired, timer_ended, close, finish, conclude,
  shutdown,
}

abbrev pub is_stop : Event → Bool
is_stop stop = true
is_stop _ = false

abbrev pub has_stop : {S : Type 0} → List (S × Event) → Bool
has_stop [] = false
has_stop ((w, e) ∷ es) = is_stop e || has_stop es

module _ {M H S : Type 0} where
  abbrev pub is_stopped : Option (Outcome M H S) → Bool
  is_stopped (some (stopped s)) = true
  is_stopped _ = false

  -- An error was met, and not every slot of the queue is back.
  pub record IsStuck (s : Sofi M H S) : Type 0 where
    pub erred : is_zero s.error ≡ false
    pub under_way : Egress.is_empty s.egress ≡ false

  -- The outcome is a machine that is stuck, or an abort.
  abbrev Sticks : Option (Outcome M H S) → Type 0
  Sticks none = true ≡ true
  Sticks (some (running s)) = IsStuck s
  Sticks (some _) = true ≡ false

  abbrev StepSticks : Option (Step M H S) → Type 0
  StepSticks none = true ≡ true
  StepSticks (some (check s)) = IsStuck s
  StepSticks (some (wait s)) = IsStuck s

  same :
      (s t : Sofi M H S)
      → t.error ≡ s.error
      → Egress.is_empty t.egress ≡ Egress.is_empty s.egress
      → IsStuck s
      → IsStuck t
  same s t q r k = record { erred = ap is_zero q ∙ k.erred; under_way = r ∙ k.under_way }

module _ {M H S : Type 0} (parts : Parts M H S) where
  -- The events of a shutdown one after the other, each with the world that it finds.
  unfoldable pub run : Option (Outcome M H S) → List (S × Event) → Option (Outcome M H S)
  unfolding shutdown
  run o [] = o
  run (some (running s)) ((w, e) ∷ es) = run (shutdown parts (record s { world = w }) e) es
  run o (e ∷ es) = o

  finish-Sticks : (s : Sofi M H S) → IsStuck s → Sticks (finish parts s)
  unfolding finish
  finish-Sticks s k =
      let c = close parts s s.socket_state in
      subst Sticks
        (sym (
          ap
            (λ z.
              if z
                && Ingress.is_empty s.ingress
                && parts.keepalive_isidle s.world
                && parts.shutdown_isidle s.world
              then c
              else some (running s))
            k.under_way))
        k

  conclude-Sticks : (o : Option (Step M H S)) → StepSticks o → Sticks (conclude parts o)
  conclude-Sticks none k = refl
  conclude-Sticks (some (wait s)) k = k
  conclude-Sticks (some (check s)) k = finish-Sticks s k

  expired-IsStuck : (s : Sofi M H S) (p : Socket) → IsStuck s → IsStuck (expired parts s p)
  expired-IsStuck s never k = k
  expired-IsStuck s trying k = k
  expired-IsStuck s connected k = k
  expired-IsStuck s shutting k = record { erred = k.erred; under_way = k.under_way }
  expired-IsStuck s draining k = record { erred = k.erred; under_way = k.under_way }
  expired-IsStuck s gone k = k

  ended-Sticks : (s : Sofi M H S) (p : Socket) → IsStuck s → StepSticks (timer_ended parts s p)
  ended-Sticks s never k = refl
  ended-Sticks s trying k = refl
  ended-Sticks s connected k = refl
  ended-Sticks s shutting k = record { erred = k.erred; under_way = k.under_way }
  ended-Sticks s draining k = record { erred = k.erred; under_way = k.under_way }
  ended-Sticks s gone k = k

  discarded :
      (s : Sofi M H S) (o : Option (Step M H S))
      → IsStuck s
      → StepSticks (if is_zero s.error then o else some (check s))
  discarded s o k = subst (λ z. StepSticks (if z then o else some (check s))) (sym k.erred) k

  event-Sticks :
      (s : Sofi M H S) (e : Event) → is_stop e ≡ false → IsStuck s → StepSticks (event parts s e)
  unfolding event
  event-Sticks s start n k = refl
  event-Sticks s stop n k = absurd (true≢false n)
  event-Sticks s eq_connected n k = refl
  event-Sticks s eq_shutdown n k = record { erred = k.erred; under_way = k.under_way }
  event-Sticks s (eq_error x) n k = k
  event-Sticks s (rx_completed c) n k = k
  event-Sticks s (rx_error x) n k = k
  event-Sticks s (tx_completed c) n k = discarded s _ k
  event-Sticks s (tx_error c x) n k = discarded s _ k
  event-Sticks s keepalive_timeout n k = refl
  event-Sticks s keepalive_stopped n k = k
  event-Sticks s shutdown_timeout n k = expired-IsStuck s s.socket_state k
  event-Sticks s shutdown_stopped n k = ended-Sticks s s.socket_state k
  event-Sticks s unknown n k = refl

  shutdown-Sticks :
      (s : Sofi M H S) (e : Event) → is_stop e ≡ false → IsStuck s → Sticks (shutdown parts s e)
  unfolding shutdown
  shutdown-Sticks s e n k = conclude-Sticks (event parts s e) (event-Sticks s e n k)

  or_left : (a b : Bool) → (a || b) ≡ false → a ≡ false
  or_left true b h = absurd (true≢false h)
  or_left false b h = refl

  or_right : (a b : Bool) → (a || b) ≡ false → b ≡ false
  or_right true b h = absurd (true≢false h)
  or_right false b h = h

  -- No sequence of events ends the shutdown of a machine that is stuck.
  pub run-hangs :
      (o : Option (Outcome M H S)) (es : List (S × Event))
      → has_stop es ≡ false
      → Sticks o
      → is_stopped (run o es) ≡ false
  unfolding run
  run-hangs none [] n k = refl
  run-hangs none (e ∷ es) n k = refl
  run-hangs (some (critical s)) es n k = absurd (true≢false k)
  run-hangs (some (stopped s)) es n k = absurd (true≢false k)
  run-hangs (some (running s)) [] n k = refl
  run-hangs (some (running s)) ((w, e) ∷ es) n k =
      let t : Sofi M H S = record s { world = w } in
      run-hangs (shutdown parts t e) es (or_right (is_stop e) (has_stop es) n) (
        shutdown-Sticks t e (or_left (is_stop e) (has_stop es) n)
          (record { erred = k.erred; under_way = k.under_way }))

  flush-free :
      (n : ℕ) (e : Egress.Egress M H S)
      → is_some (e.contexts e.head).mr_handle ≡ false
      → Sending.flush_from parts.egress n (some e.head) e ≡ e
  unfolding Sending.flush_from
  flush-free zero e h = refl
  flush-free (suc n) e h = rw h refl

  begin_stop-IsStuck :
      (s : Sofi M H S)
      → IsStuck s
      → is_some (s.egress.contexts s.egress.head).mr_handle ≡ false
      → IsStuck (begin_stop parts s)
  unfolding begin_stop Sending.flush Egress.is_empty
  begin_stop-IsStuck s k h =
      let t : Sofi M H S = record s { state = closing; world = parts.keepalive_stop s.world } in
      let u : Sofi M H S = with_ingress t (Receiving.flush (ingress_of t)) in
      let v : Sofi M H S = with_egress u (Sending.flush parts.egress (egress_of u)) in
      let q : discard parts u ≡ v = ap (λ z. if not z then v else u) k.erred in
      let f : Sending.flush parts.egress (egress_of u) ≡ egress_of u =
        flush-free s.egress.max (egress_of u) h in
      let x : IsStuck (with_egress u (egress_of u)) = record {
        erred = k.erred;
        under_way = k.under_way;
      } in
      subst IsStuck (sym (q ∙ ap (with_egress u) f)) x

  -- When an error stops the machine while a message is under way, and a slot of the queue is free, no
  -- sequence of events ends the shutdown.
  pub critical-hangs :
      (s : Sofi M H S) (es : List (S × Event))
      → is_zero s.error ≡ false
      → Egress.is_empty s.egress ≡ false
      → is_some (s.egress.contexts s.egress.head).mr_handle ≡ false
      → has_stop es ≡ false
      → is_stopped (run (shutdown parts s stop) es) ≡ false
  unfolding shutdown event
  critical-hangs s es e u h n = run-hangs (finish parts (begin_stop parts s)) es n (
      finish-Sticks (begin_stop parts s)
        (begin_stop-IsStuck s (record { erred = e; under_way = u }) h))
