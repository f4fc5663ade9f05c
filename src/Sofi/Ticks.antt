-- ===== src/Sofi/Ticks.antt =====
-- The keep-alive ticks: their bounds, and the end of a connection that is silent.
use nanomsg_transport_ofi.Prelude.{
  ℕ, zero, suc, ◌+◌, ◌≤◌, ◌<◌, ltb, true, false, Option, some, List, [], ◌∷◌, ℤ, is_zero, etimedout,
  if◌then◌else◌, ◌≡◌, refl, ap, subst, sym, ◌∙◌, Bool-cases, inl, inr, arith,
}
use nanomsg_transport_ofi.Sofi.{
  State, active, Event, keepalive_timeout, keepalive_stopped, Parts, Sofi, Outcome, running,
  critical, stopped, failed,
}
use nanomsg_transport_ofi.Sofi.Running.{tick, keepalive_sent, handler}

-- `n` ticks of the timer, each with its restart.
abbrev pub silent : ℕ → List Event
silent zero = []
silent (suc n) = keepalive_timeout ∷ keepalive_stopped ∷ silent n

not_later : (n m : ℕ) → n ≤ m → ltb m n ≡ false
not_later n m h = ground (arith, h)

later : (n m : ℕ) → m < n → ltb m n ≡ true
later n m h = ground (arith, h)

bound : (n m : ℕ) → ltb m n ≡ false → n ≤ m
bound n m h = ground (arith, h)

module _ {M H S : Type 0} where
  -- The counters between two ticks.
  pub record IsCalm (s : Sofi M H S) : Type 0 where
    pub ticks_in : s.ingress.ticks_in ≤ 4
    pub ticks_out : s.egress.ticks_out ≤ 2

  abbrev pub Calm : Outcome M H S → Type 0
  Calm (running s) = IsCalm s
  Calm (critical s) = IsCalm s
  Calm (stopped s) = IsCalm s

module _ {M H S : Type 0} (parts : Parts M H S) where
  -- `nn_sofi_handler` on one event after the other.
  unfoldable pub run : Option (Outcome M H S) → List Event → Option (Outcome M H S)
  unfolding handler
  run o [] = o
  run (some (running s)) (e ∷ es) = run (handler parts s s.state e) es
  run o (e ∷ es) = o

  sent-Calm : (s : Sofi M H S) (r : ℤ × S) → IsCalm s → Calm (keepalive_sent parts s r)
  sent-Calm s (ret, w) k = elim (Bool-cases (is_zero ret)) [
    | inl h ↦
        subst
          (λ z. Calm (
            if z
            then running (record s { world = parts.keepalive_stop w })
            else failed (record s { world = w }) ret))
          (sym h) (record { ticks_in = k.ticks_in; ticks_out = k.ticks_out })
    | inr h ↦
        subst
          (λ z. Calm (
            if z
            then running (record s { world = parts.keepalive_stop w })
            else failed (record s { world = w }) ret))
          (sym h) (record { ticks_in = k.ticks_in; ticks_out = k.ticks_out })
  ]

  -- From counters of at most 4 and 2 a tick leaves counters of at most 4 and 2.
  pub tick-Calm : (s : Sofi M H S) → IsCalm s → Calm (tick parts s)
  unfolding tick
  tick-Calm s k =
      let i = suc s.ingress.ticks_in in
      let o = suc s.egress.ticks_out in
      let late : Sofi M H S = record s {
        ingress = record s.ingress { ticks_in = 0 };
        world = parts.keepalive_stop s.world;
      } in
      let t : Sofi M H S = record s { ingress = record s.ingress { ticks_in = i } } in
      let quiet : Sofi M H S = record t { egress = record s.egress { ticks_out = 0 } } in
      let next : Sofi M H S = record t {
        egress = record s.egress { ticks_out = o };
        world = parts.keepalive_stop s.world;
      } in
      let sent = keepalive_sent parts quiet (parts.sendmsg_aux s.world) in
      let calm = if ltb 2 o then sent else running next in
      elim (Bool-cases (ltb 4 i)) [
        | inl h ↦
            subst (λ z. Calm (if z then failed late etimedout else calm)) (sym h)
              (record { ticks_in = omega arith; ticks_out = k.ticks_out })
        | inr h ↦
            let b : i ≤ 4 = bound i 4 h in
            subst (λ z. Calm (if z then failed late etimedout else calm)) (sym h)
              (elim (Bool-cases (ltb 2 o)) [
                | inl l ↦
                    subst (λ z. Calm (if z then sent else running next)) (sym l)
                      (sent-Calm quiet (parts.sendmsg_aux s.world)
                        (record { ticks_in = b; ticks_out = omega arith }))
                | inr l ↦
                    subst (λ z. Calm (if z then sent else running next)) (sym l)
                      (record { ticks_in = b; ticks_out = bound o 2 l })
              ])
      ]

  -- Libfabric takes every keep-alive packet.
  abbrev pub AuxSent : Type 0
  AuxSent = (w : S) → is_zero (parts.sendmsg_aux w).0 ≡ true

  tick-goes :
      (s : Sofi M H S)
      → AuxSent
      → s.ingress.ticks_in < 4
      → (t : Sofi M H S) × (tick parts s ≡ running t)
        × (t.ingress.ticks_in ≡ suc s.ingress.ticks_in)
        × (t.state ≡ s.state)
  unfolding tick
  tick-goes s a k =
      let i = suc s.ingress.ticks_in in
      let o = suc s.egress.ticks_out in
      let late : Sofi M H S = record s {
        ingress = record s.ingress { ticks_in = 0 };
        world = parts.keepalive_stop s.world;
      } in
      let t : Sofi M H S = record s { ingress = record s.ingress { ticks_in = i } } in
      let quiet : Sofi M H S = record t { egress = record s.egress { ticks_out = 0 } } in
      let next : Sofi M H S = record t {
        egress = record s.egress { ticks_out = o };
        world = parts.keepalive_stop s.world;
      } in
      let r = parts.sendmsg_aux s.world in
      let sent : Sofi M H S = record quiet { world = parts.keepalive_stop r.1 } in
      let q : tick parts s ≡ (if ltb 2 o then keepalive_sent parts quiet r else running next) =
        ap
          (λ z.
            if z
            then failed late etimedout
            else if ltb 2 o
            then keepalive_sent parts quiet r
            else running next)
          (not_later i 4 (omega (arith, k))) in
      elim (Bool-cases (ltb 2 o)) [
        | inl h ↦ (
          sent,
          q
              ∙ ap (λ z. if z then keepalive_sent parts quiet r else running next) h
              ∙ ap (λ z. if z then running sent else failed (record quiet { world = r.1 }) r.0)
                  (a s.world),
          refl,
          refl,
        )
        | inr h ↦ (
          next,
          q ∙ ap (λ z. if z then keepalive_sent parts quiet r else running next) h,
          refl,
          refl,
        )
      ]

  tick-expires :
      (s : Sofi M H S)
      → s.ingress.ticks_in ≡ 4
      → (t : Sofi M H S) × (tick parts s ≡ critical t) × (t.error ≡ etimedout)
  unfolding tick
  tick-expires s k =
      let i = suc s.ingress.ticks_in in
      let o = suc s.egress.ticks_out in
      let late : Sofi M H S = record s {
        ingress = record s.ingress { ticks_in = 0 };
        world = parts.keepalive_stop s.world;
      } in
      let t : Sofi M H S = record s { ingress = record s.ingress { ticks_in = i } } in
      let quiet : Sofi M H S = record t { egress = record s.egress { ticks_out = 0 } } in
      let next : Sofi M H S = record t {
        egress = record s.egress { ticks_out = o };
        world = parts.keepalive_stop s.world;
      } in
      (
        record late { error = etimedout },
        ap
            (λ z.
              if z
              then failed late etimedout
              else if ltb 2 o
              then keepalive_sent parts quiet (parts.sendmsg_aux s.world)
              else running next)
            (later i 4 (omega (arith, k))),
        refl,
      )

  handler-tick :
      (s : Sofi M H S) (p : State)
      → p ≡ active
      → handler parts s p keepalive_timeout ≡ some (tick parts s)
  unfolding handler
  handler-tick s p h = ap (λ z. handler parts s z keepalive_timeout) h

  handler-restart :
      (s : Sofi M H S) (p : State)
      → p ≡ active
      → handler parts s p keepalive_stopped
        ≡ some (running (record s { world = parts.keepalive_start s.world }))
  unfolding handler
  handler-restart s p h = ap (λ z. handler parts s z keepalive_stopped) h

  run-expires :
      (n : ℕ) (s : Sofi M H S)
      → AuxSent
      → s.state ≡ active
      → s.ingress.ticks_in + n ≡ 4
      → (t : Sofi M H S) × (run (some (running s)) (silent (suc n)) ≡ some (critical t))
        × (t.error ≡ etimedout)
  unfolding run
  run-expires zero s a p k =
      let r = tick-expires s (omega (arith, k)) in
      (r.0, ap (λ z. run z (keepalive_stopped ∷ [])) (handler-tick s s.state p ∙ ap some r.1), r.2)
  run-expires (suc n) s a p k =
      let r = tick-goes s a (omega (arith, k)) in
      let u : Sofi M H S = record r.0 { world = parts.keepalive_start (r.0).world } in
      let rest = run-expires n u a (r.3 ∙ p) (omega (arith, k, r.2)) in
      (
        rest.0,
        ap (λ z. run z (keepalive_stopped ∷ silent (suc n)))
              (handler-tick s s.state p ∙ ap some r.1)
            ∙ ap (λ z. run z (silent (suc n))) (handler-restart r.0 (r.0).state (r.3 ∙ p))
            ∙ rest.1,
        rest.2,
      )

  -- A shorter silence leaves it running.
  run-quiet :
      (n : ℕ) (s : Sofi M H S)
      → AuxSent
      → s.state ≡ active
      → s.ingress.ticks_in + n ≤ 4
      → (t : Sofi M H S) × (run (some (running s)) (silent n) ≡ some (running t))
        × (t.ingress.ticks_in ≡ s.ingress.ticks_in + n)
  unfolding run
  run-quiet zero s a p k = (s, refl, omega arith)
  run-quiet (suc n) s a p k =
      let r = tick-goes s a (omega (arith, k)) in
      let u : Sofi M H S = record r.0 { world = parts.keepalive_start (r.0).world } in
      let rest = run-quiet n u a (r.3 ∙ p) (omega (arith, k, r.2)) in
      (
        rest.0,
        ap (λ z. run z (keepalive_stopped ∷ silent n)) (handler-tick s s.state p ∙ ap some r.1)
            ∙ ap (λ z. run z (silent n)) (handler-restart r.0 (r.0).state (r.3 ∙ p))
            ∙ rest.1,
        omega (arith, rest.2, r.2),
      )

  -- An active endpoint with `4 - n` ticks counted is still running after each of the next `n` ticks, and fails
  -- with -ETIMEDOUT at the tick `n + 1`, if nothing arrives and libfabric takes every keep-alive packet.
  pub run-silent :
      (n : ℕ) (s : Sofi M H S)
      → AuxSent
      → s.state ≡ active
      → s.ingress.ticks_in + n ≡ 4
      → ((j : ℕ)
          → j ≤ n
          → (t : Sofi M H S) × (run (some (running s)) (silent j) ≡ some (running t))
            × (t.ingress.ticks_in ≡ s.ingress.ticks_in + j))
        × ((t : Sofi M H S) × (run (some (running s)) (silent (suc n)) ≡ some (critical t))
            × (t.error ≡ etimedout))
  run-silent n s a p k = (λ j h. run-quiet j s a p (omega (arith, k, h)), run-expires n s a p k)
