-- ===== src/Sofi/Sound.antt =====
-- `nn_sofi_handler`, `nn_sofi_send` and `nn_sofi_recv` keep all receive buffers in the lists.
pub mod Stopping
pub mod Reaching
use nanomsg_transport_ofi.Prelude.{
  ℕ, suc, ltb, ◌==◌, ◌||◌, not, ◌≡◌, true, false, Option, none, some, some-injective, none-ne-some,
  List, refl, ap, subst, sym, ◌∙◌, if-both, if◌then◌else◌, is_zero, pos, ℤ, etimedout, eintr,
}
use nanomsg_transport_ofi.Egress
use nanomsg_transport_ofi.Egress.Sending
use nanomsg_transport_ofi.Ingress
use nanomsg_transport_ofi.Ingress.Receiving
use nanomsg_transport_ofi.Ingress.Sound.{
  IsSound, IsSound-frame, NamesBusy, post-IsSound, flush-IsSound,
}
use nanomsg_transport_ofi.Ingress.Sound.Handing.{handle-IsSound, fetch-IsSound}
use nanomsg_transport_ofi.Ingress.Flushing.{Whole-frame}
use nanomsg_transport_ofi.Sofi.{
  State, idle, connecting, active, closing, closed, Socket, trying, connected, shutting, draining,
  gone, never, Event, start, stop, eq_connected, eq_shutdown, eq_error, rx_completed, rx_error,
  tx_completed, tx_error, keepalive_timeout, keepalive_stopped, shutdown_timeout, shutdown_stopped,
  unknown, Parts, Sofi, Outcome, running, critical, stopped, with_egress, with_ingress, egress_of,
  ingress_of, failed, running_if,
}
use nanomsg_transport_ofi.Sofi.Running.{
  connect_to, handler, send, recv, tick, receive, transmitted, transmit_error, connect,
  posted_first, send_staged, sent_staged, keepalive_sent, staged, received, is_eagain, reposted,
}
use nanomsg_transport_ofi.Sofi.Closing.{
  Step, check, wait, shutdown, event, finish, begin_stop, discard, close, conclude, check_if,
  timer_ended, expired, all_idle, finished, is_connecting,
}

module _ {M H S : Type 0} where
  -- What an outcome leaves.
  abbrev pub left : Outcome M H S → Sofi M H S
  left (running s) = s
  left (critical s) = s
  left (stopped s) = s

  -- All receive buffers are in the lists, unless the call aborts.
  abbrev pub Keeps : ℕ → Option (Outcome M H S) → Type 0
  Keeps n none = Unit
  Keeps n (some o) = IsSound n (left o).ingress

  -- An event of a completed reception names a busy buffer.
  abbrev pub Names : Sofi M H S → Event → Type 0
  Names s (rx_completed c) = NamesBusy s.ingress c
  Names s _ = Unit

  abbrev pub Sound : ℕ → Sofi M H S → Type 0
  Sound n s = IsSound n s.ingress

module _ {M H S : Type 0} {n : ℕ} (parts : Parts M H S) where
  sent_staged-Keeps :
      (s : Sofi M H S) (o : Option (Sending.Posted M H S))
      → Sound n s
      → Keeps n (sent_staged parts s o)
  sent_staged-Keeps s none h = tt
  sent_staged-Keeps s (some p) h =
      let t : Sofi M H S = with_egress s p.egress in
      if-both (λ z. Keeps n z) (is_zero p.ret) (some (running t)) (some (failed t p.ret)) h h

  send_staged-Keeps : (s : Sofi M H S) → Sound n s → Keeps n (send_staged parts s)
  send_staged-Keeps s h =
      if-both (λ z. Keeps n z) s.egress.staged _ (some (running s)) (sent_staged-Keeps s _ h) h

  posted_first-Keeps :
      (s : Sofi M H S) (r : ℤ × Ingress.Ingress S)
      → IsSound n r.1
      → Keeps n (posted_first parts s r)
  posted_first-Keeps s (ret, e) h =
      let t : Sofi M H S = with_ingress s e in
      if-both (λ z. Keeps n z) (is_zero ret) (send_staged parts t) (some (failed t ret))
        (send_staged-Keeps t h) h

  transmitted-Keeps :
      (s : Sofi M H S) (o : Option (Egress.Egress M H S))
      → Sound n s
      → Keeps n (running_if (transmitted parts s o))
  transmitted-Keeps s none h = tt
  transmitted-Keeps s (some e) h = h

  transmit_error-Keeps :
      (s : Sofi M H S) (i : ℤ) (o : Option (Egress.Egress M H S))
      → Sound n s
      → Keeps n (transmit_error parts i (transmitted parts s o))
  transmit_error-Keeps s i none h = tt
  transmit_error-Keeps s i (some e) h = h

  reposted-Sound :
      (s : Sofi M H S) (r : ℤ × Ingress.Ingress S) → IsSound n r.1 → Sound n (reposted parts s r)
  reposted-Sound s (ret, e) h =
      let f : Ingress.Ingress S = record e { post_later = true } in
      if-both (IsSound n) (is_eagain ret) f e (IsSound-frame e f refl refl h) h

  receive-Sound :
      (s : Sofi M H S) (c : Receiving.Completion)
      → Sound n s
      → NamesBusy s.ingress c
      → Sound n (receive parts s c)
  receive-Sound s c h (fs, xs, ys, ps, w) =
      let e : Ingress.Ingress S = ingress_of s in
      let t : Sofi M H S = with_ingress s (Receiving.handle parts.ingress e c) in
      let k =
        handle-IsSound parts.ingress e c
          (fs, xs, ys, ps, Whole-frame s.ingress e fs _ ps refl refl w)
          (IsSound-frame s.ingress e refl refl h) in
      reposted-Sound t (Receiving.post parts.ingress (ingress_of t)) (
        post-IsSound parts.ingress (ingress_of t)
          (IsSound-frame t.ingress (ingress_of t) refl refl k))

  connect_to-Keeps : (s : Sofi M H S) → Sound n s → Keeps n (connect_to parts s)
  connect_to-Keeps s h =
      let t : Sofi M H S = connect parts s in
      posted_first-Keeps t _ (
        post-IsSound parts.ingress (ingress_of t)
          (IsSound-frame s.ingress (ingress_of t) refl refl h))

  keepalive_sent-Sound :
      (s : Sofi M H S) (r : ℤ × S) → Sound n s → Sound n (left (keepalive_sent parts s r))
  keepalive_sent-Sound s (ret, w) h =
      if-both (λ z. Sound n (left z)) (is_zero ret)
        (running (record s { world = parts.keepalive_stop w }))
        (failed (record s { world = w }) ret) h h

  tick-Sound : (s : Sofi M H S) → Sound n s → Sound n (left (tick parts s))
  unfolding tick
  tick-Sound s h =
      let i = suc s.ingress.ticks_in in
      let o = suc s.egress.ticks_out in
      let late : Sofi M H S = record s {
        ingress = record s.ingress { ticks_in = 0 };
        world = parts.keepalive_stop s.world;
      } in
      let t : Sofi M H S = record s { ingress = record s.ingress { ticks_in = i } } in
      let quiet : Sofi M H S = record t { egress = record s.egress { ticks_out = 0 } } in
      let loud : Sofi M H S = record t {
        egress = record s.egress { ticks_out = o };
        world = parts.keepalive_stop s.world;
      } in
      let k = IsSound-frame s.ingress (record s.ingress { ticks_in = i }) refl refl h in
      let sent = keepalive_sent parts quiet (parts.sendmsg_aux s.world) in
      if-both (λ z. Sound n (left z)) (ltb 4 i) (failed late etimedout)
        (if ltb 2 o then sent else running loud) (IsSound-frame s.ingress late.ingress refl refl h)
        (if-both (λ z. Sound n (left z)) (ltb 2 o) sent (running loud)
          (keepalive_sent-Sound quiet (parts.sendmsg_aux s.world) k) k)

  pub handler-Keeps :
      (s : Sofi M H S) (st : State) (ev : Event)
      → Sound n s
      → Names s ev
      → Keeps n (handler parts s st ev)
  unfolding handler
  handler-Keeps s idle start h b = h
  handler-Keeps s connecting eq_connected h b = connect_to-Keeps s h
  handler-Keeps s connecting (eq_error e) h b = h
  handler-Keeps s active eq_shutdown h b = h
  handler-Keeps s active (eq_error e) h b = h
  handler-Keeps s active (rx_completed c) h b = receive-Sound s c h b
  handler-Keeps s active (rx_error e) h b = h
  handler-Keeps s active (tx_completed c) h b = transmitted-Keeps s _ h
  handler-Keeps s active (tx_error c e) h b = transmit_error-Keeps s e _ h
  handler-Keeps s active keepalive_timeout h b = tick-Sound s h
  handler-Keeps s active keepalive_stopped h b = h
  handler-Keeps s _ _ h b = tt

  staged-Keeps :
      (s : Sofi M H S) (o : Option (Sending.Staged M H S)) → Sound n s → Keeps n (staged parts s o)
  staged-Keeps s none h = tt
  staged-Keeps s (some (Sending.done e)) h = h
  staged-Keeps s (some (Sending.critical ret e)) h = h

  pub send-Keeps : (s : Sofi M H S) (m : M) → Sound n s → Keeps n (send parts s m)
  unfolding send
  send-Keeps s m h = staged-Keeps s _ h

  received-Sound :
      (s t : Sofi M H S) (ret : ℤ) (m : Option Ingress.Message) (o : Option (Receiving.Fetched S))
      → Receiving.fetch parts.ingress (ingress_of s) ≡ o
      → Sound n s
      → received parts s o ≡ some (ret, m, t)
      → Sound n t
  received-Sound s t ret m none e h q = absurd (none-ne-some _ q)
  received-Sound s t ret m (some r) e h q =
      let k =
        fetch-IsSound parts.ingress (ingress_of s) r
          (IsSound-frame s.ingress (ingress_of s) refl refl h) e in
      subst (λ z. Sound n z.2) (some-injective _ _ q) k

  pub recv-Sound :
      (s t : Sofi M H S) (ret : ℤ) (m : Option Ingress.Message)
      → Sound n s
      → recv parts s ≡ some (ret, m, t)
      → Sound n t
  unfolding recv
  recv-Sound s t ret m h q =
      received-Sound s t ret m (Receiving.fetch parts.ingress (ingress_of s)) refl h q
