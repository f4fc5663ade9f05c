-- ===== src/Sofi/Running.antt =====
-- `nn_sofi_handler`, and the two calls that nanomsg makes on the pipe.
use nanomsg_transport_ofi.Prelude.{
  suc, ◌==◌, ltb, Bool, true, false, Option, none, some, ℤ, pos, negsuc, is_zero, etimedout, eintr,
  if◌then◌else◌,
}
use nanomsg_transport_ofi.Egress
use nanomsg_transport_ofi.Egress.Sending
use nanomsg_transport_ofi.Ingress
use nanomsg_transport_ofi.Ingress.Receiving
use nanomsg_transport_ofi.Sofi.{
  State, idle, connecting, active, connected, gone, Event, start, eq_connected, eq_shutdown,
  eq_error, rx_completed, rx_error, tx_completed, tx_error, keepalive_timeout, keepalive_stopped,
  Parts, Sofi, Outcome, running, with_egress, with_ingress, egress_of, ingress_of, failed,
  running_if,
}

-- `ret == -EAGAIN`
abbrev pub is_eagain : ℤ → Bool
is_eagain (pos n) = false
is_eagain (negsuc n) = n == 10

module _ {M H S : Type 0} (parts : Parts M H S) where
  -- The staged message is sent once the endpoint is connected.
  abbrev pub sent_staged : Sofi M H S → Option (Sending.Posted M H S) → Option (Outcome M H S)
  sent_staged s none = none
  sent_staged s (some p) =
      let t = with_egress s p.egress in
      if is_zero p.ret then some (running t) else some (failed t p.ret)

  abbrev pub send_staged : Sofi M H S → Option (Outcome M H S)
  send_staged s =
      let sent = sent_staged s (Sending.send parts.egress (egress_of s)) in
      if s.egress.staged then sent else some (running s)

  -- What follows on the first posted buffer.
  abbrev pub posted_first : Sofi M H S → ℤ × Ingress.Ingress S → Option (Outcome M H S)
  posted_first s (ret, e) =
      let t = with_ingress s e in if is_zero ret then send_staged t else some (failed t ret)

  -- `FI_CONNECTED`, up to the first buffer.
  abbrev pub connect : Sofi M H S → Sofi M H S
  connect s = record s {
    state = active;
    socket_state = connected;
    egress = record s.egress { out_active = true };
    world = parts.keepalive_start (parts.pipebase_start s.world);
  }

  abbrev pub connect_to : Sofi M H S → Option (Outcome M H S)
  connect_to s = let t = connect s in posted_first t (Receiving.post parts.ingress (ingress_of t))

  -- After a completed reception another buffer is posted, or that is put off.
  abbrev pub reposted : Sofi M H S → ℤ × Ingress.Ingress S → Sofi M H S
  reposted s (ret, e) = with_ingress s (if is_eagain ret then record e { post_later = true } else e)

  abbrev pub receive : Sofi M H S → Receiving.Completion → Sofi M H S
  receive s c =
      let t = with_ingress s (Receiving.handle parts.ingress (ingress_of s) c) in
      reposted t (Receiving.post parts.ingress (ingress_of t))

  abbrev pub transmitted : Sofi M H S → Option (Egress.Egress M H S) → Option (Sofi M H S)
  transmitted s none = none
  transmitted s (some e) = some (with_egress s e)

  abbrev pub transmit_error : ℤ → Option (Sofi M H S) → Option (Outcome M H S)
  transmit_error e none = none
  transmit_error e (some s) = some (failed s e)

  abbrev pub keepalive_sent : Sofi M H S → ℤ × S → Outcome M H S
  keepalive_sent s (ret, w) =
      if is_zero ret
      then running (record s { world = parts.keepalive_stop w })
      else failed (record s { world = w }) ret

  -- `NN_TIMER_TIMEOUT` of the keep-alive timer
  unfoldable pub tick : Sofi M H S → Outcome M H S
  tick s =
      let i = suc s.ingress.ticks_in in
      let o = suc s.egress.ticks_out in
      let late : Sofi M H S = record s {
        ingress = record s.ingress { ticks_in = 0 };
        world = parts.keepalive_stop s.world;
      } in
      let t : Sofi M H S = record s { ingress = record s.ingress { ticks_in = i } } in
      let quiet : Sofi M H S = record t { egress = record s.egress { ticks_out = 0 } } in
      if ltb 4 i
      then failed late etimedout
      else if ltb 2 o
      then keepalive_sent quiet (parts.sendmsg_aux s.world)
      else running (record t {
        egress = record s.egress { ticks_out = o };
        world = parts.keepalive_stop s.world;
      })

  -- `nn_sofi_handler`: `none` is an abort.
  unfoldable pub handler : Sofi M H S → State → Event → Option (Outcome M H S)
  unfolding tick
  handler s idle start = some (running (record s { state = connecting }))
  handler s connecting eq_connected = connect_to s
  handler s connecting (eq_error e) = some (failed s e)
  handler s active eq_shutdown = some (failed (record s { socket_state = gone }) eintr)
  handler s active (eq_error e) = some (failed s e)
  handler s active (rx_completed c) = some (running (receive s c))
  handler s active (rx_error e) = some (failed s e)
  handler s active (tx_completed c) =
      running_if (transmitted s (Sending.handle parts.egress (egress_of s) c))
  handler s active (tx_error c e) =
      transmit_error e (transmitted s (Sending.handle_error parts.egress (egress_of s) c))
  handler s active keepalive_timeout = some (tick s)
  handler s active keepalive_stopped =
      some (running (record s { world = parts.keepalive_start s.world }))
  handler s _ _ = none

  abbrev pub staged : Sofi M H S → Option (Sending.Staged M H S) → Option (Outcome M H S)
  staged s none = none
  staged s (some (Sending.done e)) = some (running (with_egress s e))
  staged s (some (Sending.critical ret e)) = some (failed (with_egress s e) ret)

  -- `nn_sofi_send`
  unfoldable pub send : Sofi M H S → M → Option (Outcome M H S)
  send s m = staged s (Sending.stage parts.egress (record (egress_of s) { ticks_out = 0 }) m)

  abbrev pub received :
      Sofi M H S → Option (Receiving.Fetched S) → Option (ℤ × Option Ingress.Message × Sofi M H S)
  received s none = none
  received s (some r) = some (r.ret, r.msg, with_ingress s r.ingress)

  -- `nn_sofi_recv`
  unfoldable pub recv : Sofi M H S → Option (ℤ × Option Ingress.Message × Sofi M H S)
  recv s = received s (Receiving.fetch parts.ingress (ingress_of s))
