-- ===== src/Ingress/Receiving.antt =====
-- Posting buffers, handling what arrives, and handing messages to nanomsg.
use nanomsg_transport_ofi.Prelude.{
  ℕ, zero, suc, ◌+◌, ◌-◌, ◌==◌, ltb, Bool, true, false, ◌&&◌, Option, none, some, ℤ, pos, is_zero,
  is_neg, eagain, update, if◌then◌else◌,
}
use nanomsg_transport_ofi.Ingress.{
  Message, Ingress, mark_free, mark_busy, mark_populated, pop_free, pop_populated,
}

-- `ofi_recvmsg` of a buffer, and `nn_pipebase_received`.
pub record Parts (S : Type 0) : Type 0 where
  pub recvmsg : ℕ → S → ℤ × S
  pub received : S → S

-- A completion: the buffer, the length, and the bytes of its chunk.
pub record Completion : Type 0 where
  pub buf : ℕ
  pub len : ℕ
  pub bytes : ℕ → ℕ

abbrev pub keepalive_len : ℕ
keepalive_len = 24

-- The four bytes that the middle of `NN_SOFI_KEEPALIVE_PACKET` repeats.
abbrev pub mark_byte : ℕ → ℕ
mark_byte zero = 206
mark_byte (suc zero) = 154
mark_byte (suc (suc zero)) = 17
mark_byte (suc (suc (suc i))) = 126

-- `NN_SOFI_KEEPALIVE_PACKET`
abbrev pub keepalive_packet : ℕ → ℕ
keepalive_packet i =
    if ltb i 8
    then 255
    else if ltb i 12
    then mark_byte (i - 8)
    else if ltb i 16
    then mark_byte (i - 12)
    else 255

-- `memcmp` of the first `n` bytes with the packet
unfoldable pub is_packet : ℕ → (ℕ → ℕ) → Bool
is_packet zero bytes = true
is_packet (suc n) bytes = bytes n == keepalive_packet n && is_packet n bytes

unfoldable pub is_keepalive : Completion → Bool
unfolding is_packet
is_keepalive c = c.len == keepalive_len && is_packet keepalive_len c.bytes

module _ {S : Type 0} where
  -- The loops of `nn_sofi_ingress_flush`; the fuel is the number of buffers.
  unfoldable pub flush_busy : ℕ → Ingress S → Ingress S
  flush_busy zero e = e
  flush_busy (suc k) e = elim e.busy [ none ↦ e | some b ↦ flush_busy k (mark_free e b) ]

  unfoldable pub flush_populated : ℕ → Ingress S → Ingress S
  flush_populated zero e = e
  flush_populated (suc k) e = elim (pop_populated e) [
    | none ↦ e
    | some (b, f) ↦ flush_populated k (mark_free f b)
  ]

  abbrev pub flush_all : Ingress S → Ingress S
  flush_all e = record (flush_populated e.max e) { post_later = false; nn_later = false }

  abbrev pub flush_or_wait : Ingress S → Ingress S
  flush_or_wait e = if e.nn_busy then record e { flush_later = true } else flush_all e

  -- `nn_sofi_ingress_flush`
  unfoldable pub flush : Ingress S → Ingress S
  unfolding flush_busy flush_populated
  flush e = flush_or_wait (flush_busy e.max e)

  abbrev pub flush_late : Ingress S → Ingress S
  flush_late e = if e.flush_later then flush e else e

  -- `if (ret < 0) return ret;` and `return 0;`
  abbrev pub unless_negative : ℤ × Ingress S → ℤ × Ingress S
  unless_negative (ret, e) = (if is_neg ret then ret else pos 0, e)

-- What a call returns, with what it leaves.
pub record Fetched (S : Type 0) : Type 0 where
  pub ret : ℤ
  pub msg : Option Message
  pub ingress : Ingress S

module _ {S : Type 0} (parts : Parts S) where
  open parts use {recvmsg, received}

  abbrev pub buffer_posted : Ingress S → ℕ → ℤ × S → ℤ × Ingress S
  buffer_posted e b (ret, w) =
      let f : Ingress S = record e { world = w } in
      if is_zero ret then (pos 0, mark_busy f b) else (ret, mark_free f b)

  -- `nn_sofi_ingress_post_buffer`
  unfoldable pub post_buffer : Ingress S → ℕ → ℤ × Ingress S
  unfolding mark_busy mark_free
  post_buffer e b = buffer_posted e b (recvmsg b e.world)

  -- `nn_sofi_ingress_post`
  unfoldable pub post : Ingress S → ℤ × Ingress S
  unfolding post_buffer pop_free
  post e = elim (pop_free e) [
    | none ↦ (eagain, e)
    | some (b, f) ↦ unless_negative (post_buffer f b)
  ]

  -- The loop of `nn_sofi_ingress_post_all`; the fuel is the number of buffers, and `ret` is what the
  -- variable holds that is returned, at first nothing that the code sets.
  unfoldable pub post_all : ℕ → ℤ → Ingress S → ℤ × Ingress S
  unfolding post_buffer pop_free
  post_all zero ret e = (ret, e)
  post_all (suc k) ret e = elim (pop_free e) [
    | none ↦ (ret, e)
    | some (b, f) ↦
        let out : ℤ × Ingress S = post_buffer f b in
        let rest : ℤ × Ingress S = post_all k out.0 out.1 in if is_zero out.0 then rest else out
  ]

  -- Posts another buffer if that was put off.
  unfoldable pub post_late : Ingress S → Ingress S
  unfolding post
  post_late e = if e.post_later then (post (record e { post_later = false })).1 else e

  -- Tells nanomsg of the message, at once or later.
  abbrev pub notify : Ingress S → Ingress S
  notify e =
      if e.nn_busy
      then record e { nn_later = true }
      else record e { nn_busy = true; world = received e.world }

  -- `nn_sofi_ingress_handle`
  unfoldable pub handle : Ingress S → Completion → Ingress S
  unfolding is_keepalive mark_free mark_populated post_late
  handle e c =
      let f : Ingress S = record e { ticks_in = 0 } in
      let g : Ingress S = record f {
        msg = update f.msg c.buf (some (record { chunk = c.buf; len = c.len }));
        refs = update f.refs c.buf (f.refs c.buf + 1);
      } in
      if is_keepalive c then post_late (mark_free f c.buf) else notify (mark_populated g c.buf)

  -- Clears the flag that nanomsg is busy, and sets it again if it is told of another message.
  abbrev pub renotify : Ingress S → Ingress S
  renotify e =
      if e.nn_later
      then record e { nn_later = false; nn_busy = true; world = received e.world }
      else record e { nn_busy = false }

  abbrev pub popped : Ingress S → ℕ → Fetched S
  popped e b =
      let f : Ingress S = record e { msg = update e.msg b none } in
      record {
        ret = pos 0;
        msg = e.msg b;
        ingress = flush_late (renotify (post_late (mark_free f b)));
      }

  abbrev pub fetched : Ingress S → Option (ℕ × Ingress S) → Fetched S
  fetched e none = record { ret = eagain; msg = none; ingress = e }
  fetched e (some (b, f)) = popped f b

  -- `nn_sofi_ingress_fetch`: `none` is a failed assertion.
  unfoldable pub fetch : Ingress S → Option (Fetched S)
  unfolding pop_populated mark_free post_late flush
  fetch e = if e.nn_busy then some (fetched e (pop_populated e)) else none
