-- ===== src/Sofi/Setup/Lifetime.antt =====
-- A streaming endpoint from `nn_sofi_init` to `nn_sofi_term` (src/transports/ofi/sofi.c).
use nanomsg_transport_ofi.Prelude.{
  ltb, ◌&&◌, ◌+◌, if◌then◌else◌, ℕ, ◌≡◌, some, refl, true, none-ne-some, ℤ, pos, zero, suc, negsuc,
  is_zero, count,
}
use nanomsg_transport_ofi.Sofi
use nanomsg_transport_ofi.Sofi.{Sofi}
use nanomsg_transport_ofi.Sofi.Sound.Reaching.{Calls}
use nanomsg_transport_ofi.Sofi.Setup.{
  Parts, Held, Settings, register, fill, init, term, rounds, queue_size, with_manager, completed,
  world_of,
}
use nanomsg_transport_ofi.Sofi.Setup.Releasing.{IsWilling, term-init}
use nanomsg_transport_ofi.Sofi.Setup.Ready.{Allows, init-keeps}
use nanomsg_transport_ofi.Keys.{key, aux}

module _ {M H S : Type 0} where
  -- The endpoint once the chunks of its buffers have `refs` references.
  abbrev pub with_refs : (ℕ → ℕ) → Sofi M H S → Sofi M H S
  with_refs refs s = record s { ingress = record s.ingress { refs = refs } }

  completed-zero :
      (tx rx : ℕ) (r : ℤ × Held S) (e : Sofi M H S)
      → (completed {M = M} {H = H} tx rx r).endpoint ≡ some e
      → is_zero (completed {M = M} {H = H} tx rx r).ret ≡ true
  completed-zero tx rx (pos zero, h) e q = refl
  completed-zero tx rx (pos (suc n), h) e q = absurd (none-ne-some e q)
  completed-zero tx rx (negsuc n, h) e q = absurd (none-ne-some e q)

module _ {M H S : Type 0} (parts : Parts S) where
  init-zero :
      (o : ℕ) (s : Settings) (h : Held S) (e : Sofi M H S)
      → (init parts o s h).endpoint ≡ some e
      → is_zero (init {M = M} {H = H} parts o s h).ret ≡ true
  unfolding init
  init-zero o s h e q =
      let tx = rounds (queue_size s.tx_queue s.tx_attr_size) in
      let rx = rounds (queue_size s.rx_queue s.rx_attr_size) in
      let a : Held S = register parts (key o aux) (record h { world = parts.core_init h.world }) in
      completed-zero tx rx (fill parts rx 0 o s.rx_msg_size (with_manager parts o tx s a)) e q

  -- After `nn_sofi_init` completes an endpoint without a write behind the array of contexts, any calls on it that
  -- do not abort, and `nn_sofi_term`, there are as many registrations of each key as there were before, those of
  -- the memory region manager aside. There are as many chunks of each buffer, but for a buffer of which the chunk
  -- has further references at the end, such as those for a message that was discarded in a list: its chunk is
  -- left. `refs` are the references then, of which the receivers of messages may have dropped some. The
  -- registration of memory and its end succeed, the domain allows between 1 and 2^31 - 1 buffers, and a
  -- completed reception names a busy buffer.
  pub init-calls-term :
      (calls : Sofi.Parts M H S) (o : ℕ) (s : Settings) (h : Held S) (e t : Sofi M H S) (w : S)
      (refs : ℕ → ℕ) (j : ℕ)
      → IsWilling parts
      → Allows s.rx_queue s.rx_attr_size
      → (init parts o s h).endpoint ≡ some e
      → Calls calls e t
      → let u =
          (term parts o
            (with_refs refs t)
            (world_of (init {M = M} {H = H} parts o s h).held w)).1 in
        (count j u.keys ≡ count j h.keys)
        × (count j u.chunks
            ≡ count j h.chunks
              + (if ltb j (rounds (queue_size s.rx_queue s.rx_attr_size)) && ltb 1 (refs j)
                  then 1
                  else 0))
  init-calls-term calls o s h e t w refs j g a q r =
      term-init parts o s h (with_refs refs t) w j g (init-zero o s h e q)
        (init-keeps parts calls o s h e t a q r).size
