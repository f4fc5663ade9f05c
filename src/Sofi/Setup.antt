-- ===== src/Sofi/Setup.antt =====
-- `nn_sofi_init` and `nn_sofi_term` (src/transports/ofi/sofi.c): the sizes of the queues, and what is
-- registered, allocated and released.
pub mod Sizes
pub mod Lifetime
pub mod Releasing
pub mod Ready
use nanomsg_transport_ofi.Prelude.{
  ℕ, zero, suc, ◌-◌, ◌*◌, ◌%◌, ◌==◌, ltb, Bool, true, false, Option, none, some, List, [], ◌∷◌, ℤ,
  pos, negsuc, is_zero, update, if◌then◌else◌,
}
use nanomsg_transport_ofi.Keys.{key, aux, buffer, send_key}
use nanomsg_transport_ofi.Egress
use nanomsg_transport_ofi.Egress.Start as EgressStart
use nanomsg_transport_ofi.Ingress
use nanomsg_transport_ofi.Ingress.Start as IngressStart
use nanomsg_transport_ofi.Sofi.{idle, never, Sofi}

-- An `int` compared with a `size_t`, of 64 bits.
abbrev pub as_size : ℤ → ℕ
as_size (pos n) = n
as_size (negsuc n) = 18446744073709551616 - suc n

-- A `size_t` assigned to an `int`, of 32 bits.
abbrev pub as_int : ℕ → ℤ
as_int n = let m = n % 4294967296 in if ltb m 2147483648 then pos m else negsuc (4294967295 - m)

-- The default for AUTO, and then the wrapping of a size that is too large.
unfoldable pub queue_size : ℤ → ℕ → ℤ
queue_size v size =
    let d = if is_zero v then as_int size else v in if ltb size (as_size d) then as_int size else d

-- The rounds of a loop `for (i=0; i<n; ++i)`
abbrev pub rounds : ℤ → ℕ
rounds (pos n) = n
rounds (negsuc n) = 0

-- `struct ofi_mr_bank_attr`, of which the domain and the direction are fixed
pub record Banks : Type 0 where
  pub bank_count : ℕ
  pub slab_count : ℕ
  pub slab_size : ℤ
  pub base_key : ℕ

-- The options of the endpoint, and the sizes that the domain allows.
pub record Settings : Type 0 where
  pub tx_queue : ℤ
  pub rx_queue : ℤ
  pub rx_msg_size : ℤ
  pub slab_size : ℤ
  pub tx_attr_size : ℕ
  pub rx_attr_size : ℕ

-- What the two functions call: nanomsg's parts of the endpoint, the registration of memory, the allocation
-- of chunks (of a size, on a page or not), the worker, and the memory region manager.
pub record Parts (S : Type 0) : Type 0 where
  pub core_init : S → S
  pub core_term : S → S
  pub mr_reg : ℕ → S → ℤ × S
  pub mr_close : ℕ → S → ℤ × S
  pub chunk_alloc : ℤ → Bool → S → ℤ × S
  pub chunk_free : ℕ → S → S
  pub getworker : S → S
  pub worker_term : S → S
  pub mr_init : Banks → S → S
  pub mr_term : S → S

-- The keys that are registered, the buffers that have a chunk, and the rest.
pub record Held (S : Type 0) : Type 0 where
  pub keys : List ℕ
  pub chunks : List ℕ
  pub world : S

-- What `nn_sofi_init` returns, and the endpoint if it is complete. If the function wrote behind the array of
-- contexts, C leaves open what it returns and holds, and there is no endpoint.
pub record Made (M H S : Type 0) : Type 0 where
  pub ret : ℤ
  pub held : Held S
  pub endpoint : Option (Sofi M H S)

-- The first occurrence is taken away.
unfoldable pub take_away : ℕ → List ℕ → List ℕ
take_away a [] = []
take_away a (x ∷ xs) = let rest = take_away a xs in if x == a then xs else x ∷ rest

-- `ret == -ENOSYS`
abbrev pub is_enosys : ℤ → Bool
is_enosys (pos n) = false
is_enosys (negsuc n) = n == 37

module _ {S : Type 0} where
  abbrev pub key_held : ℕ → Held S → ℤ × S → Held S
  key_held k h (ret, w) = record h { keys = if is_zero ret then k ∷ h.keys else h.keys; world = w }

  abbrev pub chunk_held : ℕ → Held S → S → Held S
  chunk_held i h w = record h { chunks = i ∷ h.chunks; world = w }

  abbrev pub key_gone : ℕ → Held S → ℤ × S → Held S
  key_gone k h (ret, w) = record h {
    keys = if is_zero ret then take_away k h.keys else h.keys;
    world = w;
  }

  abbrev pub world_of : Held S → S → Held S
  world_of h w = record h { world = w }

module _ {S : Type 0} (parts : Parts S) where
  open parts use {mr_reg, mr_close, chunk_alloc, chunk_free, getworker, mr_init}

  -- `fi_mr_reg`; a failure is printed, and the function goes on
  unfoldable pub register : ℕ → Held S → Held S
  register k h = key_held k h (mr_reg k h.world)

  abbrev pub retried : ℤ → ℤ × S → ℤ × S
  retried size (ret, w) = if is_enosys ret then chunk_alloc size false w else (ret, w)

  -- The chunk of a buffer: on a page, or, without a page-aligned allocator, anywhere.
  unfoldable pub allocate : ℤ → S → ℤ × S
  allocate size w = retried size (chunk_alloc size true w)

  -- The loop over the receive buffers, from buffer `i` on, of which `k` are left.
  unfoldable pub fill : ℕ → ℕ → ℕ → ℤ → Held S → ℤ × Held S
  unfolding allocate register
  fill zero i offset size h = (pos 0, h)
  fill (suc k) i offset size h =
      let (ret, w) = allocate size h.world in
      let rest = fill k (suc i) offset size (register (key offset (buffer i)) (chunk_held i h w)) in
      if is_zero ret then rest else (ret, record h { world = w })

  -- `fi_close` of a memory region; a failure is printed, and the function goes on
  unfoldable pub unregister : ℕ → Held S → Held S
  unfolding take_away
  unregister k h = key_gone k h (mr_close k h.world)

  -- `nn_chunk_free` drops one of the references to the chunk, which is gone with the last.
  unfoldable pub free_chunk : ℕ → (ℕ → ℕ) → Held S → Held S
  unfolding take_away
  free_chunk i refs h = record h {
    chunks = if ltb 1 (refs i) then h.chunks else take_away i h.chunks;
    world = chunk_free i h.world;
  }

  -- The loop of `nn_sofi_term` over the receive buffers.
  unfoldable pub drop : ℕ → ℕ → ℕ → (ℕ → ℕ) → Held S → Held S
  unfolding unregister free_chunk
  drop zero i offset refs h = h
  drop (suc k) i offset refs h =
      drop k (suc i) offset refs (free_chunk i refs (unregister (key offset (buffer i)) h))

  -- The worker and the memory region manager of the egress queue.
  abbrev pub with_manager : ℕ → ℕ → Settings → Held S → Held S
  with_manager offset tx s h = record h {
    world =
        mr_init
          (record {
            bank_count = tx * 2;
            slab_count = tx;
            slab_size = s.slab_size;
            base_key = send_key offset;
          })
          (getworker h.world);
  }

module _ {M H S : Type 0} where
  abbrev pub with_queue : ℕ → S → Option (Egress.Egress M H S) → Option (Sofi M H S)
  with_queue rx w none = none
  with_queue rx w (some e) = some (record {
    state = idle;
    socket_state = never;
    error = pos 0;
    egress = e;
    ingress = IngressStart.start rx w;
    world = w;
  })

  -- The endpoint with `tx` and `rx` places, unless the setup of its contexts writes behind their array.
  unfoldable pub endpoint : ℕ → ℕ → S → Option (Sofi M H S)
  unfolding EgressStart.start
  endpoint tx rx w = with_queue rx w (EgressStart.start tx rx w)

  abbrev pub completed : ℕ → ℕ → ℤ × Held S → Made M H S
  completed tx rx (ret, h) =
      if is_zero ret
      then record { ret = pos 0; held = h; endpoint = endpoint tx rx h.world }
      else record { ret = ret; held = h; endpoint = none }

  -- The loop of `nn_sofi_term` over the egress contexts; the fuel is the number of those that `nn_sofi_init` links.
  unfoldable pub term_messages : ℕ → Option ℕ → Egress.Egress M H S → Egress.Egress M H S
  term_messages zero c e = e
  term_messages (suc k) none e = e
  term_messages (suc k) (some c) e =
      term_messages k (e.contexts c).next
        (record e { contexts = update e.contexts c (record (e.contexts c) { msg = none }) })

module _ {M H S : Type 0} (parts : Parts S) where
  open parts use {core_init, core_term, worker_term, mr_term}

  -- `nn_sofi_init`
  unfoldable pub init : ℕ → Settings → Held S → Made M H S
  unfolding queue_size register fill
  init offset s h =
      let tx = rounds (queue_size s.tx_queue s.tx_attr_size) in
      let rx = rounds (queue_size s.rx_queue s.rx_attr_size) in
      let a = register parts (key offset aux) (record h { world = core_init h.world }) in
      completed tx rx (fill parts rx 0 offset s.rx_msg_size (with_manager parts offset tx s a))

  -- `nn_sofi_term` of the endpoint with `offset`
  unfoldable pub term : ℕ → Sofi M H S → Held S → Egress.Egress M H S × Held S
  unfolding drop unregister term_messages
  term offset s h =
      let a = world_of h (mr_term (worker_term h.world)) in
      let b =
        unregister parts (key offset aux) (drop parts s.ingress.max 0 offset s.ingress.refs a) in
      (term_messages s.ingress.max (some s.egress.head) s.egress, world_of b (core_term b.world))
