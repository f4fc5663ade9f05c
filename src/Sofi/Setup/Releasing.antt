-- ===== src/Sofi/Setup/Releasing.antt =====
-- What `nn_sofi_init` registers and allocates, `nn_sofi_term` releases.
use nanomsg_transport_ofi.Prelude.{
  ℕ, zero, suc, ltb, leb, ◌&&◌, ◌+◌, ◌-◌, ◌≡◌, true, List, [], ◌∷◌, refl, arith, ap, sym, ◌∙◌, ℤ,
  pos, negsuc, is_zero, count, if◌then◌else◌, if-cases,
}
use nanomsg_transport_ofi.Keys.{key, aux, buffer}
use nanomsg_transport_ofi.Sofi.{Sofi}
use nanomsg_transport_ofi.Sofi.Setup.{
  Parts, Held, Settings, take_away, register, unregister, allocate, chunk_held, free_chunk, fill,
  drop, init, term, rounds, queue_size, with_manager, completed, world_of,
}

count-take_away : (j a : ℕ) (xs : List ℕ) → count j (take_away a xs) ≡ count j xs - count j (a ∷ [])
unfolding take_away
count-take_away j a [] = ground arith
count-take_away j a (x ∷ xs) = ground (arith, count-take_away j a xs)

count-head : (j a : ℕ) (xs : List ℕ) → count j (a ∷ xs) ≡ count j (a ∷ []) + count j xs
count-head j a xs = ground arith

-- The indices of `k` buffers from `i` on, and their keys.
abbrev pub indices : ℕ → ℕ → List ℕ
indices zero i = []
indices (suc k) i = i ∷ indices k (suc i)

-- Those of which the chunk has one reference.
abbrev pub last_held : (ℕ → ℕ) → ℕ → ℕ → List ℕ
last_held refs zero i = []
last_held refs (suc k) i =
    let rest = last_held refs k (suc i) in if ltb 1 (refs i) then rest else i ∷ rest

indices-last_held :
    (refs : ℕ → ℕ) (k i j : ℕ)
    → count j (indices k i)
      ≡ count j (last_held refs k i) + (if leb i j && ltb j (i + k) && ltb 1 (refs j) then 1 else 0)
indices-last_held refs zero i j = ground arith
indices-last_held refs (suc k) i j = ground (arith, indices-last_held refs k (suc i) j)

abbrev pub buffer_keys : ℕ → ℕ → ℕ → List ℕ
buffer_keys zero i o = []
buffer_keys (suc k) i o = key o (buffer i) ∷ buffer_keys k (suc i) o

module _ {S : Type 0} (parts : Parts S) where
  -- The registration of memory, and its end, succeed.
  pub record IsWilling : Type 0 where
    pub mr_reg : (k : ℕ) (w : S) → is_zero (parts.mr_reg k w).0 ≡ true
    pub mr_close : (k : ℕ) (w : S) → is_zero (parts.mr_close k w).0 ≡ true

  module _ (g : IsWilling) where
    register-keys : (k : ℕ) (h : Held S) → (register parts k h).keys ≡ k ∷ h.keys
    unfolding register
    register-keys k h = ap (λ z. if z then k ∷ h.keys else h.keys) (g.mr_reg k h.world)

    unregister-keys : (k : ℕ) (h : Held S) → (unregister parts k h).keys ≡ take_away k h.keys
    unfolding unregister
    unregister-keys k h = ap (λ z. if z then take_away k h.keys else h.keys) (g.mr_close k h.world)

    -- With a result of 0, the loop has added a key and a chunk for each buffer.
    fill-counts :
        (k i o : ℕ) (size : ℤ) (h : Held S) (j : ℕ)
        → is_zero (fill parts k i o size h).0 ≡ true
        → (count j (fill parts k i o size h).1.keys ≡ count j (buffer_keys k i o) + count j h.keys)
          × (count j (fill parts k i o size h).1.chunks ≡ count j (indices k i) + count j h.chunks)
    unfolding fill
    fill-counts zero i o size h j z = (omega arith, omega arith)
    fill-counts (suc k) i o size h j z =
        let a = allocate parts size h.world in
        let c : Held S = chunk_held i h a.1 in
        let n : Held S = register parts (key o (buffer i)) c in
        let rest : ℤ × Held S = fill parts k (suc i) o size n in
        if-cases
          (λ (r : ℤ × Held S).
            is_zero r.0 ≡ true
            → (count j r.1.keys ≡ count j (buffer_keys (suc k) i o) + count j h.keys)
              × (count j r.1.chunks ≡ count j (indices (suc k) i) + count j h.chunks))
          (is_zero a.0) rest (a.0, record h { world = a.1 })
          (λ e y.
            let r = fill-counts k (suc i) o size n j y in
            let m = ap (count j) (register-keys (key o (buffer i)) c) in
            (ground (arith, r.0, m), ground (arith, r.1)))
          (λ e y. absurd (ground (arith, e, y))) z

    drop-counts :
        (k i o : ℕ) (refs : ℕ → ℕ) (h : Held S) (j : ℕ)
        → (count j (drop parts k i o refs h).keys ≡ count j h.keys - count j (buffer_keys k i o))
          × (count j (drop parts k i o refs h).chunks
              ≡ count j h.chunks - count j (last_held refs k i))
    unfolding drop free_chunk
    drop-counts zero i o refs h j = (omega arith, omega arith)
    drop-counts (suc k) i o refs h j =
        let u : Held S = unregister parts (key o (buffer i)) h in
        let r = drop-counts k (suc i) o refs (free_chunk parts i refs u) j in
        let m = ap (count j) (unregister-keys (key o (buffer i)) h) in
        let n = count-take_away j (key o (buffer i)) h.keys in
        let q = count-take_away j i h.chunks in (ground (arith, r.0, m, n), ground (arith, r.1, q))

module _ (M H : Type 0) {S : Type 0} where
  pub completed-held : (tx rx : ℕ) (r : ℤ × Held S) → (completed {M = M} {H = H} tx rx r).held ≡ r.1
  completed-held tx rx (pos zero, h) = refl
  completed-held tx rx (pos (suc n), h) = refl
  completed-held tx rx (negsuc n, h) = refl

  pub completed-ret : (tx rx : ℕ) (r : ℤ × Held S) → (completed {M = M} {H = H} tx rx r).ret ≡ r.0
  completed-ret tx rx (pos zero, h) = refl
  completed-ret tx rx (pos (suc n), h) = refl
  completed-ret tx rx (negsuc n, h) = refl

module _ {M H S : Type 0} (parts : Parts S) where
  -- If `nn_sofi_init` returns 0 and the registration of memory and its end succeed, then `nn_sofi_term`, called
  -- at any later time while the endpoint has the buffers it was made with, leaves as many registrations of
  -- each key as there were before, and as many chunks of each buffer, but for those with further references.
  pub term-init :
      (o : ℕ) (s : Settings) (h : Held S) (t : Sofi M H S) (w : S) (j : ℕ)
      → IsWilling parts
      → is_zero (init {M = M} {H = H} parts o s h).ret ≡ true
      → t.ingress.max ≡ rounds (queue_size s.rx_queue s.rx_attr_size)
      → (count j (term parts o t (world_of (init {M = M} {H = H} parts o s h).held w)).1.keys
          ≡ count j h.keys)
        × (count j (term parts o t (world_of (init {M = M} {H = H} parts o s h).held w)).1.chunks
            ≡ count j h.chunks
              + (if ltb j (rounds (queue_size s.rx_queue s.rx_attr_size))
                    && ltb 1 (t.ingress.refs j)
                  then 1
                  else 0))
  unfolding init term
  term-init o s h t w j g z m =
      let tx = rounds (queue_size s.tx_queue s.tx_attr_size) in
      let rx = rounds (queue_size s.rx_queue s.rx_attr_size) in
      let a0 : Held S = record h { world = parts.core_init h.world } in
      let a : Held S = with_manager parts o tx s (register parts (key o aux) a0) in
      let f : ℤ × Held S = fill parts rx 0 o s.rx_msg_size a in
      let i : Held S = (init {M = M} {H = H} parts o s h).held in
      let b : Held S = world_of i (parts.mr_term (parts.worker_term w)) in
      let d : Held S = drop parts t.ingress.max 0 o t.ingress.refs b in
      let c =
        fill-counts parts g rx 0 o s.rx_msg_size a j
          (ap (is_zero) (sym (completed-ret M H tx rx f)) ∙ z) in
      let q : i ≡ f.1 = completed-held M H tx rx f in
      let r = register-keys parts g (key o aux) a0 in
      let u = unregister-keys parts g (key o aux) d in
      let v = count-take_away j (key o aux) d.keys in
      let k = drop-counts parts g t.ingress.max 0 o t.ingress.refs b j in
      let m0 = ap (λ z. count j (buffer_keys z 0 o)) m in
      let m1 = ap (λ z. count j (last_held t.ingress.refs z 0)) m in
      let p = indices-last_held t.ingress.refs rx 0 j in
      let n = count-head j (key o aux) h.keys in
      (
        ap (count j) u
            ∙ v
            ∙ omega (arith, k.0, m0, ap (λ z. count j z.keys) q, c.0, ap (count j) r, n),
        k.1 ∙ ground (arith, m1, ap (λ z. count j z.chunks) q, c.1, p),
      )
