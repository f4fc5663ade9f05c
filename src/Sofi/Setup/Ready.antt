-- ===== src/Sofi/Setup/Ready.antt =====
-- The endpoint that `nn_sofi_init` makes, and what becomes of its messages.
use nanomsg_transport_ofi.Prelude.{
  ℕ, zero, suc, ◌-◌, ◌<◌, ◌≤◌, ◌≡◌, Option, none, some, some-injective, none-ne-some, List, [], ◌∷◌,
  refl, arith, ap, subst, sym, ◌∙◌, ℤ, pos, negsuc, length, contains, if◌then◌else◌, update,
  first_of,
}
use nanomsg_transport_ofi.Links.{Linked, Linked-frame}
use nanomsg_transport_ofi.Links.Loop.{from}
use nanomsg_transport_ofi.Ingress.Sound.{IsSound}
use nanomsg_transport_ofi.Ingress.Start as IngressStart
use nanomsg_transport_ofi.Egress
use nanomsg_transport_ofi.Egress.Chain.{IsChain, links_of}
use nanomsg_transport_ofi.Egress.Balance.{IsBalanced}
use nanomsg_transport_ofi.Egress.Start as EgressStart
use nanomsg_transport_ofi.Sofi
use nanomsg_transport_ofi.Sofi.{Sofi}
use nanomsg_transport_ofi.Keys.{key, aux}
use nanomsg_transport_ofi.Sofi.Sound.Reaching.{Calls, Calls-Sound}
use nanomsg_transport_ofi.Sofi.Setup.{
  Parts, Held, Settings, register, fill, init, rounds, queue_size, with_manager, with_queue,
  completed, endpoint, term_messages,
}
use nanomsg_transport_ofi.Sofi.Setup.Sizes.{IsInt, places, queue_size-places}

-- An option that is an `int`, and a domain that allows between 1 and 2^31 - 1 places.
pub record Allows (v : ℤ) (size : ℕ) : Type 0 where
  pub option : IsInt v
  pub some_place : 0 < size
  pub bounded : size < 2147483648

rounds-places :
    (v : ℤ) (size : ℕ)
    → Allows v size
    → (n : ℕ) × (rounds (queue_size v size) ≡ suc n) × (suc n ≤ size)
rounds-places v size a =
    let (q, p, l) = queue_size-places v size a.some_place a.bounded a.option in
    let e = ap (rounds) q in (places v size - 1, e ∙ omega (arith, p), omega (arith, p, l))

module _ {M H S : Type 0} where
  completed-some :
      (tx rx : ℕ) (r : ℤ × Held S) (e : Sofi M H S)
      → (completed {M = M} {H = H} tx rx r).endpoint ≡ some e
      → endpoint tx rx r.1.world ≡ some e
  completed-some tx rx (pos zero, h) e q = q
  completed-some tx rx (pos (suc n), h) e q = absurd (none-ne-some e q)
  completed-some tx rx (negsuc n, h) e q = absurd (none-ne-some e q)

  -- The two queues of a new endpoint: all buffers are in the lists, and the contexts form one sequence, with
  -- none of them in use.
  abbrev pub IsReady : ℕ → Sofi M H S → Type 0
  IsReady rx s = IsSound (suc rx) s.ingress × IsChain s.egress 0 (from 1 rx) × IsBalanced s.egress

  with_queue-IsReady :
      (tx rx : ℕ) (w : S) (o : Option (Egress.Egress M H S)) (e : Sofi M H S)
      → EgressStart.start tx (suc rx) w ≡ o
      → with_queue (suc rx) w o ≡ some e
      → IsReady rx e
  unfolding IngressStart.start
  with_queue-IsReady tx rx w none e p q = absurd (none-ne-some e q)
  with_queue-IsReady tx rx w (some g) e p q =
      let (c, b) = EgressStart.start-IsChain tx rx w g p in
      let r : IsSound (suc rx) (IngressStart.start (suc rx) w) = record {
        free = from 0 (suc rx);
        busy = [];
        populated = [];
        whole = IngressStart.start-Whole rx w;
        size = refl;
        each = λ j. IngressStart.start-each (suc rx) j;
      } in
      subst (IsReady rx) (some-injective _ _ q) (r, c, b)

  endpoint-IsReady :
      (tx rx : ℕ) (w : S) (e : Sofi M H S) → endpoint tx (suc rx) w ≡ some e → IsReady rx e
  unfolding endpoint
  endpoint-IsReady tx rx w e q =
      with_queue-IsReady tx rx w (EgressStart.start tx (suc rx) w) e refl q

module _ {M H S : Type 0} (parts : Parts S) where
  init-IsReady :
      (o : ℕ) (s : Settings) (h : Held S) (e : Sofi M H S)
      → Allows s.rx_queue s.rx_attr_size
      → (init parts o s h).endpoint ≡ some e
      → (n : ℕ) × (rounds (queue_size s.rx_queue s.rx_attr_size) ≡ suc n) × IsReady n e
  unfolding init
  init-IsReady o s h e a q =
      let tx = rounds (queue_size s.tx_queue s.tx_attr_size) in
      let rx = rounds (queue_size s.rx_queue s.rx_attr_size) in
      let a0 : Held S = register parts (key o aux) (record h { world = parts.core_init h.world }) in
      let f : ℤ × Held S = fill parts rx 0 o s.rx_msg_size (with_manager parts o tx s a0) in
      let (n, r, _) = rounds-places s.rx_queue s.rx_attr_size a in
      let k = subst (λ z. endpoint tx z f.1.world ≡ some e) r (completed-some tx rx f e q) in
      (n, r, endpoint-IsReady tx n f.1.world e k)

  -- An endpoint that `nn_sofi_init` completes, without a write behind the array of contexts, has as many receive
  -- buffers as the receive queue has places; after any calls that do not abort, it has as many, and each index
  -- below that number, and no other, is in one of its three lists, and in one only, whatever libfabric answers.
  -- The domain allows between 1 and 2^31 - 1 buffers, and a completed reception names a busy buffer.
  pub init-keeps :
      (calls : Sofi.Parts M H S) (o : ℕ) (s : Settings) (h : Held S) (e t : Sofi M H S)
      → Allows s.rx_queue s.rx_attr_size
      → (init parts o s h).endpoint ≡ some e
      → Calls calls e t
      → IsSound (rounds (queue_size s.rx_queue s.rx_attr_size)) t.ingress
  init-keeps calls o s h e t a q r =
      let (n, m, k) = init-IsReady o s h e a q in
      subst (λ z. IsSound z t.ingress) (sym m) (Calls-Sound calls e t r k.0)

module _ {M H S : Type 0} where
  term_messages-clears :
      (k : ℕ) (e : Egress.Egress M H S) (p : Option ℕ) (xs : List ℕ)
      → Linked (links_of e.contexts) p xs
      → length xs ≤ k
      → (j : ℕ)
      → ((term_messages k (first_of xs) e).contexts j).msg
        ≡ (if contains j xs then none else (e.contexts j).msg)
  unfolding term_messages
  term_messages-clears zero e p [] l n j = refl
  term_messages-clears (suc k) e p [] l n j = refl
  term_messages-clears zero e p (x ∷ xs) l n j = absurd (omega (arith, n))
  term_messages-clears (suc k) e p (x ∷ xs) l n j =
      let f : Egress.Egress M H S = record e {
        contexts = update e.contexts x (record (e.contexts x) { msg = none });
      } in
      let m =
        Linked-frame (links_of e.contexts) (links_of f.contexts) (some x) xs l.2
          (λ i c. ground arith) (λ i c. ground arith) in
      let r = term_messages-clears k f (some x) xs m (omega (arith, n)) j in
      subst
        (λ z.
          ((term_messages k z f).contexts j).msg
          ≡ (if contains j (x ∷ xs) then none else (e.contexts j).msg))
        (sym l.1) (r ∙ ground arith)

  -- With a round for each context of the list, the loop of `nn_sofi_term` over the contexts ends, and releases
  -- the messages of those and no other.
  pub term_messages-ends :
      (e : Egress.Egress M H S) (x k : ℕ) (xs : List ℕ)
      → IsChain e x xs
      → length (x ∷ xs) ≤ k
      → (j : ℕ)
      → ((term_messages k (some e.head) e).contexts j).msg
        ≡ (if contains j (x ∷ xs) then none else (e.contexts j).msg)
  term_messages-ends e x k xs c n j =
      subst
        (λ z.
          ((term_messages k (some z) e).contexts j).msg
          ≡ (if contains j (x ∷ xs) then none else (e.contexts j).msg))
        (sym c.head) (term_messages-clears k e none (x ∷ xs) c.links n j)
