-- ===== src/Egress/Complete.antt =====
-- A completed transmission on a well-formed queue.
use nanomsg_transport_ofi.Links.{Linked-frame}
use nanomsg_transport_ofi.Prelude.{ℕ, ◌<◌, ◌≡◌, true, none, some, List, ◌∷◌, ◌++◌, arith, ap, suc}
use nanomsg_transport_ofi.Egress.{Egress, Parts}
use nanomsg_transport_ofi.Egress.Count.{is_busy}
use nanomsg_transport_ofi.Egress.Sending.{free_context, handle, unthrottle, unthrottled}
use nanomsg_transport_ofi.Egress.Balance.{IsBalanced, handle-IsBalanced}
use nanomsg_transport_ofi.Egress.Chain.{IsChain, links_of}
use nanomsg_transport_ofi.Egress.Front.{mark_free-IsChain}

module _ {M H S : Type 0} (parts : Parts M H S) where
  free_context-IsChain :
      (e : Egress M H S) (c x : ℕ) (xs : List ℕ)
      → IsChain e x xs
      → IsChain (free_context parts e c) x xs
  unfolding free_context
  free_context-IsChain e c x xs h = record {
    head = h.head;
    tail = h.tail;
    links =
        Linked-frame (links_of e.contexts) (links_of (free_context parts e c).contexts) none
          (x ∷ xs) h.links (λ j m. ground arith) (λ j m. ground arith);
    distinct = h.distinct;
  }

  -- On a queue that represents a sequence, the completion of a context `c` that is busy and not the
  -- first neither fails an assertion nor uses NULL; `c` moves to the first place, and the order of the
  -- others stays. If the counter was the number of contexts that are not busy, and the array holds
  -- less than 2^32, it is so afterwards, and the counter is higher by one.
  pub handle-returns :
      (e : Egress M H S) (x c : ℕ) (xs ys : List ℕ)
      → IsChain e x (xs ++ c ∷ ys)
      → c < e.max
      → e.max < 4294967296
      → is_busy (e.contexts c) ≡ true
      → IsBalanced e
      → (f : Egress M H S) × (handle parts e c ≡ some f)
        × IsChain f c ((x ∷ xs) ++ ys)
        × IsBalanced f
        × (f.counter ≡ suc e.counter)
  unfolding handle free_context
  handle-returns e x c xs ys h lt m u b =
      let r : Egress M H S = record e { ticks_out = 0 } in
      let k : IsChain r x (xs ++ c ∷ ys) = record {
        head = h.head;
        tail = h.tail;
        links = h.links;
        distinct = h.distinct;
      } in
      let (g, p, l) =
        mark_free-IsChain (free_context parts r c) x c xs ys
          (free_context-IsChain r c x (xs ++ c ∷ ys) k) (ground arith) in
      let q : handle parts e c ≡ some (unthrottle parts g) = ap (unthrottled parts) p in
      let z = handle-IsBalanced parts e (unthrottle parts g) c lt m u b q in
      (
        unthrottle parts g,
        q,
        record { head = l.head; tail = l.tail; links = l.links; distinct = l.distinct },
        z.0,
        z.1,
      )
