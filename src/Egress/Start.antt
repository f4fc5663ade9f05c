-- ===== src/Egress/Start.antt =====
-- The egress queue after `nn_sofi_init`.
use nanomsg_transport_ofi.Prelude.{
  ℕ, zero, suc, ◌-◌, ◌≡◌, false, none, refl, arith, Option, some, none-ne-some, some-injective,
  Bool-cases, inl, inr, ltb, if◌then◌else◌, ap, sym, subst, ◌∙◌,
}
use nanomsg_transport_ofi.Links.{Links}
use nanomsg_transport_ofi.Links.Loop.{
  no_links, link_from, from, count-from, last-from, link_from-Linked,
}
use nanomsg_transport_ofi.Ingress.Pointers.{distinct-Sole}
use nanomsg_transport_ofi.Egress.{Ctx, Egress}
use nanomsg_transport_ofi.Egress.Count.{busy}
use nanomsg_transport_ofi.Egress.Chain.{IsChain}
use nanomsg_transport_ofi.Egress.Balance.{IsBalanced}

-- A context with nothing to send.
abbrev pub fresh : {M H : Type 0} → Links → ℕ → Ctx M H
fresh l i = record { msg = none; mr_handle = none; next = l.next i; prev = l.prev i }

fresh-busy : (M H : Type 0) (n : ℕ) (l : Links) → busy {M = M} {H = H} n (fresh l) ≡ 0
fresh-busy M H zero l = refl
fresh-busy M H (suc n) l = fresh-busy M H n l

module _ {M H S : Type 0} where
  -- The queue with `tx` places, of which the first `rx` contexts are linked.
  abbrev pub queue : ℕ → ℕ → S → Egress M H S
  queue tx rx w = record {
    contexts = fresh (link_from rx rx 0 no_links);
    head = 0;
    tail = rx - 1;
    counter = tx;
    max = tx;
    staged = false;
    out_active = false;
    closing = false;
    outmsg = none;
    ticks_out = 0;
    world = w;
  }

  -- The part of `nn_sofi_init` for the queue: the array and the counter have `tx` places, while the loop
  -- that links the contexts runs over `rx`. `none`: the loop writes behind the array.
  unfoldable pub start : ℕ → ℕ → S → Option (Egress M H S)
  start tx rx w = if ltb tx rx then none else some (queue tx rx w)

  queue-IsChain :
      (tx rx : ℕ) (w : S)
      → IsChain (queue tx (suc rx) w) 0 (from 1 rx) × IsBalanced (queue tx (suc rx) w)
  queue-IsChain tx rx w = (
    record {
      head = refl;
      tail = omega (arith, last-from 0 rx);
      links = link_from-Linked (suc rx);
      distinct = distinct-Sole (from 0 (suc rx)) (λ j. count-from j 0 (suc rx));
    },
    omega (arith, fresh-busy M H tx (link_from (suc rx) (suc rx) 0 no_links)),
  )

  -- With at least one slot to receive, and no more than there are to send, the queue is balanced, and holds as
  -- many contexts as there are slots to receive.
  pub start-IsChain :
      (tx rx : ℕ) (w : S) (e : Egress M H S)
      → start tx (suc rx) w ≡ some e
      → IsChain e 0 (from 1 rx) × IsBalanced e
  unfolding start
  start-IsChain tx rx w e q = elim (Bool-cases (ltb tx (suc rx))) [
    | inl h ↦
        absurd
          (none-ne-some e (sym (ap (λ z. if z then none else some (queue tx (suc rx) w)) h) ∙ q))
    | inr h ↦
        subst (λ z. IsChain z 0 (from 1 rx) × IsBalanced z)
          (some-injective _ _
            (sym (ap (λ z. if z then none else some (queue tx (suc rx) w)) h) ∙ q))
          (queue-IsChain tx rx w)
  ]
