-- ===== src/Endpoint/Closing.antt =====
-- Closing an endpoint undoes what opening it did to the worker.
use nanomsg_transport_ofi.Prelude.{
  ℕ, zero, suc, negsuc, ◌==◌, ◌≡◌, Bool, true, false, Option, none, some, List, [], ◌∷◌, ◌++◌, map,
  ℤ, pos, is_zero, if◌then◌else◌, refl, ap, ◌∙◌, subst, arith, contains,
}
use nanomsg_transport_ofi.Worker.{
  Item, eq, cq, Worker, open_eq, open_cq, add_eq, add_cq, remove_item, remove,
}
use nanomsg_transport_ofi.Endpoint.{
  Fabric, ActiveEndpoint, Opened, Setup, fail, enabled, rx_bound, open_rx, tx_bound, open_tx,
  eq_bound, open_queue, open_endpoint, stop_watching,
}

-- The queues that a worker watches.
abbrev pub fds : List Item → List ℕ
fds is = map (λ i. i.fd) is

pub remove_item-middle :
    (is js : List Item) (i : Item)
    → contains i.fd (fds is) ≡ false
    → remove_item (is ++ i ∷ js) i.fd ≡ is ++ js
unfolding remove_item
remove_item-middle [] js i h = ground arith
remove_item-middle (j ∷ is) js i h =
    let c : (j.fd == i.fd) ≡ false = ground (arith, h) in
    rw c (ap (λ z. j ∷ z) (remove_item-middle is js i (ground (arith, h))))

three :
    (is : List Item) (a b c : Item) → ((is ++ a ∷ []) ++ b ∷ []) ++ c ∷ [] ≡ is ++ a ∷ b ∷ c ∷ []
three [] a b c = refl
three (i ∷ is) a b c = ap (λ z. i ∷ z) (three is a b c)

pub to_end : (is : List Item) → is ++ [] ≡ is
to_end [] = refl
to_end (i ∷ is) = ap (λ z. i ∷ z) (to_end is)

-- The worker `w` did not watch the queues of the endpoint.
pub record IsFresh (w : Worker) (ep : ActiveEndpoint) : Type 0 where
  pub eq : contains ep.eq (fds w.items) ≡ false
  pub cq_tx : contains ep.cq_tx (fds w.items) ≡ false
  pub cq_rx : contains ep.cq_rx (fds w.items) ≡ false

stop_watching-three :
    (w : Worker) (a b c : Item)
    → IsFresh w (record { eq = a.fd; cq_tx = b.fd; cq_rx = c.fd })
    → stop_watching
        (record w { items = ((w.items ++ a ∷ []) ++ b ∷ []) ++ c ∷ [] })
        (record { eq = a.fd; cq_tx = b.fd; cq_rx = c.fd })
      ≡ w
unfolding stop_watching remove
stop_watching-three w a b c h =
    ap (λ z. record w { items = z })
      (ap (λ z. remove_item (remove_item (remove_item z a.fd) b.fd) c.fd) (three w.items a b c)
        ∙ ap (λ z. remove_item (remove_item z b.fd) c.fd)
            (remove_item-middle w.items (b ∷ c ∷ []) a h.eq)
        ∙ ap (λ z. remove_item z c.fd) (remove_item-middle w.items (c ∷ []) b h.cq_tx)
        ∙ remove_item-middle w.items [] c h.cq_rx
        ∙ to_end w.items)

-- Closing the endpoint that was opened, if one was, leaves the worker `w`.
abbrev Undone : Worker → Worker → Option ActiveEndpoint → Type 0
Undone w v none = true ≡ true
Undone w v (some ep) = IsFresh w ep → stop_watching v ep ≡ w

module _ {S : Type 0} (fabric : Fabric S) (setup : Setup) (w : Worker) where
  abbrev IsUndone : Opened S → Type 0
  IsUndone o = Undone w o.worker o.endpoint

  or_fail :
      (b : Bool) (o : Opened S) (ret : ℤ) (v : Worker) (s : S)
      → IsUndone o
      → IsUndone (if b then o else fail ret v s)
  or_fail true o ret v s h = h
  or_fail false o ret v s h = refl

  abbrev eq_item : ℕ → Item
  eq_item fd = record { fd_type = eq; fd = fd; src = setup.src_eq; data_size = setup.entry_size }

  abbrev tx_item : ℕ → Item
  tx_item fd = record { fd_type = cq; fd = fd; src = setup.src_tx; data_size = setup.tx_size }

  abbrev rx_item : ℕ → Item
  rx_item fd = record { fd_type = cq; fd = fd; src = setup.src_rx; data_size = setup.rx_size }

  -- The worker with one, two or three of the queues.
  abbrev one : ℕ → Worker
  one a = record w { items = w.items ++ eq_item a ∷ [] }

  abbrev two : ℕ → ℕ → Worker
  two a b = record w { items = (w.items ++ eq_item a ∷ []) ++ tx_item b ∷ [] }

  abbrev all : ℕ → ℕ → ℕ → Worker
  all a b c = record w { items = ((w.items ++ eq_item a ∷ []) ++ tx_item b ∷ []) ++ rx_item c ∷ [] }

  rx_bound-IsUndone :
      (a b c : ℕ) (r : ℤ × S)
      → IsUndone (rx_bound fabric setup (all a b c) (record { eq = a; cq_tx = b; cq_rx = c }) r)
  rx_bound-IsUndone a b c (ret, s) =
      let (ret', s') = fabric.enable s in
      or_fail (is_zero ret)
        (enabled fabric setup (all a b c) (record { eq = a; cq_tx = b; cq_rx = c }) (ret', s')) ret
        (all a b c) s
        (or_fail (is_zero ret')
          (record {
            ret = pos 0;
            endpoint = some (record { eq = a; cq_tx = b; cq_rx = c });
            worker = all a b c;
            world = s';
          })
          ret' (all a b c) s' (stop_watching-three w (eq_item a) (tx_item b) (rx_item c)))

  open_rx-IsUndone : (a b : ℕ) (q : ℤ × ℕ × S) → IsUndone (open_rx fabric setup a b (two a b) q)
  unfolding open_cq add_cq
  open_rx-IsUndone a b (pos zero, c, s) = rx_bound-IsUndone a b c (fabric.bind c s)
  open_rx-IsUndone a b (pos (suc n), c, s) = refl
  open_rx-IsUndone a b (negsuc n, c, s) = refl

  tx_bound-IsUndone : (a b : ℕ) (r : ℤ × S) → IsUndone (tx_bound fabric setup a b (two a b) r)
  tx_bound-IsUndone a b (ret, s) =
      or_fail (is_zero ret) (open_rx fabric setup a b (two a b) (fabric.cq_open s)) ret (two a b) s
        (open_rx-IsUndone a b (fabric.cq_open s))

  open_tx-IsUndone : (a : ℕ) (q : ℤ × ℕ × S) → IsUndone (open_tx fabric setup a (one a) q)
  unfolding open_cq add_cq
  open_tx-IsUndone a (pos zero, b, s) = tx_bound-IsUndone a b (fabric.bind b s)
  open_tx-IsUndone a (pos (suc n), b, s) = refl
  open_tx-IsUndone a (negsuc n, b, s) = refl

  eq_bound-IsUndone : (a : ℕ) (r : ℤ × S) → IsUndone (eq_bound fabric setup a (one a) r)
  eq_bound-IsUndone a (ret, s) =
      or_fail (is_zero ret) (open_tx fabric setup a (one a) (fabric.cq_open s)) ret (one a) s
        (open_tx-IsUndone a (fabric.cq_open s))

  open_queue-IsUndone : (q : ℤ × ℕ × S) → IsUndone (open_queue fabric setup w q)
  unfolding open_eq add_eq
  open_queue-IsUndone (pos zero, a, s) = eq_bound-IsUndone a (fabric.bind a s)
  open_queue-IsUndone (pos (suc n), a, s) = refl
  open_queue-IsUndone (negsuc n, a, s) = refl

  -- If opening an endpoint gives one, with queues that the worker did not watch, closing it leaves the
  -- worker as it was.
  pub close-open :
      (s : S) (ep : ActiveEndpoint)
      → (open_endpoint fabric setup w s).endpoint ≡ some ep
      → IsFresh w ep
      → stop_watching (open_endpoint fabric setup w s).worker ep ≡ w
  unfolding open_endpoint
  close-open s ep h =
      let (ret, t) = fabric.endpoint s in
      subst (Undone w (open_endpoint fabric setup w s).worker) h (
        or_fail (is_zero ret) (open_queue fabric setup w (fabric.eq_open t)) ret w t
          (open_queue-IsUndone (fabric.eq_open t)))
