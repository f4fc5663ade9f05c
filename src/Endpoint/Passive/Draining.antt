-- ===== src/Endpoint/Passive/Draining.antt =====
-- What the close of a passive endpoint undoes, and the events that the close of an endpoint leaves unread.
use nanomsg_transport_ofi.Prelude.{
  ℕ, zero, suc, negsuc, ◌-◌, ◌<◌, ◌≡◌, false, some, some-injective, inl, inr, ◌⊎◌, none-ne-some, [],
  ℤ, pos, is_zero, if◌then◌else◌, refl, ap, sym, ◌∙◌, subst, arith, contains, if-both,
}
use nanomsg_transport_ofi.Worker.{Item, eq, Worker, open_eq, add_eq, remove}
use nanomsg_transport_ofi.Endpoint.Closing.{fds, remove_item-middle, to_end}
use nanomsg_transport_ofi.Endpoint.Passive.{
  Calls, PassiveEndpoint, Opened, fail, bound, open_queue, ep_opened, open_passive, drain,
  close_passive,
}

none-or-some : (n : ℕ) → (n ≡ 0) ⊎ (0 < n)
none-or-some zero = inl refl
none-or-some (suc n) = inr (omega arith)

module _ {S : Type 0} (calls : Calls S) where
  -- `pending` counts the events of a queue. As libfabric documents it, reading takes one event and returns its
  -- size, and an empty queue gives a negative number.
  pub record IsQueue (fd : ℕ) (pending : S → ℕ) : Type 0 where
    pub event : (s : S) → 0 < pending s → (n : ℕ) × ((calls.eq_read fd s).0 ≡ pos (suc n))
    pub taken : (s : S) → pending (calls.eq_read fd s).1 ≡ pending s - 1
    pub empty : (s : S) → pending s ≡ 0 → (n : ℕ) × ((calls.eq_read fd s).0 ≡ negsuc n)

  read-nonzero :
      (fd : ℕ) (pending : S → ℕ) (s : S)
      → IsQueue fd pending
      → is_zero (calls.eq_read fd s).0 ≡ false
  read-nonzero fd pending s q = elim (none-or-some (pending s)) [
    | inl h ↦ ap (is_zero) (q.empty s h).1
    | inr h ↦ ap (is_zero) (q.event s h).1
  ]

  -- With such a queue, the loop that is to empty it ends after one round, however many it may make, and takes
  -- one event at most: of several, all but one are left.
  pub drain-one :
      (fd k : ℕ) (pending : S → ℕ) (s : S)
      → IsQueue fd pending
      → pending (drain calls (suc k) fd s) ≡ pending s - 1
  unfolding drain
  drain-one fd k pending s q =
      let t = (calls.eq_read fd s).1 in
      ap (λ z. pending (if z then drain calls k fd t else t)) (read-nonzero fd pending s q)
      ∙ q.taken s

module _ {S : Type 0} (calls : Calls S) (size src : ℕ) (w : Worker) where
  -- Closing the endpoint that was opened, if one was, leaves the worker `w`.
  Undone : ℕ → Opened S → Type 0
  Undone k o =
      (p : PassiveEndpoint) (t : S)
      → o.endpoint ≡ some p
      → contains p.eq (fds w.items) ≡ false
      → (close_passive calls k o.worker p t).0 ≡ w

  bound-Undone :
      (k ep q : ℕ) (r : ℤ × S) → Undone k (bound calls size src ep q (add_eq size w q src) r)
  unfolding Undone close_passive add_eq remove
  bound-Undone k ep q (pos zero, s) p t e h =
      let i : Item = record { fd_type = eq; fd = q; src = src; data_size = size } in
      let c : q ≡ p.eq = ap (λ z. z.eq) (some-injective _ _ e) in
      let h' : contains q (fds w.items) ≡ false =
        subst (λ z. contains z (fds w.items) ≡ false) (sym c) h in
      ap (λ z. remove (add_eq size w q src) z) (sym c)
      ∙ ap (λ z. record w { items = z }) (remove_item-middle w.items [] i h' ∙ to_end w.items)
  bound-Undone k ep q (pos (suc n), s) p t e h = absurd (none-ne-some p e)
  bound-Undone k ep q (negsuc n, s) p t e h = absurd (none-ne-some p e)

  failed-Undone : (k : ℕ) (ret : ℤ) (v : Worker) (s : S) → Undone k (fail ret v s)
  unfolding Undone
  failed-Undone k ret v s p t e h = absurd (none-ne-some p e)

  open_queue-Undone : (k ep : ℕ) (q : ℤ × ℕ × S) → Undone k (open_queue calls size src ep w q)
  unfolding open_eq
  open_queue-Undone k ep (pos zero, fd, s) = bound-Undone k ep fd (calls.pep_bind ep fd s)
  open_queue-Undone k ep (pos (suc n), fd, s) = failed-Undone k (pos (suc n)) w s
  open_queue-Undone k ep (negsuc n, fd, s) = failed-Undone k (negsuc n) w s

  ep_opened-Undone : (k : ℕ) (r : ℤ × ℕ × S) → Undone k (ep_opened calls size src w r)
  ep_opened-Undone k (ret, ep, s) =
      if-both (Undone k) (is_zero ret) (open_queue calls size src ep w (calls.eq_open s))
        (fail ret w s) (open_queue-Undone k ep (calls.eq_open s)) (failed-Undone k ret w s)

  -- If opening a passive endpoint gives one, with a queue that the worker did not watch, closing it leaves the
  -- worker as it was.
  pub close-open_passive :
      (k : ℕ) (s t : S) (p : PassiveEndpoint)
      → (open_passive calls size src w s).endpoint ≡ some p
      → contains p.eq (fds w.items) ≡ false
      → (close_passive calls k (open_passive calls size src w s).worker p t).0 ≡ w
  unfolding open_passive Undone
  close-open_passive k s t p e h = ep_opened-Undone k (calls.passive_ep s) p t e h
