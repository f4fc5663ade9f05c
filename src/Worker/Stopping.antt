-- ===== src/Worker/Stopping.antt =====
-- Workers and items that come and go, and the stop of a worker.
use nanomsg_transport_ofi.Prelude.{
  ℕ, ◌==◌, true, false, none, List, [], ◌∷◌, ◌++◌, ◌≡◌, refl, ap, ◌∙◌, arith, map, contains,
}
use nanomsg_transport_ofi.Worker.{
  Item, Worker, getworker, erase, term, ask_stop, end_stop, add_cq, add_eq, remove_item, remove,
}
use nanomsg_transport_ofi.Worker.Poller.{Reading, pass_over, pass_over-append, go_on, behind}

erase-last :
    (ws : List Worker) (v : Worker)
    → contains v.address (map (λ w. w.address) ws) ≡ false
    → erase (ws ++ v ∷ []) v.address ≡ ws
unfolding erase
erase-last [] v h = ground arith
erase-last (w ∷ ws) v h =
    let c : (w.address == v.address) ≡ false = ground (arith, h) in
    rw c (ap (λ z. w ∷ z) (erase-last ws v (ground (arith, h))))

-- A worker that was got and terminated leaves the list as it was.
pub term-getworker :
    (ws : List Worker) (address owner : ℕ)
    → contains address (map (λ w. w.address) ws) ≡ false
    → term (getworker ws address owner) address ≡ ws
unfolding term getworker
term-getworker ws address owner h = erase-last ws _ h

remove_item-last :
    (is : List Item) (i : Item)
    → contains i.fd (map (λ j. j.fd) is) ≡ false
    → remove_item (is ++ i ∷ []) i.fd ≡ is
unfolding remove_item
remove_item-last [] i h = ground arith
remove_item-last (j ∷ is) i h =
    let c : (j.fd == i.fd) ≡ false = ground (arith, h) in
    rw c (ap (λ z. j ∷ z) (remove_item-last is i (ground (arith, h))))

-- A queue that was added and removed, and that the worker did not watch before, leaves the worker as it
-- was.
pub remove-add :
    (w : Worker) (fd size src : ℕ)
    → contains fd (map (λ j. j.fd) w.items) ≡ false
    → (remove (add_cq w fd size src) fd ≡ w) × (remove (add_eq size w fd src) fd ≡ w)
unfolding remove add_cq add_eq
remove-add w fd size src h = (
  ap (λ z. record w { items = z }) (remove_item-last w.items _ h),
  ap (λ z. record w { items = z }) (remove_item-last w.items _ h),
)

module _ {S : Type 0} (read : Item → S → Reading × S) where
  ask_stop-active : (w : Worker) → w.active ≡ 2 → ask_stop false w ≡ record w { active = 1 }
  unfolding ask_stop
  ask_stop-active w h = rw h refl

  -- The pass on a worker that is being stopped.
  pass-stopping :
      (w : Worker) (ys : List Worker) (s : S)
      → pass_over read (record w { active = 1 } ∷ ys) s
        ≡ behind (record w { active = 1; efd_sync = true }) (pass_over read ys s)
  unfolding pass_over
  pass-stopping w ys s = refl

  -- An active worker that is asked to stop outside the handlers of the poller thread is signalled by a pass
  -- in which no worker before it has an event, and is inactive when its stop ends.
  pub stop-signalled :
      (xs ys : List Worker) (w : Worker) (s : S)
      → w.active ≡ 2
      → (pass_over read xs s).feed ≡ none
      → (v : Worker) × (after : List Worker) × ((pass_over read
            (xs ++ ask_stop false w ∷ ys)
            s).workers
          ≡ (pass_over read xs s).workers ++ v ∷ after)
        × (v.efd_sync ≡ true)
        × (end_stop v ≡ record w { active = 0; efd_sync = false })
  unfolding end_stop
  stop-signalled xs ys w s h n =
      let p = pass_over read xs s in
      let v : Worker = record w { active = 1; efd_sync = true } in
      (
        v,
        (pass_over read ys p.world).workers,
        ap (λ z. (pass_over read (xs ++ z ∷ ys) s).workers) (ask_stop-active w h)
            ∙ ap (λ z. z.workers) (pass_over-append read xs (record w { active = 1 } ∷ ys) s)
            ∙ ap (λ z. (go_on read p z (record w { active = 1 } ∷ ys)).workers) n
            ∙ ap (λ z. p.workers ++ z.workers) (pass-stopping w ys p.world),
        refl,
        refl,
      )
