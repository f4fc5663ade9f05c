-- ===== src/Worker/Poller.antt =====
-- One pass of `nn_ofiw_poller_thread` over the workers.
use nanomsg_transport_ofi.Prelude.{
  ℕ, ◌==◌, ltb, true, Option, none, some, List, [], ◌∷◌, ◌++◌, if◌then◌else◌, ◌≡◌, refl, ap, ◌∙◌,
  Bool-cases, inl, inr,
}
use nanomsg_transport_ofi.Worker.{Item, Worker}

-- What a queue gives: nothing, an error whose details cannot be read, or something to feed.
pub data Reading : Type 0 where
  nothing unreadable : Reading
  event : ℕ → Reading

-- What is fed to the owner of a worker, and the source.
pub record Feed : Type 0 where
  pub owner : ℕ
  pub src : ℕ
  pub what : ℕ

-- A pass: the workers and the world that it leaves, and what it feeds.
pub record Pass (S : Type 0) : Type 0 where
  pub workers : List Worker
  pub world : S
  pub feed : Option Feed

-- `active` is 0 for an inactive worker, 1 for one that is being stopped, and 2 for an active one.
abbrev pub acknowledge : Worker → Worker
acknowledge w = if w.active == 1 then record w { efd_sync = true } else w

module _ {S : Type 0} where
  -- What a reading leads to, `rest` being the loop over the further items.
  abbrev pub or_next : ℕ → Reading × S → Option (ℕ × ℕ) × S → Option (ℕ × ℕ) × S
  or_next src (nothing, t) rest = rest
  or_next src (unreadable, t) rest = rest
  or_next src (event e, t) rest = (some (src, e), t)

  abbrev pub behind : Worker → Pass S → Pass S
  behind w p = record p { workers = w ∷ p.workers }

  abbrev pub fed_or : Worker → List Worker → Option (ℕ × ℕ) × S → Pass S → Pass S
  fed_or w ws (none, t) rest = behind w rest
  fed_or w ws (some (src, e), t) rest = record {
    workers = w ∷ ws;
    world = t;
    feed = some (record { owner = w.owner; src = src; what = e });
  }

module _ {S : Type 0} (read : Item → S → Reading × S) where
  -- The loop over the items of a worker.
  unfoldable pub read_items : List Item → S → Option (ℕ × ℕ) × S
  read_items [] s = (none, s)
  read_items (i ∷ is) s = let rest = read_items is (read i s).1 in or_next i.src (read i s) rest

  -- The loops over the workers, which end with the first event.
  unfoldable pub pass_over : List Worker → S → Pass S
  unfolding read_items
  pass_over [] s = record { workers = []; world = s; feed = none }
  pass_over (w ∷ ws) s =
      let (o, t) = read_items w.items s in
      let skipped = behind (acknowledge w) (pass_over ws s) in
      let rest = fed_or w ws (o, t) (pass_over ws t) in if ltb w.active 2 then skipped else rest

  -- The pass over `ys` behind a pass over the workers before them.
  abbrev pub go_on : Pass S → Option Feed → List Worker → Pass S
  go_on p none ys = let q = pass_over ys p.world in record q { workers = p.workers ++ q.workers }
  go_on p (some f) ys = record { workers = p.workers ++ ys; world = p.world; feed = some f }

  go_on-behind :
      (w : Worker) (p : Pass S) (f : Option Feed) (ys : List Worker)
      → behind w (go_on p f ys) ≡ go_on (behind w p) f ys
  go_on-behind w p none ys = refl
  go_on-behind w p (some f) ys = refl

  fed_or-append :
      (w : Worker) (xs ys : List Worker) (o : Option (ℕ × ℕ)) (t : S) (p : Pass S)
      → fed_or w (xs ++ ys) (o, t) (go_on p p.feed ys)
        ≡ go_on (fed_or w xs (o, t) p) (fed_or w xs (o, t) p).feed ys
  fed_or-append w xs ys none t p = go_on-behind w p p.feed ys
  fed_or-append w xs ys (some (src, e)) t p = refl

  -- A pass over two groups of workers looks at the second only if the first gave no event.
  pub pass_over-append :
      (xs ys : List Worker) (s : S)
      → pass_over (xs ++ ys) s ≡ go_on (pass_over xs s) (pass_over xs s).feed ys
  unfolding pass_over
  pass_over-append [] ys s = refl
  pass_over-append (w ∷ xs) ys s = elim (Bool-cases (ltb w.active 2)) [
    | inl h ↦ rw h (
        ap (behind (acknowledge w)) (pass_over-append xs ys s)
        ∙ go_on-behind (acknowledge w) (pass_over xs s) (pass_over xs s).feed ys)
    | inr h ↦
        let r = read_items w.items s in
        rw h (
          ap (fed_or w (xs ++ ys) r) (pass_over-append xs ys r.1)
          ∙ fed_or-append w xs ys r.0 r.1 (pass_over xs r.1))
  ]
