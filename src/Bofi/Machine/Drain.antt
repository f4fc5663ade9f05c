-- ===== src/Bofi/Machine/Drain.antt =====
-- How the bound endpoint listens, and how it stops.
use nanomsg_transport_ofi.Prelude.{
  ◌++◌, ◌==◌, ◌||◌, contains, distinct, subst, ℕ, ◌≡◌, Bool, true, false, ◌&&◌, ℤ, is_zero, List,
  [], ◌∷◌, arith, ltb, refl, ap, ◌∙◌, update,
}
use nanomsg_transport_ofi.Bofi.Offsets.{Offsets, free_offset}
use nanomsg_transport_ofi.Bofi.Machine.{
  State, active, stopping, idle, Source, fsm_action, sofi, Kind, start, stop, sofi_stopped, Pep,
  opened, null, freed, Sofi, bad_pep, Parts, Bofi, done, fault, stop_all, erase, addresses,
  finish_shutdown, open_pep, Outcome,
}
use nanomsg_transport_ofi.Bofi.Machine.Handler.{handler, shutdown}

-- An endpoint in the active state has an open passive endpoint.
abbrev pub Listens : State → Pep → Type 0
Listens active pep = pep ≡ opened
Listens idle pep = pep ≡ pep
Listens stopping pep = pep ≡ pep

-- Every streaming endpoint of the list holds a slot of the array.
abbrev pub slots : Offsets → List Sofi → Bool
slots o [] = true
slots o (s ∷ ss) = ltb s.offset o.size && slots o ss

-- The reports `rs` come from the endpoints `ss`, one from each, in any order.
abbrev pub Order : List Sofi → List Sofi → Type 0
Order ss [] = ss ≡ []
Order ss (r ∷ rs) = (xs : List Sofi) × (ys : List Sofi) × (ss ≡ xs ++ r ∷ ys) × Order (xs ++ ys) rs

erase-middle :
    (r : Sofi) (xs ys : List Sofi)
    → contains r.address (addresses xs) ≡ false
    → erase r.address (xs ++ r ∷ ys) ≡ xs ++ ys
unfolding erase
erase-middle r [] ys h = ground arith
erase-middle r (x ∷ xs) ys h = ground (arith, erase-middle r xs ys)

contains-middle :
    (a : ℕ) (r : Sofi) (xs ys : List Sofi)
    → contains a (addresses (xs ++ r ∷ ys)) ≡ (r.address == a || contains a (addresses (xs ++ ys)))
contains-middle a r [] ys = refl
contains-middle a r (x ∷ xs) ys = ground (arith, contains-middle a r xs ys)

distinct-middle :
    (r : Sofi) (xs ys : List Sofi)
    → distinct (addresses (xs ++ r ∷ ys)) ≡ true
    → (contains r.address (addresses xs) ≡ false) × (distinct (addresses (xs ++ ys)) ≡ true)
distinct-middle r [] ys h = ground (arith, h)
distinct-middle r (x ∷ xs) ys h =
    ground (arith, h, distinct-middle r xs ys, contains-middle x.address r xs ys)

slots-middle :
    (o : Offsets) (r : Sofi) (xs ys : List Sofi)
    → slots o (xs ++ r ∷ ys) ≡ true
    → (ltb r.offset o.size ≡ true) × (slots o (xs ++ ys) ≡ true)
slots-middle o r [] ys h = ground (arith, h)
slots-middle o r (x ∷ xs) ys h = ground (arith, h, slots-middle o r xs ys)

module _ {S : Type 0} (parts : Parts S) where
  open parts use {worker_stop, set_error, pep_release, sofi_term, fsm_stopped, epbase_stopped}

  -- The handler keeps it true that the passive endpoint is open in the active state.
  pub handler-Listens :
      (b d : Bofi S) (src : Source) (kind : Kind) (s : Sofi)
      → Listens b.state b.pep
      → handler parts b src kind s ≡ done d
      → Listens d.state d.pep
  unfolding handler
  handler-Listens b d src kind s l h = ground arith

  -- If the first passive endpoint cannot be opened, the error path closes the passive endpoint,
  -- which is not open, and the process ends.
  pub open_fails :
      (b : Bofi S) (s : Sofi) (ret : ℤ) (pep : Pep) (w : S)
      → b.state ≡ idle
      → open_pep parts b.pep (worker_stop b.world) ≡ (ret, pep, w)
      → b.pep ≡ null
      → is_zero ret ≡ false
      → handler parts b fsm_action start s ≡ fault bad_pep
  unfolding handler
  open_fails b s ret pep w i h n e = ground arith

  -- The events by which the streaming endpoints report, one after the other.
  pub drain : Outcome S → List Sofi → Outcome S
  drain o [] = o
  drain (fault f) (s ∷ ss) = fault f
  drain (done b) (s ∷ ss) = drain (shutdown parts b sofi sofi_stopped s) ss

  abbrev pub term_all : List Sofi → S → S
  term_all [] w = w
  term_all (s ∷ ss) w = term_all ss (sofi_term s w)

  abbrev pub free_all : List Sofi → (ℕ → Bool) → ℕ → Bool
  free_all [] u = u
  free_all (s ∷ ss) u = free_all ss (update u s.offset false)

  -- The endpoint after the report of `r`, with `ss` in its list.
  abbrev reaped : Bofi S → Sofi → List Sofi → Bofi S
  reaped b r ss = record b {
    offsets = record b.offsets { used = update b.offsets.used r.offset false };
    sofis = ss;
    world = sofi_term r b.world;
  }

  reap-middle :
      (b : Bofi S) (r : Sofi) (xs ys : List Sofi)
      → b.sofis ≡ xs ++ r ∷ ys
      → distinct (addresses (xs ++ r ∷ ys)) ≡ true
      → ltb r.offset b.offsets.size ≡ true
      → shutdown parts b sofi sofi_stopped r ≡ finish_shutdown parts (reaped b r (xs ++ ys))
  unfolding shutdown free_offset
  reap-middle b r xs ys q d l =
      let e = erase-middle r xs ys (distinct-middle r xs ys d).0 in
      let c : contains r.address (addresses (xs ++ r ∷ ys)) ≡ true =
        ground (arith, contains-middle r.address r xs ys) in
      rw (l, q, c, e) refl

  finish-more :
      (b : Bofi S) (xs ys : List Sofi) (r : Sofi)
      → b.sofis ≡ xs ++ r ∷ ys
      → finish_shutdown parts b ≡ done b
  finish-more b [] ys r q = rw q refl
  finish-more b (x ∷ xs) ys r q = rw q refl

  drain-all :
      (b : Bofi S) (r : Sofi) (rs ss : List Sofi)
      → b.sofis ≡ ss
      → Order ss (r ∷ rs)
      → distinct (addresses ss) ≡ true
      → slots b.offsets ss ≡ true
      → drain (done b) (r ∷ rs)
        ≡ done (record {
          state = b.state;
          pep = b.pep;
          offsets = record b.offsets { used = free_all (r ∷ rs) b.offsets.used };
          sofis = [];
          world = epbase_stopped (fsm_stopped (term_all (r ∷ rs) b.world));
        })
  unfolding drain
  drain-all b r [] ss p (xs, ys, q, n) d l =
      let d' : distinct (addresses (xs ++ r ∷ ys)) ≡ true =
        subst (λ z. distinct (addresses z) ≡ true) q d in
      let l' = slots-middle b.offsets r xs ys (subst (λ z. slots b.offsets z ≡ true) q l) in
      reap-middle b r xs ys (p ∙ q) d' l'.0 ∙ ap (λ z. finish_shutdown parts (reaped b r z)) n
  drain-all b r (s ∷ rs) ss p (xs, ys, q, (us, vs, u, o)) d l =
      let d' : distinct (addresses (xs ++ r ∷ ys)) ≡ true =
        subst (λ z. distinct (addresses z) ≡ true) q d in
      let l' = slots-middle b.offsets r xs ys (subst (λ z. slots b.offsets z ≡ true) q l) in
      let next : Bofi S = reaped b r (xs ++ ys) in
      ap (λ z. drain z (s ∷ rs))
        (reap-middle b r xs ys (p ∙ q) d' l'.0 ∙ finish-more next us vs s u)
      ∙ drain-all next s rs (xs ++ ys) refl (us, vs, u, o) (distinct-middle r xs ys d').1 l'.1

  -- A stop with an open passive endpoint and at least one connection closes the passive endpoint
  -- and stops every streaming endpoint; once each has reported that it stopped, in any order, all are
  -- terminated, the list is empty, their offsets are free, and nanomsg is told that the endpoint has
  -- stopped. The endpoints of the list have to be different, and their offsets slots of the array.
  pub stop-drains :
      (b : Bofi S) (r : Sofi) (rs : List Sofi)
      → b.pep ≡ opened
      → Order b.sofis (r ∷ rs)
      → distinct (addresses b.sofis) ≡ true
      → slots b.offsets b.sofis ≡ true
      → drain (shutdown parts b fsm_action stop r) (r ∷ rs)
        ≡ done (record {
          state = stopping;
          pep = freed;
          offsets = record b.offsets { used = free_all (r ∷ rs) b.offsets.used };
          sofis = [];
          world =
              epbase_stopped
                (fsm_stopped (term_all (r ∷ rs) (stop_all parts b.sofis (pep_release b.world))));
        })
  unfolding shutdown
  stop-drains b r rs e (xs, ys, q, o) d l =
      let a : Bofi S = record b {
        state = stopping;
        pep = freed;
        world = stop_all parts b.sofis (pep_release b.world);
      } in
      let s : shutdown parts b fsm_action stop r ≡ finish_shutdown parts a = rw e refl in
      ap (λ z. drain z (r ∷ rs)) (s ∙ finish-more a xs ys r q)
      ∙ drain-all a r rs b.sofis refl (xs, ys, q, o) d l
