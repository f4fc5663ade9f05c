-- ===== src/Egress/Chain.antt =====
-- The list of contexts as a sequence: what its pointers represent.
use nanomsg_transport_ofi.Links.{Links, Linked, Linked-snoc}
use nanomsg_transport_ofi.Prelude.{
  last_of, distinct, contains-last, contains-head, contains-tail, distinct-tail, first-other,
  not-first, last_of-snoc, distinct-snoc, ℕ, ◌≡◌, true, false, none, some, List, [], ◌∷◌, ◌++◌,
  arith, refl, contains, ◌==◌, subst, sym,
}
use nanomsg_transport_ofi.Egress.{Ctx, Egress, mark_busy, push_tail, set_next, set_prev}
use nanomsg_transport_ofi.Egress.Count.{is_busy}

module _ {M H : Type 0} where
  -- The pointers of the contexts.
  abbrev pub links_of : (ℕ → Ctx M H) → Links
  links_of cs = record { next = λ i. (cs i).next; prev = λ i. (cs i).prev }

module _ {M H S : Type 0} where
  -- The queue represents the sequence `x ∷ xs`.
  pub record IsChain (e : Egress M H S) (x : ℕ) (xs : List ℕ) : Type 0 where
    pub head : e.head ≡ x
    pub tail : e.tail ≡ last_of x xs
    pub links : Linked (links_of e.contexts) none (x ∷ xs)
    pub distinct : distinct (x ∷ xs) ≡ true

module _ {M H S : Type 0} where
  -- The queue after the first context `c`, which `d` follows, moved to the end.
  abbrev pub moved : Egress M H S → ℕ → ℕ → Egress M H S
  moved e c d =
      let g = push_tail e c in
      record g { contexts = set_next (set_prev g.contexts d none) c none; head = d }

  moved-prev :
      (e : Egress M H S) (c d j : ℕ)
      → (j == c) ≡ false
      → (j == d) ≡ false
      → ((moved e c d).contexts j).prev ≡ (e.contexts j).prev
  moved-prev e c d j n m = ground arith

  moved-next :
      (e : Egress M H S) (c d j : ℕ)
      → (j == c) ≡ false
      → (j == e.tail) ≡ false
      → ((moved e c d).contexts j).next ≡ (e.contexts j).next
  moved-next e c d j n m = ground arith

  moved-ends :
      (e : Egress M H S) (c d : ℕ)
      → (c == d) ≡ false
      → (c == e.tail) ≡ false
      → (((moved e c d).contexts c).prev ≡ some e.tail)
        × (((moved e c d).contexts c).next ≡ none)
        × (((moved e c d).contexts e.tail).next ≡ some c)
        × (((moved e c d).contexts d).prev ≡ none)
  moved-ends e c d n m = (ground arith, ground arith, ground arith, ground arith)

  pub moved-mark_busy :
      (e : Egress M H S) (c d : ℕ)
      → e.head ≡ c
      → (e.contexts c).next ≡ some d
      → (c == e.tail) ≡ false
      → is_busy (e.contexts c) ≡ true
      → mark_busy e c ≡ some (moved e c d)
  unfolding mark_busy
  moved-mark_busy e c d h n m b = ground arith

  -- `nn_sofi_egress_mark_busy` of a context that holds a memory region succeeds when the context is
  -- the first of at least two, and moves it from the first place of the sequence to the last.
  pub mark_busy-IsChain :
      (e : Egress M H S) (c d : ℕ) (xs : List ℕ)
      → IsChain e c (d ∷ xs)
      → is_busy (e.contexts c) ≡ true
      → (f : Egress M H S) × (mark_busy e c ≡ some f) × IsChain f d (xs ++ c ∷ [])
  mark_busy-IsChain e c d xs h b =
      let l = h.links in
      let q : last_of d xs ≡ e.tail = sym h.tail in
      let k = subst (λ x. contains x (d ∷ xs) ≡ true) q (contains-last d xs) in
      let t = first-other c e.tail (d ∷ xs) h.distinct k in
      let n = first-other c d (d ∷ xs) h.distinct (contains-head d xs) in
      let u = distinct-tail c (d ∷ xs) h.distinct in
      let z = moved-ends e c d n t in
      let f = moved e c d in
      let g =
        Linked-snoc (links_of e.contexts) (links_of f.contexts) c d e.tail (some c) none xs l.2 u q
          z.0 z.1 z.2 z.3
          (λ j m.
            moved-prev e c d j (not-first c j (d ∷ xs) h.distinct (contains-tail j d xs m))
              (not-first d j xs u m))
          (λ j m o. moved-next e c d j (not-first c j (d ∷ xs) h.distinct m) o) in
      (
        f,
        moved-mark_busy e c d h.head l.1 t b,
        record {
          head = refl;
          tail = sym (last_of-snoc c d xs);
          links = g;
          distinct = distinct-snoc c (d ∷ xs) h.distinct;
        },
      )
