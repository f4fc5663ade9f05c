-- ===== src/Egress/Front.antt =====
-- `nn_sofi_egress_mark_free` moves a context to the first place of the sequence.
use nanomsg_transport_ofi.Links.{Linked-at}
use nanomsg_transport_ofi.Prelude.{
  last_of, contains-last, contains-head, contains-tail, distinct-tail, first-other, not-first,
  last_of-append, distinct-middle, distinct-right, contains-left, contains-right, apart-sym,
  last_of-nil, ℕ, ◌≡◌, Bool, true, false, none, some, List, [], ◌∷◌, ◌++◌, arith, refl, contains,
  ◌==◌, subst, sym, ap, if◌then◌else◌, ◌∙◌,
}
use nanomsg_transport_ofi.Egress.{
  Egress, mark_free, push_head, pop_tail, unlink, set_next, set_prev, as_first,
}
use nanomsg_transport_ofi.Egress.Count.{is_busy}
use nanomsg_transport_ofi.Egress.Chain.{IsChain, links_of}
use nanomsg_transport_ofi.Egress.Freed.{Frees, Frees-Linked}

if-last :
    {A : Type 0} (a b d : Bool) (x y z w : A)
    → a ≡ false
    → b ≡ false
    → d ≡ false
    → (if a then x else if b then y else if d then z else w) ≡ w
if-last a b d x y z w i j k = rw i (rw j (rw k refl))

module _ {M H S : Type 0} where
  abbrev from_tail : Egress M H S → ℕ → ℕ → Egress M H S
  from_tail e c t =
      push_head (record e { contexts = set_prev (set_next e.contexts t none) c none; tail = t }) c

  from_tail-Frees :
      (e : Egress M H S) (c t : ℕ)
      → (e.head == c) ≡ false
      → (t == c) ≡ false
      → Frees e.contexts (from_tail e c t).contexts c e.head t []
  from_tail-Frees e c t n m = record {
    start = ground arith;
    follow = ground arith;
    second = ground arith;
    gap = ground arith;
    back = refl;
    prevs = λ j a b d. ground arith;
    nexts = λ j a b. ground arith;
  }

  from_tail-mark_free :
      (e : Egress M H S) (c t : ℕ)
      → is_busy (e.contexts c) ≡ false
      → e.tail ≡ c
      → (e.contexts c).prev ≡ some t
      → mark_free e c ≡ some (from_tail e c t)
  unfolding mark_free
  from_tail-mark_free e c t b k p =
      let q : (c == e.tail) ≡ true = ground arith in rw b (rw q (ap (pop_tail e c) p))

  abbrev from_middle : Egress M H S → ℕ → ℕ → ℕ → Egress M H S
  from_middle e c y t =
      let cs = set_next (set_prev e.contexts y (some t)) t (some y) in
      as_first (push_head (record e { contexts = cs }) c) c

  from_middle-Frees :
      (e : Egress M H S) (c y t : ℕ) (ys : List ℕ)
      → (e.head == c) ≡ false
      → (t == c) ≡ false
      → (y == c) ≡ false
      → (y == e.head) ≡ false
      → Frees e.contexts (from_middle e c y t).contexts c e.head t (y ∷ ys)
  from_middle-Frees e c y t ys n m k l = record {
    start = ground arith;
    follow = ground arith;
    second = ground arith;
    gap = ground arith;
    back = ground arith;
    prevs = λ j a b d. ground arith;
    nexts = λ j a b. ground arith;
  }

  from_middle-mark_free :
      (e : Egress M H S) (c y t : ℕ)
      → is_busy (e.contexts c) ≡ false
      → (c == e.tail) ≡ false
      → (c == e.head) ≡ false
      → (e.contexts c).prev ≡ some t
      → (e.contexts c).next ≡ some y
      → mark_free e c ≡ some (from_middle e c y t)
  unfolding mark_free
  from_middle-mark_free e c y t b k h p n =
      if-last (is_busy (e.contexts c)) (c == e.tail) (c == e.head) _ _ _ _ b k h
      ∙ ap (unlink e c (e.contexts c).next) p
      ∙ ap (λ z. unlink e c z (some t)) n

  -- `nn_sofi_egress_mark_free` of a context that is not busy and not the first of the sequence
  -- succeeds, and moves it to the first place; the order of the others stays.
  pub mark_free-IsChain :
      (e : Egress M H S) (x c : ℕ) (xs ys : List ℕ)
      → IsChain e x (xs ++ c ∷ ys)
      → is_busy (e.contexts c) ≡ false
      → (f : Egress M H S) × (mark_free e c ≡ some f) × IsChain f c ((x ∷ xs) ++ ys)
  unfolding mark_free
  mark_free-IsChain e x c xs [] h b =
      let t = last_of x xs in
      let v = distinct-middle c (x ∷ xs) [] h.distinct in
      let a = Linked-at (links_of e.contexts) x c none xs [] h.links in
      let n =
        subst (λ z. (z == c) ≡ false) (sym h.head)
          (not-first c x ((x ∷ xs) ++ []) v (contains-head x (xs ++ []))) in
      let m = not-first c t ((x ∷ xs) ++ []) v (contains-left t (x ∷ xs) [] (contains-last x xs)) in
      let r =
        subst (λ z. Frees e.contexts (from_tail e c t).contexts c z t []) h.head
          (from_tail-Frees e c t n m) in
      (
        from_tail e c t,
        from_tail-mark_free e c t b (h.tail ∙ last_of-append x c xs []) a.0,
        record {
          head = refl;
          tail = sym (last_of-nil x xs);
          links = Frees-Linked e.contexts (from_tail e c t).contexts c x xs [] r h.links h.distinct;
          distinct = v;
        },
      )
  mark_free-IsChain e x c xs (y ∷ ys) h b =
      let t = last_of x xs in
      let v = distinct-middle c (x ∷ xs) (y ∷ ys) h.distinct in
      let w = distinct-tail c ((x ∷ xs) ++ y ∷ ys) v in
      let a = Linked-at (links_of e.contexts) x c none xs (y ∷ ys) h.links in
      let i = contains-right y xs (y ∷ ys) (contains-head y ys) in
      let n =
        subst (λ z. (z == c) ≡ false) (sym h.head)
          (not-first c x ((x ∷ xs) ++ y ∷ ys) v (contains-head x (xs ++ y ∷ ys))) in
      let m =
        not-first c t ((x ∷ xs) ++ y ∷ ys) v
          (contains-left t (x ∷ xs) (y ∷ ys) (contains-last x xs)) in
      let k = not-first c y ((x ∷ xs) ++ y ∷ ys) v (contains-tail y x (xs ++ y ∷ ys) i) in
      let l = subst (λ z. (y == z) ≡ false) (sym h.head) (not-first x y (xs ++ y ∷ ys) w i) in
      let r =
        subst (λ z. Frees e.contexts (from_middle e c y t).contexts c z t (y ∷ ys)) h.head
          (from_middle-Frees e c y t ys n m k l) in
      let q : last_of y ys ≡ e.tail = sym (h.tail ∙ last_of-append x c xs (y ∷ ys)) in
      let o =
        first-other c e.tail (y ∷ ys) (distinct-right (x ∷ xs) (c ∷ y ∷ ys) h.distinct)
          (subst (λ z. contains z (y ∷ ys) ≡ true) q (contains-last y ys)) in
      (
        from_middle e c y t,
        from_middle-mark_free e c y t b o (apart-sym e.head c n) a.0 a.1,
        record {
          head = refl;
          tail = sym q ∙ sym (last_of-append x y xs ys);
          links =
              Frees-Linked e.contexts (from_middle e c y t).contexts c x xs (y ∷ ys) r h.links
                h.distinct;
          distinct = v;
        },
      )
