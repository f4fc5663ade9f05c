-- ===== src/Egress/Freed.antt =====
-- The pointers after a context was freed, and the sequence that they represent.
use nanomsg_transport_ofi.Links.{Linked, Linked-at, Linked-frame, Linked-cut}
use nanomsg_transport_ofi.Prelude.{
  first_of, last_of, distinct, contains-last, contains-head, contains-tail, distinct-tail,
  first-other, not-first, distinct-middle, distinct-left, distinct-apart, distinct-right,
  contains-left, contains-right, apart-sym, is_first, is_first-apart, ℕ, ◌≡◌, true, false, none,
  some, List, [], ◌∷◌, ◌++◌, refl, contains, ◌==◌, ◌∙◌,
}
use nanomsg_transport_ofi.Egress.{Ctx}
use nanomsg_transport_ofi.Egress.Chain.{links_of}

module _ {M H : Type 0} where
  abbrev pub PointsBack : (ℕ → Ctx M H) → ℕ → List ℕ → Type 0
  PointsBack ds t [] = t ≡ t
  PointsBack ds t (y ∷ ys) = (ds y).prev ≡ some t

  -- How freeing `c`, which stands between `t` and `ys`, changes the pointers; `x` was the head.
  pub record Frees (cs ds : ℕ → Ctx M H) (c x t : ℕ) (ys : List ℕ) : Type 0 where
    pub start : (ds c).prev ≡ none
    pub follow : (ds c).next ≡ some x
    pub second : (ds x).prev ≡ some c
    pub gap : (ds t).next ≡ first_of ys
    pub back : PointsBack ds t ys
    pub prevs :
        (j : ℕ)
        → (j == c) ≡ false
        → (j == x) ≡ false
        → is_first j ys ≡ false
        → (ds j).prev ≡ (cs j).prev
    pub nexts : (j : ℕ) → (j == c) ≡ false → (j == t) ≡ false → (ds j).next ≡ (cs j).next

  back-Linked :
      (cs ds : ℕ → Ctx M H) (c x t : ℕ) (ys : List ℕ)
      → Frees cs ds c x t ys
      → Linked (links_of cs) (some c) ys
      → distinct ys ≡ true
      → ((j : ℕ) → contains j ys ≡ true → (j == c) ≡ false)
      → ((j : ℕ) → contains j ys ≡ true → (j == x) ≡ false)
      → ((j : ℕ) → contains j ys ≡ true → (j == t) ≡ false)
      → Linked (links_of ds) (some t) ys
  back-Linked cs ds c x t [] f l u nc nx nt = refl
  back-Linked cs ds c x t (y ∷ ys) f l u nc nx nt =
      let h = contains-head y ys in
      (
        f.back,
        f.nexts y (nc y h) (nt y h) ∙ l.1,
        Linked-frame (links_of cs) (links_of ds) (some y) ys l.2
            (λ j m.
              let k = contains-tail j y ys m in
              f.prevs j (nc j k) (nx j k) (first-other y j ys u m))
            (λ j m. let k = contains-tail j y ys m in f.nexts j (nc j k) (nt j k)),
      )

  pub Frees-Linked :
      (cs ds : ℕ → Ctx M H) (c x : ℕ) (xs ys : List ℕ)
      → Frees cs ds c x (last_of x xs) ys
      → Linked (links_of cs) none ((x ∷ xs) ++ c ∷ ys)
      → distinct ((x ∷ xs) ++ c ∷ ys) ≡ true
      → Linked (links_of ds) none (c ∷ (x ∷ xs) ++ ys)
  Frees-Linked cs ds c x xs ys f l u =
      let v = distinct-middle c (x ∷ xs) ys u in
      let w = distinct-tail c ((x ∷ xs) ++ ys) v in
      let b =
        back-Linked cs ds c x (last_of x xs) ys f (Linked-at (links_of cs) x c none xs ys l).2
          (distinct-right (x ∷ xs) ys w)
          (λ j m. not-first c j ((x ∷ xs) ++ ys) v (contains-right j (x ∷ xs) ys m))
          (λ j m. not-first x j (xs ++ ys) w (contains-right j xs ys m))
          (λ j m.
            apart-sym (last_of x xs) j
              (distinct-apart (last_of x xs) j (x ∷ xs) ys w (contains-last x xs) m)) in
      (
        f.start,
        f.follow,
        Linked-cut (links_of cs) (links_of ds) c x (last_of x xs) none (some c) xs ys l
            (distinct-left (x ∷ xs) ys w) refl f.second f.gap b
            (λ j m.
              f.prevs j
                (not-first c j ((x ∷ xs) ++ ys) v
                  (contains-left j (x ∷ xs) ys (contains-tail j x xs m)))
                (not-first x j (xs ++ ys) w (contains-left j xs ys m))
                (is_first-apart j xs ys (distinct-tail x (xs ++ ys) w) m))
            (λ j m o.
              f.nexts j (not-first c j ((x ∷ xs) ++ ys) v (contains-left j (x ∷ xs) ys m)) o),
      )
