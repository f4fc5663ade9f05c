-- ===== src/Ingress/Linking.antt =====
-- A list after a member was put in or taken out, and the lists beside it.
use nanomsg_transport_ofi.Prelude.{
  ℕ, ◌≡◌, true, false, Option, none, some, List, [], ◌∷◌, ◌++◌, arith, refl, count, contains,
  contains-head, contains-tail, first_of, last_of, apart-sym, ◌∙◌, contains-last,
}
use nanomsg_transport_ofi.Links.{Links, Linked, Linked-frame, Linked-at, Linked-cut, Linked-snoc}
use nanomsg_transport_ofi.Ingress.{points_to, unshift, append}
use nanomsg_transport_ofi.Ingress.Pointers.{
  Sole, Sole-tail, Sole-head, distinct-Sole, other-count, first-count, last_opt, unshift-prev,
  unshift-next, append-prev, append-next, shift_to, shift_to-prev, shift_to-next, unlink_at,
  append-ends, unlink_at-gap, unlink_at-back, Sole-left, Sole-right, Sole-apart, unlink_at-prev,
  unlink_at-next,
}

-- None of the list is the one that the pointer names.
abbrev pub Misses : Option ℕ → List ℕ → Type 0
Misses h xs = (j : ℕ) → contains j xs ≡ true → points_to h j ≡ false

count-rest : (j b : ℕ) (xs : List ℕ) → count j (b ∷ xs) ≡ 0 → count j xs ≡ 0
count-rest j b xs h = ground (arith, h)

module _ (l : Links) (b : ℕ) where
  pub unshift-frame :
      (h p : Option ℕ) (xs : List ℕ)
      → Linked l p xs
      → count b xs ≡ 0
      → Misses h xs
      → Linked (unshift l h b) p xs
  unshift-frame h p xs k n m =
      Linked-frame l (unshift l h b) p xs k
        (λ j i. unshift-prev l b h j (other-count b j xs n i) (m j i))
        (λ j i. unshift-next l b h j (other-count b j xs n i))

  pub append-frame :
      (t p : Option ℕ) (xs : List ℕ)
      → Linked l p xs
      → count b xs ≡ 0
      → Misses t xs
      → Linked (append l t b) p xs
  append-frame t p xs k n m =
      Linked-frame l (append l t b) p xs k (λ j i. append-prev l b t j (other-count b j xs n i))
        (λ j i. append-next l b t j (other-count b j xs n i) (m j i))

  pub shift_to-frame :
      (n p : Option ℕ) (xs : List ℕ)
      → Linked l p xs
      → count b xs ≡ 0
      → Misses n xs
      → Linked (shift_to l b n) p xs
  shift_to-frame n p xs k z m =
      Linked-frame l (shift_to l b n) p xs k
        (λ j i. shift_to-prev l b n j (other-count b j xs z i) (m j i))
        (λ j i. shift_to-next l b n j (other-count b j xs z i))

  pub unlink_at-frame :
      (n q p : Option ℕ) (xs : List ℕ)
      → Linked l p xs
      → Misses n xs
      → Misses q xs
      → Linked (unlink_at l b n q) p xs
  unlink_at-frame n q p xs k m o =
      Linked-frame l (unlink_at l b n q) p xs k (λ j i. unlink_at-prev l b n q j (m j i))
        (λ j i. unlink_at-next l b n q j (o j i))

  pub unshift-Linked :
      (xs : List ℕ)
      → Linked l none xs
      → count b xs ≡ 0
      → Sole xs
      → Linked (unshift l (first_of xs) b) none (b ∷ xs)
  unshift-Linked [] k n s = (ground arith, ground arith, refl)
  unshift-Linked (x ∷ xs) k n s =
      let o = other-count b x (x ∷ xs) n (contains-head x xs) in
      let z : count b xs ≡ 0 = ground (arith, n) in
      (
        ground arith,
        ground arith,
        (
          ground (arith, o),
          unshift-next l b (some x) x o ∙ k.1,
          unshift-frame (some x) (some x) xs k.2 z
              (λ j i. ground (arith, other-count x j xs (Sole-head x xs s) i)),
        ),
      )

  pub shift_to-Linked :
      (xs : List ℕ)
      → Linked l none (b ∷ xs)
      → Sole (b ∷ xs)
      → Linked (shift_to l b (first_of xs)) none xs
  shift_to-Linked [] k s = refl
  shift_to-Linked (x ∷ xs) k s =
      let n = Sole-head b (x ∷ xs) s in
      let u = Sole-tail b (x ∷ xs) s in
      let o = other-count b x (x ∷ xs) n (contains-head x xs) in
      let z : count b xs ≡ 0 = ground (arith, n) in
      (
        ground (arith, o),
        shift_to-next l b (some x) x o ∙ k.2.1,
        shift_to-frame (some x) (some x) xs k.2.2 z
            (λ j i. ground (arith, other-count x j xs (Sole-head x xs u) i)),
      )

  pub append-Linked :
      (xs : List ℕ)
      → Linked l none xs
      → count b xs ≡ 0
      → Sole xs
      → Linked (append l (last_opt xs) b) none (xs ++ b ∷ [])
  append-Linked [] k n s = (ground arith, ground arith, refl)
  append-Linked (x ∷ xs) k n s =
      let t = last_of x xs in
      let o = other-count b t (x ∷ xs) n (contains-last x xs) in
      let e = append-ends l b t o in
      let ox = other-count b x (x ∷ xs) n (contains-head x xs) in
      Linked-snoc l (append l (some t) b) b x t none none xs k (distinct-Sole (x ∷ xs) s) refl e.0
        e.1 e.2 (append-prev l b (some t) x ox ∙ k.0)
        (λ j i. append-prev l b (some t) j (other-count b j (x ∷ xs) n (contains-tail j x xs i)))
        (λ j i m. append-next l b (some t) j (other-count b j (x ∷ xs) n i) (apart-sym j t m))

  unlink_at-rest :
      (t : ℕ) (ys : List ℕ)
      → Linked l (some b) ys
      → Sole ys
      → count t ys ≡ 0
      → Linked (unlink_at l b (first_of ys) (some t)) (some t) ys
  unlink_at-rest t [] k s n = refl
  unlink_at-rest t (y ∷ ys) k s n =
      let z : count t ys ≡ 0 = ground (arith, n) in
      (
        unlink_at-back l b y t,
        unlink_at-next l b (some y) (some t) y (ground (arith, n)) ∙ k.1,
        unlink_at-frame (some y) (some t) (some y) ys k.2
            (λ j i. ground (arith, other-count y j ys (Sole-head y ys s) i))
            (λ j i. ground (arith, other-count t j ys z i)),
      )

  -- The member `b` in the middle is left out.
  pub unlink_at-Linked :
      (x : ℕ) (xs ys : List ℕ)
      → Linked l none ((x ∷ xs) ++ b ∷ ys)
      → Sole ((x ∷ xs) ++ b ∷ ys)
      → Linked (unlink_at l b (first_of ys) (some (last_of x xs))) none ((x ∷ xs) ++ ys)
  unlink_at-Linked x xs ys k s =
      let t = last_of x xs in
      let u = Sole-left (x ∷ xs) (b ∷ ys) s in
      let v = Sole-right (x ∷ xs) (b ∷ ys) s in
      let out = λ (j : ℕ) (i : contains j (x ∷ xs) ≡ true). Sole-apart j (x ∷ xs) (b ∷ ys) s i in
      let miss = λ (j : ℕ) (i : contains j (x ∷ xs) ≡ true).
        first-count j ys (count-rest j b ys (out j i)) in
      Linked-cut l (unlink_at l b (first_of ys) (some t)) b x t none none xs ys k
        (distinct-Sole (x ∷ xs) u) refl
        (unlink_at-prev l b (first_of ys) (some t) x (miss x (contains-head x xs)) ∙ k.0)
        (unlink_at-gap l b (first_of ys) t)
        (unlink_at-rest t ys (Linked-at l x b none xs ys k).2 (Sole-tail b ys v)
          (count-rest t b ys (out t (contains-last x xs))))
        (λ j i. unlink_at-prev l b (first_of ys) (some t) j (miss j (contains-tail j x xs i)))
        (λ j i m. unlink_at-next l b (first_of ys) (some t) j (ground (arith, m)))
