-- ===== src/Ingress/Pointers.antt =====
-- What the changes of pointers do to the lists.
use nanomsg_transport_ofi.Prelude.{
  ℕ, ◌+◌, ◌≤◌, ◌≡◌, true, false, Option, none, some, List, [], ◌∷◌, ◌++◌, arith, refl, count,
  contains, first_of, last_of, distinct, ◌==◌, subst, Bool-cases, inl, inr, contains-last,
}
use nanomsg_transport_ofi.Links.{Links}
use nanomsg_transport_ofi.Ingress.{
  points_to, detach, end_front, unshift, append, skip_back, skip_ahead,
}

pub count-append : (j : ℕ) (xs ys : List ℕ) → count j (xs ++ ys) ≡ count j xs + count j ys
count-append j [] ys = omega arith
count-append j (x ∷ xs) ys = ground (arith, count-append j xs ys)

pub count-pos : (j : ℕ) (xs : List ℕ) → contains j xs ≡ true → 1 ≤ count j xs
count-pos j [] h = ground (arith, h)
count-pos j (x ∷ xs) h = ground (arith, h, count-pos j xs)

pub not-contains : (j : ℕ) (xs : List ℕ) → count j xs ≡ 0 → contains j xs ≡ false
not-contains j [] h = refl
not-contains j (x ∷ xs) h = ground (arith, h, not-contains j xs)

-- No index stands twice in the list.
abbrev pub Sole : List ℕ → Type 0
Sole xs = (j : ℕ) → count j xs ≤ 1

pub Sole-tail : (x : ℕ) (xs : List ℕ) → Sole (x ∷ xs) → Sole xs
Sole-tail x xs h j = ground (arith, h j)

pub Sole-head : (x : ℕ) (xs : List ℕ) → Sole (x ∷ xs) → count x xs ≡ 0
Sole-head x xs h = ground (arith, h x)

pub distinct-Sole : (xs : List ℕ) → Sole xs → distinct xs ≡ true
distinct-Sole [] h = refl
distinct-Sole (x ∷ xs) h =
    ground (arith, not-contains x xs (Sole-head x xs h), distinct-Sole xs (Sole-tail x xs h))

pub other-count : (b j : ℕ) (xs : List ℕ) → count b xs ≡ 0 → contains j xs ≡ true → (j == b) ≡ false
other-count b j xs h m = elim (Bool-cases (j == b)) [
  | inl e ↦
      let q : j ≡ b = ground (arith, e) in
      let k = count-pos b xs (subst (λ z. contains z xs ≡ true) q m) in ground (arith, h, k)
  | inr e ↦ e
]

pub first-count : (j : ℕ) (xs : List ℕ) → count j xs ≡ 0 → points_to (first_of xs) j ≡ false
first-count j [] h = refl
first-count j (x ∷ xs) h = ground (arith, h)

-- The last member of a list, if there is one.
abbrev pub last_opt : List ℕ → Option ℕ
last_opt [] = none
last_opt (x ∷ xs) = some (last_of x xs)

pub last-count : (j : ℕ) (xs : List ℕ) → count j xs ≡ 0 → points_to (last_opt xs) j ≡ false
last-count j [] h = refl
last-count j (x ∷ xs) h = elim (Bool-cases (last_of x xs == j)) [
  | inl e ↦
      let q : last_of x xs ≡ j = ground (arith, e) in
      let k =
        count-pos j (x ∷ xs) (subst (λ z. contains z (x ∷ xs) ≡ true) q (contains-last x xs)) in
      ground (arith, h, k)
  | inr e ↦ e
]

pub Sole-left : (xs ys : List ℕ) → Sole (xs ++ ys) → Sole xs
Sole-left xs ys s j = omega (arith, s j, count-append j xs ys)

pub Sole-right : (xs ys : List ℕ) → Sole (xs ++ ys) → Sole ys
Sole-right xs ys s j = omega (arith, s j, count-append j xs ys)

pub Sole-apart : (j : ℕ) (xs ys : List ℕ) → Sole (xs ++ ys) → contains j xs ≡ true → count j ys ≡ 0
Sole-apart j xs ys s h = omega (arith, s j, count-append j xs ys, count-pos j xs h)

pub Sole-before : (j : ℕ) (xs ys : List ℕ) → Sole (xs ++ ys) → contains j ys ≡ true → count j xs ≡ 0
Sole-before j xs ys s h = omega (arith, s j, count-append j xs ys, count-pos j ys h)

module _ (l : Links) (b : ℕ) where
  pub unshift-prev :
      (h : Option ℕ) (j : ℕ)
      → (j == b) ≡ false
      → points_to h j ≡ false
      → (unshift l h b).prev j ≡ l.prev j
  unshift-prev none j n m = ground arith
  unshift-prev (some h) j n m = ground arith

  pub unshift-next : (h : Option ℕ) (j : ℕ) → (j == b) ≡ false → (unshift l h b).next j ≡ l.next j
  unshift-next none j n = ground arith
  unshift-next (some h) j n = ground arith

  pub append-prev : (t : Option ℕ) (j : ℕ) → (j == b) ≡ false → (append l t b).prev j ≡ l.prev j
  append-prev none j n = ground arith
  append-prev (some t) j n = ground arith

  pub append-next :
      (t : Option ℕ) (j : ℕ)
      → (j == b) ≡ false
      → points_to t j ≡ false
      → (append l t b).next j ≡ l.next j
  append-next none j n m = ground arith
  append-next (some t) j n m = ground arith

  pub append-ends :
      (t : ℕ)
      → (t == b) ≡ false
      → ((append l (some t) b).prev b ≡ some t)
        × ((append l (some t) b).next b ≡ none)
        × ((append l (some t) b).next t ≡ some b)
  append-ends t n = (ground arith, ground arith, ground (arith, n))

  -- `shift` and `unlink` with the pointers of `b` given.
  abbrev pub shift_to : Option ℕ → Links
  shift_to n = detach (end_front l n) b

  pub shift_to-prev :
      (n : Option ℕ) (j : ℕ)
      → (j == b) ≡ false
      → points_to n j ≡ false
      → (shift_to n).prev j ≡ l.prev j
  shift_to-prev none j k m = ground arith
  shift_to-prev (some n) j k m = ground arith

  pub shift_to-next : (n : Option ℕ) (j : ℕ) → (j == b) ≡ false → (shift_to n).next j ≡ l.next j
  shift_to-next none j k = ground arith
  shift_to-next (some n) j k = ground arith

  abbrev pub unlink_at : Option ℕ → Option ℕ → Links
  unlink_at n p = skip_ahead (skip_back l n p) n p

  pub unlink_at-prev :
      (n p : Option ℕ) (j : ℕ) → points_to n j ≡ false → (unlink_at n p).prev j ≡ l.prev j
  unlink_at-prev none none j m = refl
  unlink_at-prev none (some p) j m = refl
  unlink_at-prev (some n) none j m = ground arith
  unlink_at-prev (some n) (some p) j m = ground arith

  pub unlink_at-next :
      (n p : Option ℕ) (j : ℕ) → points_to p j ≡ false → (unlink_at n p).next j ≡ l.next j
  unlink_at-next none none j m = refl
  unlink_at-next none (some p) j m = ground arith
  unlink_at-next (some n) none j m = refl
  unlink_at-next (some n) (some p) j m = ground arith

  pub unlink_at-gap : (n : Option ℕ) (t : ℕ) → (unlink_at n (some t)).next t ≡ n
  unlink_at-gap none t = ground arith
  unlink_at-gap (some n) t = ground arith

  pub unlink_at-back : (n t : ℕ) → (unlink_at (some n) (some t)).prev n ≡ some t
  unlink_at-back n t = ground arith
