-- ===== src/Prelude/Lists.antt =====
-- Lists of indices without repetition.
use Prim.Native.Nat.{ℕ}
use mathlib.Core.Path.{◌≡◌, refl, subst}
use mathlib.Core.Logic.{inl, inr}
use mathlib.Core.Bool.{Bool, true, false, not, ◌&&◌, ◌||◌}
use mathlib.Core.Option.{Option, none, some}
use mathlib.Core.List.{List, [], ◌∷◌, ◌++◌}
use native.Mathlib.Omega.{arith}
use nanomsg_transport_ofi.Prelude.Tests.{◌==◌, Bool-cases}
use nanomsg_transport_ofi.Prelude.Arrays.{contains, contains-snoc}

abbrev pub first_of : List ℕ → Option ℕ
first_of [] = none
first_of (x ∷ xs) = some x

-- The last of `x ∷ xs`
abbrev pub last_of : ℕ → List ℕ → ℕ
last_of x [] = x
last_of x (y ∷ ys) = last_of y ys

abbrev pub distinct : List ℕ → Bool
distinct [] = true
distinct (x ∷ xs) = not (contains x xs) && distinct xs

pub contains-last : (x : ℕ) (xs : List ℕ) → contains (last_of x xs) (x ∷ xs) ≡ true
contains-last x [] = ground arith
contains-last x (y ∷ ys) = ground (arith, contains-last y ys)

pub contains-head : (y : ℕ) (ys : List ℕ) → contains y (y ∷ ys) ≡ true
contains-head y ys = ground arith

pub contains-tail : (j y : ℕ) (ys : List ℕ) → contains j ys ≡ true → contains j (y ∷ ys) ≡ true
contains-tail j y ys h = ground (arith, h)

pub distinct-tail : (y : ℕ) (ys : List ℕ) → distinct (y ∷ ys) ≡ true → distinct ys ≡ true
distinct-tail y ys h = ground (arith, h)

pub last_of-snoc : (c y : ℕ) (ys : List ℕ) → last_of y (ys ++ c ∷ []) ≡ c
last_of-snoc c y [] = refl
last_of-snoc c y (z ∷ zs) = last_of-snoc c z zs

pub distinct-snoc :
    (c : ℕ) (ys : List ℕ) → distinct (c ∷ ys) ≡ true → distinct (ys ++ c ∷ []) ≡ true
distinct-snoc c [] h = ground arith
distinct-snoc c (y ∷ ys) h = ground (arith, distinct-snoc c ys, contains-snoc y c ys)

pub first-other :
    (y t : ℕ) (ys : List ℕ) → distinct (y ∷ ys) ≡ true → contains t ys ≡ true → (y == t) ≡ false
first-other y t ys u k = elim (Bool-cases (y == t)) [
  | inl e ↦
      let q : t ≡ y = ground (arith, e) in
      let r = subst (λ x. contains x ys ≡ true) q k in ground (arith, u, r)
  | inr e ↦ e
]

pub not-first :
    (y j : ℕ) (ys : List ℕ) → distinct (y ∷ ys) ≡ true → contains j ys ≡ true → (j == y) ≡ false
not-first y j ys u k = ground (arith, first-other y j ys u k)

pub contains-append :
    (j : ℕ) (xs ys : List ℕ) → contains j (xs ++ ys) ≡ (contains j xs || contains j ys)
contains-append j [] ys = refl
contains-append j (x ∷ xs) ys = ground (arith, contains-append j xs ys)

pub last_of-append : (x c : ℕ) (xs ys : List ℕ) → last_of x (xs ++ c ∷ ys) ≡ last_of c ys
last_of-append x c [] ys = refl
last_of-append x c (y ∷ xs) ys = last_of-append y c xs ys

-- What distinctness of `xs ++ c ∷ ys` says of `c`.
pub distinct-middle :
    (c : ℕ) (xs ys : List ℕ) → distinct (xs ++ c ∷ ys) ≡ true → distinct (c ∷ xs ++ ys) ≡ true
distinct-middle c [] ys h = h
distinct-middle c (x ∷ xs) ys h = ground (
  arith,
  h,
  distinct-middle c xs ys,
  contains-append x xs (c ∷ ys),
  contains-append x xs ys,
  contains-append c xs ys,
)

pub distinct-left : (xs ys : List ℕ) → distinct (xs ++ ys) ≡ true → distinct xs ≡ true
distinct-left [] ys h = refl
distinct-left (x ∷ xs) ys h = ground (arith, h, distinct-left xs ys, contains-append x xs ys)

pub distinct-apart :
    (j k : ℕ) (xs ys : List ℕ)
    → distinct (xs ++ ys) ≡ true
    → contains j xs ≡ true
    → contains k ys ≡ true
    → (j == k) ≡ false
distinct-apart j k [] ys h m n = ground (arith, m)
distinct-apart j k (x ∷ xs) ys h m n = elim (Bool-cases (x == j)) [
  | inl e ↦
      let q : x ≡ j = ground (arith, e) in
      let o : contains k (xs ++ ys) ≡ true = ground (arith, contains-append k xs ys, n) in
      subst (λ z. (z == k) ≡ false) q (first-other x k (xs ++ ys) h o)
  | inr e ↦ distinct-apart j k xs ys (distinct-tail x (xs ++ ys) h) (ground (arith, m, e)) n
]

pub distinct-right : (xs ys : List ℕ) → distinct (xs ++ ys) ≡ true → distinct ys ≡ true
distinct-right [] ys h = h
distinct-right (x ∷ xs) ys h = distinct-right xs ys (distinct-tail x (xs ++ ys) h)

pub contains-left : (j : ℕ) (xs ys : List ℕ) → contains j xs ≡ true → contains j (xs ++ ys) ≡ true
contains-left j xs ys h = ground (arith, h, contains-append j xs ys)

pub contains-right : (j : ℕ) (xs ys : List ℕ) → contains j ys ≡ true → contains j (xs ++ ys) ≡ true
contains-right j xs ys h = ground (arith, h, contains-append j xs ys)

pub apart-sym : (j k : ℕ) → (j == k) ≡ false → (k == j) ≡ false
apart-sym j k h = ground arith

abbrev pub is_first : ℕ → List ℕ → Bool
is_first j [] = false
is_first j (y ∷ ys) = y == j

pub is_first-apart :
    (j : ℕ) (xs ys : List ℕ)
    → distinct (xs ++ ys) ≡ true
    → contains j xs ≡ true
    → is_first j ys ≡ false
is_first-apart j xs [] h m = refl
is_first-apart j xs (y ∷ ys) h m =
    apart-sym j y (distinct-apart j y xs (y ∷ ys) h m (contains-head y ys))

pub last_of-nil : (x : ℕ) (xs : List ℕ) → last_of x (xs ++ []) ≡ last_of x xs
last_of-nil x [] = refl
last_of-nil x (y ∷ ys) = last_of-nil y ys
