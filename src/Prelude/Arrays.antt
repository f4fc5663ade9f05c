-- ===== src/Prelude/Arrays.antt =====
-- C arrays as functions of the index, and lists over the native numbers.
use Prim.Native.Nat.{ℕ, suc, ◌+◌}
use mathlib.Core.Path.{◌≡◌, refl}
use mathlib.Core.Bool.{Bool, false, ◌||◌}
use mathlib.Core.List.{List, [], ◌∷◌, ◌++◌}
use native.Mathlib.Omega.{arith}
use nanomsg_transport_ofi.Prelude.Tests.{◌==◌, if◌then◌else◌}

-- `a[i] = v`
abbrev pub update {ℓ} : {A : Type ℓ} → (ℕ → A) → ℕ → A → ℕ → A
update f i v j = if i == j then v else f j

module _ {ℓ} {A : Type ℓ} where
  abbrev pub length : List A → ℕ
  length [] = 0
  length (x ∷ xs) = suc (length xs)

  pub length-append : (xs ys : List A) → length (xs ++ ys) ≡ length xs + length ys
  length-append [] ys = omega arith
  length-append (x ∷ xs) ys = omega (arith, length-append xs ys)

abbrev pub contains : ℕ → List ℕ → Bool
contains a [] = false
contains a (x ∷ xs) = x == a || contains a xs

abbrev pub count : ℕ → List ℕ → ℕ
count a [] = 0
count a (x ∷ xs) = let n = count a xs in if x == a then suc n else n

pub count-snoc : (a x : ℕ) (xs : List ℕ) → count a (xs ++ x ∷ []) ≡ count a (x ∷ xs)
count-snoc a x [] = refl
count-snoc a x (y ∷ ys) = ground (arith, count-snoc a x ys)

pub contains-snoc : (a x : ℕ) (xs : List ℕ) → contains a (xs ++ x ∷ []) ≡ (x == a || contains a xs)
contains-snoc a x [] = refl
contains-snoc a x (y ∷ ys) = ground (arith, contains-snoc a x ys)
