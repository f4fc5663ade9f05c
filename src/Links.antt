-- ===== src/Links.antt =====
-- Doubly linked lists, as the pointers of their members represent them.
pub mod Loop
use nanomsg_transport_ofi.Prelude.{
  ℕ, ◌≡◌, true, false, Option, none, some, List, [], ◌∷◌, ◌++◌, refl, contains, ◌==◌, subst, sym,
  ◌∙◌, first_of, last_of, distinct, contains-last, contains-head, contains-tail, distinct-tail,
  first-other,
}

-- The pointers `next` and `prev` of all members.
pub record Links : Type 0 where
  pub next : ℕ → Option ℕ
  pub prev : ℕ → Option ℕ

-- The list `xs`, of which the first member points back to `p`.
abbrev pub Linked : Links → Option ℕ → List ℕ → Type 0
Linked l p [] = p ≡ p
Linked l p (x ∷ xs) = (l.prev x ≡ p) × (l.next x ≡ first_of xs) × Linked l (some x) xs

-- The links of a sequence after `c` was put behind its last context `t`.
pub Linked-snoc :
    (cs ds : Links) (c y t : ℕ) (p q : Option ℕ) (ys : List ℕ)
    → Linked cs p (y ∷ ys)
    → distinct (y ∷ ys) ≡ true
    → last_of y ys ≡ t
    → ds.prev c ≡ some t
    → ds.next c ≡ none
    → ds.next t ≡ some c
    → ds.prev y ≡ q
    → ((j : ℕ) → contains j ys ≡ true → ds.prev j ≡ cs.prev j)
    → ((j : ℕ) → contains j (y ∷ ys) ≡ true → (j == t) ≡ false → ds.next j ≡ cs.next j)
    → Linked ds q ((y ∷ ys) ++ c ∷ [])
Linked-snoc cs ds c y t p q [] l u e a b d f hp hn =
    let n = subst (λ x. ds.next x ≡ some c) (sym e) d in
    let r = subst (λ x. ds.prev c ≡ some x) (sym e) a in (f, n, (r, b, refl))
Linked-snoc cs ds c y t p q (z ∷ zs) l u e a b d f hp hn =
    let k = subst (λ x. contains x (z ∷ zs) ≡ true) e (contains-last z zs) in
    let n = hn y (contains-head y (z ∷ zs)) (first-other y t (z ∷ zs) u k) ∙ l.1 in
    let g = hp z (contains-head z zs) ∙ l.2.0 in
    let v = distinct-tail y (z ∷ zs) u in
    (
      f,
      n,
      Linked-snoc cs ds c z t (some y) (some y) zs l.2 v e a b d g
          (λ j m. hp j (contains-tail j z zs m)) (λ j m o. hn j (contains-tail j y (z ∷ zs) m) o),
    )

-- The pointers at the context `c` in the middle.
pub Linked-at :
    (cs : Links) (x c : ℕ) (p : Option ℕ) (xs ys : List ℕ)
    → Linked cs p ((x ∷ xs) ++ c ∷ ys)
    → (cs.prev c ≡ some (last_of x xs)) × (cs.next c ≡ first_of ys) × Linked cs (some c) ys
Linked-at cs x c p [] ys l = l.2
Linked-at cs x c p (y ∷ xs) ys l = Linked-at cs y c (some x) xs ys l.2

pub Linked-frame :
    (cs ds : Links) (p : Option ℕ) (xs : List ℕ)
    → Linked cs p xs
    → ((j : ℕ) → contains j xs ≡ true → ds.prev j ≡ cs.prev j)
    → ((j : ℕ) → contains j xs ≡ true → ds.next j ≡ cs.next j)
    → Linked ds p xs
Linked-frame cs ds p [] l hp hn = refl
Linked-frame cs ds p (x ∷ xs) l hp hn = (
  hp x (contains-head x xs) ∙ l.0,
  hn x (contains-head x xs) ∙ l.1,
  Linked-frame cs ds (some x) xs l.2 (λ j m. hp j (contains-tail j x xs m))
      (λ j m. hn j (contains-tail j x xs m)),
)

-- The links after `c` was taken out behind `t`.
pub Linked-cut :
    (cs ds : Links) (c x t : ℕ) (p q : Option ℕ) (xs ys : List ℕ)
    → Linked cs p ((x ∷ xs) ++ c ∷ ys)
    → distinct (x ∷ xs) ≡ true
    → last_of x xs ≡ t
    → ds.prev x ≡ q
    → ds.next t ≡ first_of ys
    → Linked ds (some t) ys
    → ((j : ℕ) → contains j xs ≡ true → ds.prev j ≡ cs.prev j)
    → ((j : ℕ) → contains j (x ∷ xs) ≡ true → (j == t) ≡ false → ds.next j ≡ cs.next j)
    → Linked ds q ((x ∷ xs) ++ ys)
Linked-cut cs ds c x t p q [] ys l u e f g r hp hn = (
  f,
  subst (λ z. ds.next z ≡ first_of ys) (sym e) g,
  subst (λ z. Linked ds (some z) ys) (sym e) r,
)
Linked-cut cs ds c x t p q (y ∷ xs) ys l u e f g r hp hn =
    let k = subst (λ z. contains z (y ∷ xs) ≡ true) e (contains-last y xs) in
    (
      f,
      hn x (contains-head x (y ∷ xs)) (first-other x t (y ∷ xs) u k) ∙ l.1,
      Linked-cut cs ds c y t (some x) (some x) xs ys l.2 (distinct-tail x (y ∷ xs) u) e
          (hp y (contains-head y xs) ∙ l.2.0) g r (λ j m. hp j (contains-tail j y xs m))
          (λ j m o. hn j (contains-tail j x (y ∷ xs) m) o),
    )
