-- ===== src/Address/Cutting.antt =====
-- What `strrchr` finds in an address (src/transports/ofi/ofiapi.c).
use nanomsg_transport_ofi.Prelude.{
  ℕ, ◌≡◌, refl, sym, ap, subst, ◌∙◌, some-injective, none-ne-some, arith, none, some, [], ◌∷◌, ◌++◌,
  false, contains, ℕ_discrete, inl, inr, ◌⊎◌,
}
use nanomsg_transport_ofi.Address.{Text, strrchr}

pub strrchr-none : (c : ℕ) (t : Text) → contains c t ≡ false → strrchr c t ≡ none
unfolding strrchr
strrchr-none c [] h = refl
strrchr-none c (x ∷ xs) h = ground (arith, h, strrchr-none c xs)

pub strrchr-last :
    (c : ℕ) (a b : Text) → contains c b ≡ false → strrchr c (a ++ c ∷ b) ≡ some (a, b)
unfolding strrchr
strrchr-last c [] b h = ground (arith, strrchr-none c b h)
strrchr-last c (x ∷ xs) b h = rw (strrchr-last c xs b h)

-- Where the last `c` of a text is, if there is one.
abbrev pub Last : ℕ → Text → Type 0
Last c t =
    (contains c t ≡ false) ⊎ ((a : Text) × (b : Text) × (t ≡ a ++ c ∷ b) × (contains c b ≡ false))

Last-cons : (c x : ℕ) (t : Text) → Last c t → Last c (x ∷ t)
Last-cons c x t (inr (a, b, e, h)) = inr (x ∷ a, b, ap (λ z. x ∷ z) e, h)
Last-cons c x t (inl h) = elim (ℕ_discrete x c) [
  | yes e ↦ inr ([], t, ap (λ z. z ∷ t) e, h)
  | no n ↦ inl (ground (arith, h, n))
]

pub Last-cases : (c : ℕ) (t : Text) → Last c t
Last-cases c [] = inl refl
Last-cases c (x ∷ t) = Last-cons c x t (Last-cases c t)

-- What is found is the text around the last `c`.
pub strrchr-some :
    (c : ℕ) (t a b : Text) → strrchr c t ≡ some (a, b) → (t ≡ a ++ c ∷ b) × (contains c b ≡ false)
strrchr-some c t a b e = elim (Last-cases c t) [
  | inl h ↦ absurd (none-ne-some _ (sym (strrchr-none c t h) ∙ e))
  | inr (x, y, q, h) ↦
      let k : (x, y) ≡ (a, b) =
        some-injective _ _ (sym (strrchr-last c x y h) ∙ ap (strrchr c) (sym q) ∙ e) in
      (q ∙ ap (λ z. z.0 ++ c ∷ z.1) k, subst (λ z. contains c z.1 ≡ false) k h)
]
