-- ===== src/Address/RoundTrip.antt =====
-- An address written out and cut again (`ofi_match_fabric` of src/transports/ofi/ofiapi.c).
use nanomsg_transport_ofi.Prelude.{
  ℕ, ◌≡◌, refl, sym, ap, subst, ◌∙◌, arith, Option, none, some-injective, none-ne-some, some, [],
  ◌∷◌, ◌++◌, false, contains, contains-append, append-nil, append_assoc, inl, inr, ◌⊎◌,
}
use nanomsg_transport_ofi.Address.{
  Text, Parts, strrchr, nonempty, cut, cut_at, cut_fabric, cut_service, cut_rest,
}
use nanomsg_transport_ofi.Address.Cutting.{strrchr-none, strrchr-last, strrchr-some}

-- The part behind the service.
unfoldable pub print_fabric : Option Text → Option Text → Text
print_fabric none none = []
print_fabric (some f) none = b'@' ∷ f
print_fabric none (some p) = b'@' ∷ b':' ∷ p
print_fabric (some f) (some p) = b'@' ∷ (f ++ b':' ∷ p)

-- The forms with a `:` that the comment of the function lists, written out, and one with a provider only.
unfoldable pub print : Parts → Text
unfolding print_fabric
print p = p.node ++ b':' ∷ (p.service ++ print_fabric p.fabric p.provider)

abbrev pub Lacks : ℕ → Text → Type 0
Lacks c t = contains c t ≡ false

abbrev pub FabricSpelt : Text → Option Text → Option Text → Type 0
FabricSpelt t none none = Lacks b'@' t
FabricSpelt t (some f) none = (nonempty f ≡ some f) × Lacks b'@' f × Lacks b':' f
FabricSpelt t none (some p) = Lacks b'@' p × Lacks b':' p
FabricSpelt t (some f) (some p) = (nonempty f ≡ some f) × Lacks b'@' f × Lacks b'@' p × Lacks b':' p

-- The service has no `:`; without a fabric and a provider there is no `@`; a fabric is not empty and has no
-- `@`, nor a `:` if no provider follows; a provider has neither.
abbrev pub WellSpelt : Parts → Type 0
WellSpelt p = Lacks b':' p.service × FabricSpelt (p.node ++ b':' ∷ p.service) p.fabric p.provider

Lacks-middle : (f p : Text) → Lacks b'@' f → Lacks b'@' p → Lacks b'@' (f ++ b':' ∷ p)
Lacks-middle f p h k = ground (arith, h, k, contains-append b'@' f (b':' ∷ p))

cut_fabric-print :
    (t : Text) (f p : Option Text)
    → FabricSpelt t f p
    → cut_at (t ++ print_fabric f p) (strrchr b'@' (t ++ print_fabric f p)) ≡ (t, (f, p))
unfolding cut_at cut_fabric print_fabric
cut_fabric-print t none none h =
    ap (λ z. cut_at z (strrchr b'@' z)) (append-nil t) ∙ ap (cut_at t) (strrchr-none b'@' t h)
cut_fabric-print t (some f) none (n, h, k) =
    ap (cut_at _) (strrchr-last b'@' t f h)
    ∙ ap (λ z. (t, cut_fabric f z)) (strrchr-none b':' f k)
    ∙ ap (λ z. (t, (z, none))) n
cut_fabric-print t none (some p) (h, k) =
    ap (cut_at _) (strrchr-last b'@' t (b':' ∷ p) h)
    ∙ ap (λ z. (t, cut_fabric (b':' ∷ p) z)) (strrchr-last b':' [] p k)
cut_fabric-print t (some f) (some p) (n, h, k, l) =
    ap (cut_at _) (strrchr-last b'@' t (f ++ b':' ∷ p) (Lacks-middle f p h k))
    ∙ ap (λ z. (t, cut_fabric (f ++ b':' ∷ p) z)) (strrchr-last b':' f p l)
    ∙ ap (λ z. (t, (z, some p))) n

print-split :
    (p : Parts) → print p ≡ (p.node ++ b':' ∷ p.service) ++ print_fabric p.fabric p.provider
unfolding print
print-split p = sym (append_assoc p.node (b':' ∷ p.service) (print_fabric p.fabric p.provider))

-- An address of a node and a service, with a fabric, a provider, both or neither behind an `@`, is cut into
-- the parts it was written from, if it is well spelt.
pub cut-print : (p : Parts) → WellSpelt p → cut (print p) ≡ some p
unfolding cut cut_service
cut-print p (h, k) =
    ap (λ t. cut_rest (cut_at t (strrchr b'@' t))) (print-split p)
    ∙ ap (λ z. cut_rest z) (cut_fabric-print (p.node ++ b':' ∷ p.service) p.fabric p.provider k)
    ∙ ap (λ z. cut_service z (p.fabric, p.provider)) (strrchr-last b':' p.node p.service h)

-- What the cut at the `@` keeps of the text behind it, written out again; only an empty text is lost.
fabric-printed :
    (f : Text) (z : Option (Text × Text))
    → strrchr b':' f ≡ z
    → (b'@' ∷ f ≡ print_fabric (cut_fabric f z).0 (cut_fabric f z).1)
      ⊎ ((f ≡ []) × (cut_fabric f z ≡ (none, none)))
unfolding print_fabric cut_fabric
fabric-printed [] none e = inr (refl, refl)
fabric-printed (c ∷ f) none e = inl refl
fabric-printed f (some ([], p)) e = inl (ap (λ z. b'@' ∷ z) (strrchr-some b':' f [] p e).0)
fabric-printed f (some (c ∷ a, p)) e = inl (ap (λ z. b'@' ∷ z) (strrchr-some b':' f (c ∷ a) p e).0)

service-printed :
    (a : Text) (f : Option Text × Option Text) (z : Option (Text × Text)) (p : Parts)
    → strrchr b':' a ≡ z
    → cut_service z f ≡ some p
    → Lacks b':' p.service × (a ++ print_fabric f.0 f.1 ≡ print p)
unfolding cut_service print
service-printed a f none p e k = absurd (none-ne-some _ k)
service-printed a (f, g) (some (n, s)) p e k =
    let (q, h) = strrchr-some b':' a n s e in
    subst (λ y. Lacks b':' y.service × (a ++ print_fabric f g ≡ print y)) (some-injective _ _ k)
      (h, ap (λ y. y ++ print_fabric f g) q ∙ append_assoc n (b':' ∷ s) (print_fabric f g))

abbrev pub Printed : Text → Parts → Type 0
Printed t p = Lacks b':' p.service × ((t ≡ print p) ⊎ (t ≡ print p ++ b'@' ∷ []))

at-Printed :
    (t : Text) (z : Option (Text × Text)) (p : Parts)
    → strrchr b'@' t ≡ z
    → cut_rest (cut_at t z) ≡ some p
    → Printed t p
unfolding cut_at print_fabric
at-Printed t none p e k =
    let (h, q) = service-printed t (none, none) _ p refl k in (h, inl (sym (append-nil t) ∙ q))
at-Printed t (some (a, f)) p e k =
    let (h, q) = service-printed a (cut_fabric f (strrchr b':' f)) _ p refl k in
    let (r, _) = strrchr-some b'@' t a f e in
    elim (fabric-printed f _ refl) [
      | inl d ↦ (h, inl (r ∙ ap (λ y. a ++ y) d ∙ q))
      | inr (d, n) ↦
          let w : print p ≡ a = sym q ∙ ap (λ y. a ++ print_fabric y.0 y.1) n ∙ append-nil a in
          (h, inr (r ∙ ap (λ y. a ++ b'@' ∷ y) d ∙ ap (λ y. y ++ b'@' ∷ []) (sym w)))
    ]

-- Every address that is cut is its parts written out, up to an `@` at its end with nothing behind it; and the
-- service has no `:`.
pub print-cut : (t : Text) (p : Parts) → cut t ≡ some p → Printed t p
unfolding cut
print-cut t p k = at-Printed t _ p refl k

-- An address without a `:` before its last `@` is not cut, and neither is one with no `:` and no `@`.
pub cut-unserviced : (n f : Text) → Lacks b':' n → Lacks b'@' f → cut (n ++ b'@' ∷ f) ≡ none
unfolding cut cut_at cut_service
cut-unserviced n f h k =
    ap (λ z. cut_rest (cut_at (n ++ b'@' ∷ f) z)) (strrchr-last b'@' n f k)
    ∙ ap (λ z. cut_service z (cut_fabric f (strrchr b':' f))) (strrchr-none b':' n h)

-- The form `*@[fabric]` that the comment of the function lists is not cut.
pub cut-star : (f : Text) → Lacks b'@' f → cut (b'*' ∷ b'@' ∷ f) ≡ none
cut-star f k = cut-unserviced (b'*' ∷ []) f refl k
