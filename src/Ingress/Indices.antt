-- ===== src/Ingress/Indices.antt =====
-- The indices of the receive buffers in the three lists, which the pointers determine.
use nanomsg_transport_ofi.Prelude.{
  ltb, if◌then◌else◌, ℕ, ◌+◌, ◌≡◌, Option, none, some-injective, none-ne-some, List, [], ◌∷◌, ◌++◌,
  refl, arith, ap, sym, ◌∙◌, count, first_of, some,
}
use nanomsg_transport_ofi.Links.{Links, Linked}
use nanomsg_transport_ofi.Ingress.{Ingress}
use nanomsg_transport_ofi.Ingress.Lists.{Holds}
use nanomsg_transport_ofi.Ingress.Pointers.{count-append}

-- The lists hold the indices below `n`, each once, and no other.
abbrev pub Each : ℕ → List ℕ → List ℕ → List ℕ → Type 0
Each n fs bs ps = (j : ℕ) → count j fs + count j bs + count j ps ≡ (if ltb j n then 1 else 0)

-- The pointers of a list determine it.
Linked-unique :
    (l : Links) (p q : Option ℕ) (xs ys : List ℕ)
    → Linked l p xs
    → Linked l q ys
    → first_of xs ≡ first_of ys
    → xs ≡ ys
Linked-unique l p q [] [] a b e = refl
Linked-unique l p q [] (y ∷ ys) a b e = absurd (none-ne-some y e)
Linked-unique l p q (x ∷ xs) [] a b e = absurd (none-ne-some x (sym e))
Linked-unique l p q (x ∷ xs) (y ∷ ys) a b e =
    let d : x ≡ y = some-injective _ _ e in
    let f : first_of xs ≡ first_of ys = sym a.1 ∙ ap (λ z. l.next z) d ∙ b.1 in
    let r : xs ≡ ys = Linked-unique l (some x) (some y) xs ys a.2 b.2 f in cc

module _ {S : Type 0} where
  pub Holds-unique :
      (e : Ingress S) (fs bs ps gs cs qs : List ℕ)
      → Holds e fs bs ps
      → Holds e gs cs qs
      → (fs ≡ gs) × (bs ≡ cs) × (ps ≡ qs)
  Holds-unique e fs bs ps gs cs qs h k = (
    Linked-unique e.links none none fs gs h.free_links k.free_links (sym h.free ∙ k.free),
    Linked-unique e.links none none bs cs h.busy_links k.busy_links (sym h.busy ∙ k.busy),
    Linked-unique e.links none none ps qs h.pop_links k.pop_links (sym h.pop_head ∙ k.pop_head),
  )

-- Buffer `b` leaves the busy list for the free one.
pub freed-Each :
    (n b : ℕ) (fs xs ys ps : List ℕ) → Each n fs (xs ++ b ∷ ys) ps → Each n (b ∷ fs) (xs ++ ys) ps
freed-Each n b fs xs ys ps w j =
    ground (arith, w j, count-append j xs (b ∷ ys), count-append j xs ys)

-- Buffer `b` leaves the busy list for the end of the populated one.
pub populated-Each :
    (n b : ℕ) (fs xs ys ps : List ℕ)
    → Each n fs (xs ++ b ∷ ys) ps
    → Each n fs (xs ++ ys) (ps ++ b ∷ [])
populated-Each n b fs xs ys ps w j =
    ground
      (arith, w j, count-append j xs (b ∷ ys), count-append j xs ys, count-append j ps (b ∷ []))
