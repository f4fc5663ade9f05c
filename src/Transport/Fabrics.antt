-- ===== src/Transport/Fabrics.antt =====
-- The fabrics after a fabric or a domain was opened.
use nanomsg_transport_ofi.Prelude.{
  ℕ, ◌≡◌, true, false, none, List, [], ◌∷◌, ◌++◌, map, ℤ, is_zero, refl, arith, contains, if-cases,
}
use nanomsg_transport_ofi.Resources
use nanomsg_transport_ofi.Resources.{
  Fabric, Resources, Opened, fabric_open, domain_open, domain_close, change, erase_domain, matched,
  kept, domain_kept, opened,
}

abbrev pub open_fabric : ℕ → List ℕ → Fabric
open_fabric a ds = record { address = a; ref = 1; domains = ds }

-- No fabric of the list is at `a`.
abbrev pub Free : ℕ → List Fabric → Type 0
Free a fs = contains a (map (λ f. f.address) fs) ≡ false

pub change-last :
    (g : Fabric → Fabric) (fs : List Fabric) (a : ℕ) (ds : List ℕ)
    → Free a fs
    → change g (fs ++ open_fabric a ds ∷ []) a ≡ fs ++ g (open_fabric a ds) ∷ []
unfolding change
change-last g [] a ds h = ground arith
change-last g (f ∷ fs) a ds h = ground (arith, h, change-last g fs a ds)

pub erase-only : (d : ℕ) → erase_domain (d ∷ []) d ≡ []
unfolding erase_domain
erase-only d = ground arith

module _ {S : Type 0} where
  -- The fabrics after a call that returned 0.
  unfoldable pub Leaves : List Fabric → Opened S → Type 0
  Leaves fs o = is_zero o.ret ≡ true → o.resources.fabrics ≡ fs

  failed-Leaves :
      (fs : List Fabric) (ret : ℤ) (r : Resources S)
      → is_zero ret ≡ false
      → Leaves fs (record { ret = ret; object = none; resources = r })
  unfolding Leaves
  failed-Leaves fs ret r h z = absurd (ground (arith, h, z))

module _ {S : Type 0} (parts : Resources.Parts S) where
  pub fabric_open-Leaves :
      (r : Resources S) (a : ℕ)
      → Leaves (r.fabrics ++ open_fabric a [] ∷ []) (fabric_open parts r a)
  unfolding fabric_open Leaves
  fabric_open-Leaves r a =
      let fs : List Fabric = r.fabrics ++ open_fabric a [] ∷ [] in
      let m : ℤ × S = parts.match_fabric r.world in
      let f : ℤ × S = parts.fi_fabric m.1 in
      let p : ℤ × S = parts.pool_init f.1 in
      if-cases (Leaves fs) (is_zero m.0) _ _
        (λ _.
          if-cases (Leaves fs) (is_zero f.0) _ _
            (λ _.
              if-cases (Leaves fs) (is_zero p.0) _ _ (λ _ _. refl)
                (λ h. failed-Leaves fs p.0 (record r { world = p.1 }) h))
            (λ h. failed-Leaves fs f.0 (record r { world = f.1 }) h))
        (λ h. failed-Leaves fs m.0 (record r { world = m.1 }) h)

  pub domain_open-Leaves :
      (r : Resources S) (f d : ℕ)
      → Leaves
          (change (λ x. record x { domains = x.domains ++ d ∷ [] }) r.fabrics f)
          (domain_open parts r f d)
  unfolding domain_open Leaves
  domain_open-Leaves r f d =
      let fs = change (λ x. record x { domains = x.domains ++ d ∷ [] }) r.fabrics f in
      let p : ℤ × S = parts.fi_domain r.world in
      if-cases (Leaves fs) (is_zero p.0) _ _ (λ _ _. refl)
        (λ h. failed-Leaves fs p.0 (record r { world = p.1 }) h)
