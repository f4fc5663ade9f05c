-- ===== src/Transport/Lasting.antt =====
-- What is left of the resources after endpoints were made and destroyed.
use nanomsg_transport_ofi.Prelude.{
  Bool, ℕ, ◌≡◌, true, false, some, none-ne-some, some-injective, List, [], ◌∷◌, ◌++◌, ℤ, is_zero,
  ap, sym, ◌∙◌, if-cases,
}
use nanomsg_transport_ofi.Address.{Text, Hinted}
use nanomsg_transport_ofi.Resources
use nanomsg_transport_ofi.Resources.{
  Fabric, Resources, Opened, fabric_open, domain_open, domain_close, change, erase_domain, matched,
  kept, domain_kept, opened,
}
use nanomsg_transport_ofi.Cofi
use nanomsg_transport_ofi.Bofi.Machine
use nanomsg_transport_ofi.Transport.{
  Core, Network, Endpoint, Created, calls, connect, bind, not_made, with_world, cofi_create,
  cofi_destroy, bofi_create, bofi_destroy, domain_made,
}
use nanomsg_transport_ofi.Transport.Fabrics.{
  open_fabric, Free, change-last, erase-only, Leaves, fabric_open-Leaves, domain_open-Leaves,
}

module _ {O S : Type 0} where
  -- What an endpoint that was made has, and the fabrics then.
  Made : List Fabric → ℕ → ℕ → Created O S → Type 0
  Made fs a d c =
      (e : Endpoint O)
      → c.endpoint ≡ some e
      → (e.fabric ≡ a) × (e.domain ≡ d) × (c.resources.fabrics ≡ fs)

module _ {S : Type 0} where
  not_made-Made :
      (O : Type 0) (fs : List Fabric) (a d : ℕ) (ret : ℤ) (r : Resources S)
      → Made fs a d (not_made O ret r)
  unfolding Made
  not_made-Made O fs a d ret r e q = absurd (none-ne-some e q)

module _ {S : Type 0} (parts : Resources.Parts S) (core : Core S) where
  added-domain :
      (r : Resources S) (fs : List Fabric) (a d : ℕ)
      → Free a fs
      → r.fabrics ≡ fs ++ open_fabric a [] ∷ []
      → change (λ x. record x { domains = x.domains ++ d ∷ [] }) r.fabrics a
        ≡ fs ++ open_fabric a (d ∷ []) ∷ []
  added-domain r fs a d h q =
      ap (λ z. change (λ x. record x { domains = x.domains ++ d ∷ [] }) z a) q
      ∙ change-last (λ x. record x { domains = x.domains ++ d ∷ [] }) fs a [] h

  domain_made-Made :
      (O : Type 0) (m : O) (r : Resources S) (fs : List Fabric) (a d : ℕ)
      → Free a fs
      → r.fabrics ≡ fs ++ open_fabric a [] ∷ []
      → Made
          (fs ++ open_fabric a (d ∷ []) ∷ [])
          a
          d
          (domain_made O m core.epbase_term a d (domain_open parts r a d))
  unfolding Made Leaves
  domain_made-Made O m r fs a d h q =
      let o : Opened S = domain_open parts r a d in
      let gs = fs ++ open_fabric a (d ∷ []) ∷ [] in
      if-cases (Made gs a d) (is_zero o.ret) _ _
        (λ z e s.
          let k = some-injective _ _ s in
          (
            ap (λ x. x.fabric) (sym k),
            ap (λ x. x.domain) (sym k),
            domain_open-Leaves parts r a d z ∙ added-domain r fs a d h q,
          ))
        (λ _.
          not_made-Made O gs a d o.ret
            (with_world o.resources (core.epbase_term o.resources.world)))

  cofi_create-Made :
      (machine : Cofi.Parts S) (r : Resources S) (fs : List Fabric) (a d : ℕ)
      → Free a fs
      → r.fabrics ≡ fs ++ open_fabric a [] ∷ []
      → Made (fs ++ open_fabric a (d ∷ []) ∷ []) a d (cofi_create parts core machine a d r)
  unfolding cofi_create
  cofi_create-Made machine r fs a d h q =
      domain_made-Made (Cofi.Outcome S) _ (with_world r (core.epbase_init r.world)) fs a d h q

  bofi_create-Made :
      (machine : Machine.Parts S) (memory : ℕ → Bool) (src : Machine.Sofi) (r : Resources S)
      (fs : List Fabric) (a d : ℕ)
      → Free a fs
      → r.fabrics ≡ fs ++ open_fabric a [] ∷ []
      → Made
          (fs ++ open_fabric a (d ∷ []) ∷ [])
          a
          d
          (bofi_create parts core machine memory src a d r)
  unfolding bofi_create
  bofi_create-Made machine memory src r fs a d h q =
      domain_made-Made (Machine.Outcome S) _ (with_world r (core.epbase_init r.world)) fs a d h q

  -- Both destructors close the domain.
  destroy-fabrics :
      (r : Resources S) (fs : List Fabric) (a d : ℕ)
      → Free a fs
      → r.fabrics ≡ fs ++ open_fabric a (d ∷ []) ∷ []
      → ((cofi_destroy parts core a d r).fabrics ≡ fs ++ open_fabric a [] ∷ [])
        × ((bofi_destroy parts core a d r).fabrics ≡ fs ++ open_fabric a [] ∷ [])
  unfolding cofi_destroy bofi_destroy domain_close
  destroy-fabrics r fs a d h q =
      let e =
        ap (λ z. change (λ x. record x { domains = erase_domain x.domains d }) z a) q
        ∙ change-last (λ x. record x { domains = erase_domain x.domains d }) fs a (d ∷ []) h
        ∙ ap (λ z. fs ++ open_fabric a z ∷ []) (erase-only d) in
      (e, e)

module _ {S : Type 0} (net : Network S) (core : Core (Hinted S))
    (machine : Cofi.Parts (Hinted S)) where
  connect-Made :
      (b : ℕ) (t : Text) (a d : ℕ) (r : Resources (Hinted S))
      → Free a r.fabrics
      → Made (r.fabrics ++ open_fabric a (d ∷ []) ∷ []) a d (connect net core machine b t a d r)
  unfolding connect Made Leaves
  connect-Made b t a d r h =
      let parts = calls net b t false in
      let o : Opened (Hinted S) = fabric_open parts r a in
      let gs = r.fabrics ++ open_fabric a (d ∷ []) ∷ [] in
      if-cases (Made gs a d) (is_zero o.ret) _ _
        (λ z.
          cofi_create-Made parts core machine o.resources r.fabrics a d h
            (fabric_open-Leaves parts r a z))
        (λ _. not_made-Made (Cofi.Outcome (Hinted S)) gs a d o.ret o.resources)

  -- Whatever happened in between to the world, but not to the fabrics, a connecting endpoint that was made and
  -- then destroyed leaves the fabric that was opened for it, without a domain, behind those of before. No
  -- other fabric is at its place.
  pub connect-destroy :
      (b : ℕ) (t : Text) (a d : ℕ) (r : Resources (Hinted S))
      (e : Endpoint (Cofi.Outcome (Hinted S))) (w : Hinted S)
      → Free a r.fabrics
      → (connect net core machine b t a d r).endpoint ≡ some e
      → (cofi_destroy
          (calls net b t false)
          core
          e.fabric
          e.domain
          (with_world (connect net core machine b t a d r).resources w)).fabrics
        ≡ r.fabrics ++ open_fabric a [] ∷ []
  unfolding Made
  connect-destroy b t a d r e w h q =
      let (p, s, m) = connect-Made b t a d r h e q in
      let after = with_world (connect net core machine b t a d r).resources w in
      ap (λ z. (cofi_destroy (calls net b t false) core z e.domain after).fabrics) p
      ∙ ap (λ z. (cofi_destroy (calls net b t false) core a z after).fabrics) s
      ∙ (destroy-fabrics (calls net b t false) core after r.fabrics a d h m).0

module _ {S : Type 0} (net : Network S) (core : Core (Hinted S))
    (machine : Machine.Parts (Hinted S)) (memory : ℕ → Bool) (src : Machine.Sofi) where
  bind-Made :
      (b : ℕ) (t : Text) (a d : ℕ) (r : Resources (Hinted S))
      → Free a r.fabrics
      → Made
          (r.fabrics ++ open_fabric a (d ∷ []) ∷ [])
          a
          d
          (bind net core machine memory src b t a d r)
  unfolding bind Made Leaves
  bind-Made b t a d r h =
      let parts = calls net b t true in
      let o : Opened (Hinted S) = fabric_open parts r a in
      let gs = r.fabrics ++ open_fabric a (d ∷ []) ∷ [] in
      if-cases (Made gs a d) (is_zero o.ret) _ _
        (λ z.
          bofi_create-Made parts core machine memory src o.resources r.fabrics a d h
            (fabric_open-Leaves parts r a z))
        (λ _. not_made-Made (Machine.Outcome (Hinted S)) gs a d o.ret o.resources)

  -- The same for a bound endpoint.
  pub bind-destroy :
      (b : ℕ) (t : Text) (a d : ℕ) (r : Resources (Hinted S))
      (e : Endpoint (Machine.Outcome (Hinted S))) (w : Hinted S)
      → Free a r.fabrics
      → (bind net core machine memory src b t a d r).endpoint ≡ some e
      → (bofi_destroy
          (calls net b t true)
          core
          e.fabric
          e.domain
          (with_world (bind net core machine memory src b t a d r).resources w)).fabrics
        ≡ r.fabrics ++ open_fabric a [] ∷ []
  unfolding Made
  bind-destroy b t a d r e w h q =
      let (p, s, m) = bind-Made b t a d r h e q in
      let after = with_world (bind net core machine memory src b t a d r).resources w in
      ap (λ z. (bofi_destroy (calls net b t true) core z e.domain after).fabrics) p
      ∙ ap (λ z. (bofi_destroy (calls net b t true) core a z after).fabrics) s
      ∙ (destroy-fabrics (calls net b t true) core after r.fabrics a d h m).1
