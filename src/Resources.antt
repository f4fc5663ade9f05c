-- ===== src/Resources.antt =====
-- The fabrics and domains that are open (src/transports/ofi/ofiapi.c).
pub mod Ending
use nanomsg_transport_ofi.Prelude.{
  ℕ, zero, suc, ◌-◌, ◌==◌, ltb, Option, none, some, List, [], ◌∷◌, ◌++◌, ℤ, pos, is_zero,
  if◌then◌else◌,
}

-- `struct ofi_fabric`, with its address and the addresses of its domains.
pub record Fabric : Type 0 where
  pub address : ℕ
  pub ref : ℕ
  pub domains : List ℕ

-- What the functions call: `ofi_match_fabric`, `fi_fabric`, `nn_ofiw_pool_init`, `fi_domain`, the release of
-- a domain, and `nn_ofiw_pool_term`.
pub record Parts (S : Type 0) : Type 0 where
  pub match_fabric : S → ℤ × S
  pub fi_fabric : S → ℤ × S
  pub pool_init : S → ℤ × S
  pub fi_domain : S → ℤ × S
  pub close_domain : ℕ → S → S
  pub pool_term : S → S

-- `struct ofi_resources`
pub record Resources (S : Type 0) : Type 0 where
  pub fabrics : List Fabric
  pub world : S

-- What an open function returns, the object by its address.
pub record Opened (S : Type 0) : Type 0 where
  pub ret : ℤ
  pub object : Option ℕ
  pub resources : Resources S

-- `nn_list_erase` of a domain
unfoldable pub erase_domain : List ℕ → ℕ → List ℕ
erase_domain [] d = []
erase_domain (x ∷ xs) d = let rest = erase_domain xs d in if x == d then xs else x ∷ rest

-- The fabric at an address, changed.
unfoldable pub change : (Fabric → Fabric) → List Fabric → ℕ → List Fabric
change g [] a = []
change g (f ∷ fs) a = let rest = change g fs a in if f.address == a then g f ∷ fs else f ∷ rest

module _ {S : Type 0} (parts : Parts S) where
  open parts use {match_fabric, fi_fabric, pool_init, fi_domain, close_domain, pool_term}

  abbrev pub kept : Resources S → ℕ → ℤ × S → Opened S
  kept r a (ret, s) =
      if is_zero ret
      then record {
        ret = pos 0;
        object = some a;
        resources = record {
          fabrics = r.fabrics ++ record { address = a; ref = 1; domains = [] } ∷ [];
          world = s;
        };
      }
      else record { ret = ret; object = none; resources = record r { world = s } }

  abbrev pub opened : Resources S → ℕ → ℤ × S → Opened S
  opened r a (ret, s) =
      if is_zero ret
      then kept r a (pool_init s)
      else record { ret = ret; object = none; resources = record r { world = s } }

  abbrev pub matched : Resources S → ℕ → ℤ × S → Opened S
  matched r a (ret, s) =
      if is_zero ret
      then opened r a (fi_fabric s)
      else record { ret = ret; object = none; resources = record r { world = s } }

  -- `ofi_fabric_open`, with the structure at address `a`
  unfoldable pub fabric_open : Resources S → ℕ → Opened S
  fabric_open r a = matched r a (match_fabric r.world)

  -- The loop of `ofi_fabric_close` over the domains.
  unfoldable pub close_domains : List ℕ → S → S
  close_domains [] s = s
  close_domains (d ∷ ds) s = close_domains ds (close_domain d s)

  abbrev pub released : Fabric → List Fabric → S → List Fabric × S
  released f fs s =
      if ltb 1 f.ref
      then (record f { ref = f.ref - 1 } ∷ fs, s)
      else (fs, pool_term (close_domains f.domains s))

  -- `ofi_fabric_close` of the fabric at address `a`
  unfoldable pub close_in : List Fabric → ℕ → S → List Fabric × S
  unfolding close_domains
  close_in [] a s = ([], s)
  close_in (f ∷ fs) a s =
      let rest = close_in fs a s in if f.address == a then released f fs s else (f ∷ rest.0, rest.1)

  unfoldable pub fabric_close : Resources S → ℕ → Resources S
  unfolding close_in
  fabric_close r a =
      let (fs, s) = close_in r.fabrics a r.world in record { fabrics = fs; world = s }

  abbrev pub domain_kept : Resources S → ℕ → ℕ → ℤ × S → Opened S
  domain_kept r f a (ret, s) =
      if is_zero ret
      then record {
        ret = pos 0;
        object = some a;
        resources = record {
          fabrics = change (λ x. record x { domains = x.domains ++ a ∷ [] }) r.fabrics f;
          world = s;
        };
      }
      else record { ret = ret; object = none; resources = record r { world = s } }

  -- `ofi_domain_open` on the fabric `f`, with the structure at address `a`
  unfoldable pub domain_open : Resources S → ℕ → ℕ → Opened S
  unfolding change
  domain_open r f a = domain_kept r f a (fi_domain r.world)

  -- `ofi_domain_close`
  unfoldable pub domain_close : Resources S → ℕ → ℕ → Resources S
  unfolding change erase_domain
  domain_close r f d = record {
    fabrics = change (λ x. record x { domains = erase_domain x.domains d }) r.fabrics f;
    world = close_domain d r.world;
  }

  -- The loop of `ofi_term`; each round closes the first fabric once.
  unfoldable pub term_from : ℕ → Resources S → List Fabric → Resources S
  unfolding fabric_close
  term_from zero r fs = r
  term_from (suc k) r [] = r
  term_from (suc k) r (f ∷ fs) =
      let next = fabric_close r f.address in term_from k next next.fabrics
