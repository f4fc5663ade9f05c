-- ===== src/Address.antt =====
-- The search for the fabric of an address (`ofi_match_fabric` of src/transports/ofi/ofiapi.c): the text is a
-- list of its bytes, and a name in the hints says which allocation it points into.
pub mod Cutting
pub mod RoundTrip
pub mod Matching
use nanomsg_transport_ofi.Prelude.{
  ℕ, ◌==◌, Option, none, some, List, [], ◌∷◌, ℤ, pos, negsuc, is_zero, einval, Bool, true, false,
  if◌then◌else◌,
}

abbrev pub Text : Type 0
Text = List ℕ

-- `strrchr`: what stands before the last `c`, and what stands behind it.
unfoldable pub strrchr : ℕ → Text → Option (Text × Text)
strrchr c [] = none
strrchr c (x ∷ xs) =
    let rest = strrchr c xs in
    elim rest [ some (a, b) ↦ some (x ∷ a, b) | none ↦ if x == c then some ([], xs) else none ]

-- The parts an address is cut into; the fabric and the provider may be NULL.
pub record Parts : Type 0 where
  pub node : Text
  pub service : Text
  pub fabric : Option Text
  pub provider : Option Text

-- `if (strlen(fabric) == 0) fabric = NULL;`
unfoldable pub nonempty : Text → Option Text
nonempty [] = none
nonempty (c ∷ cs) = some (c ∷ cs)

-- The fabric and the provider, by what `strrchr` finds behind the `@`.
unfoldable pub cut_fabric : Text → Option (Text × Text) → Option Text × Option Text
unfolding nonempty
cut_fabric t none = (nonempty t, none)
cut_fabric t (some (f, p)) = (nonempty f, some p)

-- The address cut where `strrchr` finds its last `@`.
unfoldable pub cut_at : Text → Option (Text × Text) → Text × (Option Text × Option Text)
unfolding strrchr cut_fabric
cut_at t none = (t, (none, none))
cut_at t (some (a, f)) = (a, cut_fabric f (strrchr b':' f))

-- The node and the service, by what `strrchr` finds in the text that the `@` leaves.
unfoldable pub cut_service : Option (Text × Text) → Option Text × Option Text → Option Parts
cut_service none f = none
cut_service (some (n, s)) (f, p) = some (record { node = n; service = s; fabric = f; provider = p })

abbrev pub cut_rest : Text × (Option Text × Option Text) → Option Parts
cut_rest (t, f) = cut_service (strrchr b':' t) f

unfoldable pub cut : Text → Option Parts
unfolding strrchr cut_at cut_service
cut t = cut_rest (cut_at t (strrchr b'@' t))

-- A `char *` of the hints: the allocation it points into, and the text there.
pub record Name : Type 0 where
  pub buffer : ℕ
  pub text : Text

-- `hints->fabric_attr`
pub record FabricAttr : Type 0 where
  pub name : Option Name
  pub prov_name : Option Name

-- What `fi_getinfo` is asked.
pub record Query : Type 0 where
  pub node : Text
  pub service : Text
  pub source : Bool
  pub hints : Option FabricAttr

-- The hints of `struct ofi_resources`, the address buffers that are allocated, and the rest.
pub record Hinted (S : Type 0) : Type 0 where
  pub fabric_attr : Option FabricAttr
  pub buffers : List ℕ
  pub world : S

-- What `ofi_match_fabric` returns, and what it leaves at `*ans`.
pub record Matched (S : Type 0) : Type 0 where
  pub ret : ℤ
  pub ans : Option ℕ
  pub state : Hinted S

-- `-FI_ENODATA`
abbrev pub enodata : ℤ
enodata = negsuc 60

unfoldable pub pointer : ℕ → Option Text → Option Name
pointer a none = none
pointer a (some t) = some (record { buffer = a; text = t })

-- The hints for an address; `a` is the buffer the names point into.
unfoldable pub hint : ℕ → Option Text → Option Text → Option FabricAttr → Option FabricAttr
unfolding pointer
hint a none none attr = attr
hint a (some f) p attr = some (record { name = pointer a (some f); prov_name = pointer a p })
hint a none (some p) attr = some (record { name = none; prov_name = pointer a (some p) })

unfoldable pub query : Bool → Parts → Option FabricAttr → Query
query local p attr = record { node = p.node; service = p.service; source = local; hints = attr }

-- The allocations without the one at `a`.
unfoldable pub drop_buffer : ℕ → List ℕ → List ℕ
drop_buffer a [] = []
drop_buffer a (x ∷ xs) = let rest = drop_buffer a xs in if x == a then rest else x ∷ rest

-- `nn_free`
unfoldable pub release : {S : Type 0} → ℕ → Hinted S → Hinted S
unfolding drop_buffer
release a st = record st { buffers = drop_buffer a st.buffers }

module _ {S : Type 0} (fi_getinfo : Query → S → (ℤ × Option ℕ) × S) where
  -- the returns behind the call of `fi_getinfo`
  unfoldable pub answered : ℤ → Option ℕ → Hinted S → Matched S
  answered ret ans st =
      if is_zero ret
      then elim ans [
        | some f ↦ record { ret = pos 0; ans = some f; state = st }
        | none ↦ record { ret = enodata; ans = none; state = st }
      ]
      else record { ret = ret; ans = ans; state = st }

  unfoldable pub ask : ℕ → Query → Hinted S → Matched S
  unfolding answered release
  ask a q st =
      let ((ret, ans), w) = fi_getinfo q st.world in
      answered ret ans (release a (record st { fabric_attr = q.hints; world = w }))

  unfoldable pub match_parts : ℕ → Bool → Option Parts → Hinted S → Matched S
  unfolding hint query ask release
  match_parts a local none st = record { ret = einval; ans = none; state = release a st }
  match_parts a local (some p) st =
      ask a (query local p (hint a p.fabric p.provider st.fabric_attr)) st

  -- `ofi_match_fabric`, with the copy of the address allocated at `a`; `local` says that the address flag
  -- is `OFI_ADDR_LOCAL`
  unfoldable pub match_fabric : ℕ → Text → Bool → Hinted S → Matched S
  unfolding cut match_parts
  match_fabric a addr local st =
      match_parts a local (cut addr) (record st { buffers = a ∷ st.buffers })
