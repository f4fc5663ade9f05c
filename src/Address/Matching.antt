-- ===== src/Address/Matching.antt =====
-- What `ofi_match_fabric` asks, returns and leaves behind (src/transports/ofi/ofiapi.c).
use nanomsg_transport_ofi.Prelude.{
  is_some, ℕ, ◌==◌, ◌≡◌, refl, sym, ap, subst, ◌∙◌, arith, Option, none, some, List, [], ◌∷◌, ◌++◌,
  Bool, if◌then◌else◌, ◌||◌, false, contains, ℤ, zero, suc, pos, negsuc, einval,
}
use nanomsg_transport_ofi.Address.RoundTrip.{WellSpelt, Lacks, print, cut-print, cut-unserviced}
use nanomsg_transport_ofi.Address.{
  Text, Parts, FabricAttr, Query, Hinted, Matched, enodata, drop_buffer, match_fabric, match_parts,
  hint, query, pointer, release, ask, answered,
}

drop_buffer-absent : (a : ℕ) (xs : List ℕ) → contains a xs ≡ false → drop_buffer a xs ≡ xs
unfolding drop_buffer
drop_buffer-absent a [] h = refl
drop_buffer-absent a (x ∷ xs) h = ground (arith, h, drop_buffer-absent a xs)

contains-drop_buffer : (a : ℕ) (xs : List ℕ) → contains a (drop_buffer a xs) ≡ false
unfolding drop_buffer
contains-drop_buffer a [] = refl
contains-drop_buffer a (x ∷ xs) = ground (arith, contains-drop_buffer a xs)

drop_buffer-head : (a : ℕ) (xs : List ℕ) → contains a xs ≡ false → drop_buffer a (a ∷ xs) ≡ xs
unfolding drop_buffer
drop_buffer-head a xs h = ground (arith, drop_buffer-absent a xs h)

-- The value of `ret` that a call of `fi_getinfo` leads to.
abbrev pub verdict : ℤ → Option ℕ → ℤ
verdict (pos zero) none = enodata
verdict (pos zero) (some f) = pos 0
verdict (pos (suc n)) ans = pos (suc n)
verdict (negsuc n) ans = negsuc n

-- The hints with the fabric and the provider of `p`, copied to `a`, if it has one of these.
abbrev pub hints_for : ℕ → Parts → Option FabricAttr → Option FabricAttr
hints_for a p attr =
    if is_some p.fabric || is_some p.provider
    then some (record { name = pointer a p.fabric; prov_name = pointer a p.provider })
    else attr

hint-both :
    (a : ℕ) (n s : Text) (f p : Option Text) (attr : Option FabricAttr)
    → hint a f p attr
      ≡ hints_for a (record { node = n; service = s; fabric = f; provider = p }) attr
unfolding hint
hint-both a n s none none attr = refl
hint-both a n s none (some p) attr = refl
hint-both a n s (some f) none attr = refl
hint-both a n s (some f) (some p) attr = refl

hint-value :
    (a : ℕ) (p : Parts) (attr : Option FabricAttr)
    → hint a p.fabric p.provider attr ≡ hints_for a p attr
hint-value a p attr = hint-both a p.node p.service p.fabric p.provider attr

-- An address with a fabric, and one with a node and a service only.
abbrev pub on_fabric : Text → Text → Text → Option Text → Parts
on_fabric n s f v = record { node = n; service = s; fabric = some f; provider = v }

abbrev pub plain : Text → Text → Parts
plain n s = record { node = n; service = s; fabric = none; provider = none }

-- The hints as they are after an address with the fabric `f` was copied to `a`.
abbrev pub named : ℕ → Text → Option Text → Option FabricAttr
named a f p =
    some (record { name = some (record { buffer = a; text = f }); prov_name = pointer a p })

module _ {S : Type 0} (fi_getinfo : Query → S → (ℤ × Option ℕ) × S) where
  -- What a call for the parts `p` comes to: one question to `fi_getinfo`, whose failure is passed on and
  -- whose empty answer is -FI_ENODATA; the hints keep what they were asked with.
  unfoldable pub outcome : Bool → Parts → ℕ → Hinted S → Matched S
  outcome local p a st =
      let hints = hints_for a p st.fabric_attr in
      let ((ret, ans), w) =
        fi_getinfo (record { node = p.node; service = p.service; source = local; hints = hints })
          st.world in
      record {
        ret = verdict ret ans;
        ans = ans;
        state = record { fabric_attr = hints; buffers = st.buffers; world = w };
      }

  answered-verdict :
      (ret : ℤ) (ans : Option ℕ) (st : Hinted S)
      → answered fi_getinfo ret ans st ≡ record { ret = verdict ret ans; ans = ans; state = st }
  unfolding answered
  answered-verdict (pos zero) none st = refl
  answered-verdict (pos zero) (some f) st = refl
  answered-verdict (pos (suc n)) ans st = refl
  answered-verdict (negsuc n) ans st = refl

  match_parts-outcome :
      (a : ℕ) (p : Parts) (local : Bool) (st : Hinted S)
      → contains a st.buffers ≡ false
      → match_parts fi_getinfo a local (some p) (record st { buffers = a ∷ st.buffers })
        ≡ outcome local p a st
  unfolding match_parts outcome ask release query
  match_parts-outcome a p local st h =
      let hs = hints_for a p st.fabric_attr in
      let q : Query = query local p hs in
      let r : (ℤ × Option ℕ) × S = fi_getinfo q st.world in
      let opened : Hinted S = record st { buffers = a ∷ st.buffers } in
      ap (λ z. ask fi_getinfo a (query local p z) opened) (hint-value a p st.fabric_attr)
      ∙ ap
          (λ z.
            answered fi_getinfo r.0.0 r.0.1 (record { fabric_attr = hs; buffers = z; world = r.1 }))
          (drop_buffer-head a st.buffers h)
      ∙ answered-verdict r.0.0 r.0.1
          (record { fabric_attr = hs; buffers = st.buffers; world = r.1 })

  -- A well-spelt address is looked up by one question to `fi_getinfo`, for the node, the service and the
  -- fabric and provider it was written from and with FI_SOURCE if the address is local; a failure is passed
  -- on, an empty answer is -FI_ENODATA, and the buffers are as before. The buffer of the copy is a new one.
  pub match_fabric-print :
      (a : ℕ) (p : Parts) (local : Bool) (st : Hinted S)
      → WellSpelt p
      → contains a st.buffers ≡ false
      → match_fabric fi_getinfo a (print p) local st ≡ outcome local p a st
  unfolding match_fabric
  match_fabric-print a p local st w h =
      ap (λ z. match_parts fi_getinfo a local z (record st { buffers = a ∷ st.buffers }))
        (cut-print p w)
      ∙ match_parts-outcome a p local st h

  -- An address with no `:` before its last `@` is refused with -EINVAL; nothing is asked, and the hints and
  -- the buffers are as before. The buffer of the copy is a new one.
  pub match_fabric-unserviced :
      (a : ℕ) (n f : Text) (local : Bool) (st : Hinted S)
      → Lacks b':' n
      → Lacks b'@' f
      → contains a st.buffers ≡ false
      → match_fabric fi_getinfo a (n ++ b'@' ∷ f) local st
        ≡ record { ret = einval; ans = none; state = st }
  unfolding match_fabric match_parts release
  match_fabric-unserviced a n f local st h k u =
      ap (λ z. match_parts fi_getinfo a local z (record st { buffers = a ∷ st.buffers }))
        (cut-unserviced n f h k)
      ∙ ap (λ z. record { ret = einval; ans = none; state = record st { buffers = z } })
          (drop_buffer-head a st.buffers u)

  -- After the address `p`, copied to `a`, the address `r`, copied to `b`, is asked for with the hints `h`, and
  -- `a` is not allocated then.
  abbrev pub AsksStale : ℕ → ℕ → Parts → Parts → Option FabricAttr → Bool → Bool → Hinted S → Type 0
  AsksStale a b p r h l k st =
      let after = (match_fabric fi_getinfo a (print p) l st).state in
      (contains a (b ∷ after.buffers) ≡ false)
      × ((match_fabric fi_getinfo b (print r) k after).state.world
          ≡ (fi_getinfo (query k r h) after.world).1)

  -- After an address with a fabric, the question for a later one without fabric and provider is asked with
  -- the fabric of the earlier one, and the name it gives points into the copy of that address, which is free.
  -- Both addresses are well-spelt, and their copies are at new and different places.
  pub match_fabric-stale :
      (a b : ℕ) (n s f : Text) (v : Option Text) (m t : Text) (l k : Bool) (st : Hinted S)
      → WellSpelt (on_fabric n s f v)
      → WellSpelt (plain m t)
      → contains a st.buffers ≡ false
      → contains b st.buffers ≡ false
      → (b == a) ≡ false
      → AsksStale a b (on_fabric n s f v) (plain m t) (named a f v) l k st
  unfolding outcome pointer query
  match_fabric-stale a b n s f v m t l k st w u ha hb e =
      let p : Parts = on_fabric n s f v in
      let r : Parts = plain m t in
      let after : Hinted S = record {
        fabric_attr = named a f v;
        buffers = st.buffers;
        world = (fi_getinfo (query l p (named a f v)) st.world).1;
      } in
      subst
        (λ (z : Hinted S).
          (contains a (b ∷ z.buffers) ≡ false)
          × ((match_fabric fi_getinfo b (print r) k z).state.world
              ≡ (fi_getinfo (query k r (named a f v)) z.world).1))
        (sym (ap (λ z. z.state) (match_fabric-print a p l st w ha)))
        (ground (arith, e, ha), ap (λ z. z.state.world) (match_fabric-print b r k after u hb))
