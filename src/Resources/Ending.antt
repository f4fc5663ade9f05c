-- ===== src/Resources/Ending.antt =====
-- The end of all fabrics, and the close of one that was opened.
use nanomsg_transport_ofi.Prelude.{
  ℕ, zero, suc, ◌+◌, ◌-◌, ◌≤◌, ◌≡◌, ◌==◌, ltb, Bool, true, false, List, [], ◌∷◌, ◌++◌, map,
  if◌then◌else◌, refl, ap, sym, ◌∙◌, subst, arith, Bool-cases, inl, inr, contains,
}
use nanomsg_transport_ofi.Resources.{
  Fabric, Parts, Resources, close_domains, released, close_in, fabric_close, term_from,
}

-- How often the fabrics must be closed.
abbrev pub closes : List Fabric → ℕ
closes [] = 0
closes (f ∷ fs) = closes fs + (if ltb 1 f.ref then f.ref else 1)

shared :
    (n m : ℕ) (h : ltb 1 n ≡ true)
    → suc (m + (if ltb 1 (n - 1) then n - 1 else 1)) ≡ m + (if ltb 1 n then n else 1)
shared n m h = ground (arith, h)

last : (n m : ℕ) → ltb 1 n ≡ false → suc m ≡ m + (if ltb 1 n then n else 1)
last n m h = ground (arith, h)

same : (a : ℕ) → (a == a) ≡ true
same a = ground arith

positive : (m n : ℕ) → m + (if ltb 1 n then n else 1) ≤ 0 → ⊥
positive m n h = ground (arith, h)

module _ {S : Type 0} (parts : Parts S) where
  released-closes :
      (f : Fabric) (fs : List Fabric) (s : S)
      → suc (closes (released parts f fs s).0) ≡ closes (f ∷ fs)
  released-closes f fs s =
      let less : List Fabric × S = (record f { ref = f.ref - 1 } ∷ fs, s) in
      let gone : List Fabric × S = (fs, parts.pool_term (close_domains parts f.domains s)) in
      let pick : Bool → List Fabric × S = λ z. if z then less else gone in
      elim (Bool-cases (ltb 1 f.ref)) [
        | inl h ↦ ap (λ z. suc (closes (pick z).0)) h ∙ shared f.ref (closes fs) h
        | inr h ↦ ap (λ z. suc (closes (pick z).0)) h ∙ last f.ref (closes fs) h
      ]

  close-first :
      (f : Fabric) (fs : List Fabric) (s : S)
      → close_in parts (f ∷ fs) f.address s ≡ released parts f fs s
  unfolding close_in
  close-first f fs s =
      ap
        (λ z.
          if z
          then released parts f fs s
          else (f ∷ (close_in parts fs f.address s).0, (close_in parts fs f.address s).1))
        (same f.address)

  run :
      (k : ℕ) (fs : List Fabric) (r : Resources S)
      → r.fabrics ≡ fs
      → closes fs ≤ k
      → (term_from parts k r fs).fabrics ≡ []
  unfolding term_from fabric_close
  run zero [] r q h = q
  run (suc k) [] r q h = q
  run zero (f ∷ fs) r q h = absurd (positive (closes fs) f.ref h)
  run (suc k) (f ∷ fs) r q h =
      let next = fabric_close parts r f.address in
      let e : next.fabrics ≡ (released parts f fs r.world).0 =
        ap (λ z. (close_in parts z f.address r.world).0) q
        ∙ ap (λ z. z.0) (close-first f fs r.world) in
      run k next.fabrics next refl
        (subst (λ z. closes z ≤ k) (sym e) (omega (arith, h, released-closes f fs r.world)))

  -- With fuel for each reference, the loop of `ofi_term` ends with no fabric left.
  pub term-empties :
      (k : ℕ) (r : Resources S)
      → closes r.fabrics ≤ k
      → (term_from parts k r r.fabrics).fabrics ≡ []
  term-empties k r h = run k r.fabrics r refl h

  -- Closing a fabric right after it was opened, at an address that no other one has, leaves the others.
  pub close-last :
      (fs : List Fabric) (a : ℕ) (s : S)
      → contains a (map (λ f. f.address) fs) ≡ false
      → close_in parts (fs ++ record { address = a; ref = 1; domains = [] } ∷ []) a s
        ≡ (fs, parts.pool_term s)
  unfolding close_in close_domains
  close-last [] a s h = close-first (record { address = a; ref = 1; domains = [] }) [] s
  close-last (f ∷ fs) a s h =
      let c : (f.address == a) ≡ false = ground (arith, h) in
      let new : List Fabric = fs ++ record { address = a; ref = 1; domains = [] } ∷ [] in
      let r : List Fabric × S = close_in parts new a s in
      let pick : Bool → List Fabric × S =
        λ z. if z then released parts f new s else (f ∷ r.0, r.1) in
      ap pick c
      ∙ ap (λ (z : List Fabric × S). (f ∷ z.0, z.1)) (close-last fs a s (ground (arith, h)))
