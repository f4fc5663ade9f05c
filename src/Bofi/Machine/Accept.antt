-- ===== src/Bofi/Machine/Accept.antt =====
-- What a connection request does.
use nanomsg_transport_ofi.Prelude.{
  ℕ, ◌≡◌, ◌<◌, true, false, ℤ, pos, is_zero, List, [], ◌∷◌, ◌++◌, arith, contains, sym, ◌∙◌,
}
use nanomsg_transport_ofi.Bofi.Offsets.{Offsets, new_offset, free_offset}
use nanomsg_transport_ofi.Bofi.Offsets.Fresh.{new_offset-Allocates, free-new}
use nanomsg_transport_ofi.Bofi.Machine.{
  opened, freed, Sofi, not_in_list, Parts, Bofi, done, fault, addresses, erase, start_accepting,
  accepting, reap_sofi, critical_error,
}
use nanomsg_transport_ofi.Bofi.Machine.Handler.{connection_request}

contains-addresses-snoc :
    (s : Sofi) (ss : List Sofi) → contains s.address (addresses (ss ++ s ∷ [])) ≡ true
contains-addresses-snoc s [] = ground arith
contains-addresses-snoc s (t ∷ ts) = ground (arith, contains-addresses-snoc s ts)

erase-snoc :
    (s : Sofi) (ss : List Sofi)
    → contains s.address (addresses ss) ≡ false
    → erase s.address (ss ++ s ∷ []) ≡ ss
unfolding erase
erase-snoc s [] h = ground arith
erase-snoc s (t ∷ ts) h = ground (arith, erase-snoc s ts)

module _ {S : Type 0} (parts : Parts S) where
  open parts use {alloc, sofi_init, sofi_start_accept, pep_release, sofi_term}

  -- The new endpoint, and what the calls before its start leave.
  pub record Prepared (b : Bofi S) : Type 0 where
    pub sofi : Sofi
    pub offsets : Offsets
    pub allocated : S
    pub is_alloc : alloc b.world ≡ (sofi.address, allocated)
    pub is_offset : new_offset b.offsets ≡ (sofi.offset, offsets)
    pub is_new : contains sofi.address (addresses b.sofis) ≡ false

  -- If `nn_sofi_init` fails for a connection request, its clean-up erases the new endpoint from a
  -- list that it is not in, and the process ends; the error is not reported.
  pub init_fails :
      (b : Bofi S) (p : Prepared b) (ret : ℤ) (w : S)
      → sofi_init p.sofi p.allocated ≡ (ret, w)
      → is_zero ret ≡ false
      → connection_request parts b ≡ fault not_in_list
  unfolding connection_request reap_sofi free_offset
  init_fails b p ret w h e =
      let a = new_offset-Allocates b.offsets p.offsets p.sofi.offset p.is_offset in
      ground (arith, p.is_alloc, p.is_offset, p.is_new, a.0.slot)

  accepting-keeps :
      (b d : Bofi S)
      → accepting parts (start_accepting parts b) ≡ done d
      → (d.sofis ≡ b.sofis) × (d.offsets ≡ b.offsets)
  unfolding start_accepting critical_error
  accepting-keeps b d h = ground arith

  -- What the calls for a new endpoint leave when they succeed.
  pub record Accepted (b : Bofi S) (p : Prepared b) : Type 0 where
    pub initialised : S
    pub started : S
    pub is_init : sofi_init p.sofi p.allocated ≡ (pos 0, initialised)
    pub is_start : sofi_start_accept p.sofi initialised ≡ (pos 0, started)

  -- The machine after the new endpoint joined the list.
  abbrev pub with_sofi : (b : Bofi S) (p : Prepared b) → Accepted b p → Bofi S
  with_sofi b p a = record b {
    pep = freed;
    offsets = p.offsets;
    sofis = b.sofis ++ p.sofi ∷ [];
    world = pep_release a.started;
  }

  -- A request whose endpoint is initialised and started closes the passive endpoint, appends the
  -- new endpoint to the list with its offset, and listens again.
  pub request-accepts :
      (b : Bofi S) (p : Prepared b) (a : Accepted b p)
      → b.pep ≡ opened
      → connection_request parts b ≡ accepting parts (start_accepting parts (with_sofi b p a))
  unfolding connection_request
  request-accepts b p a o = ground (arith, p.is_alloc, p.is_offset, a.is_init, a.is_start)

  -- If some slot is free when a connection is accepted, reaping the new endpoint afterwards gives
  -- back the offsets and the list of before, and terminates the endpoint.
  pub reap-accept :
      (b d : Bofi S) (p : Prepared b) (a : Accepted b p) (j : ℕ)
      → b.pep ≡ opened
      → j < b.offsets.size
      → b.offsets.used j ≡ false
      → connection_request parts b ≡ done d
      → reap_sofi parts d p.sofi
        ≡ done (record d { offsets = b.offsets; sofis = b.sofis; world = sofi_term p.sofi d.world })
  unfolding reap_sofi
  reap-accept b d p a j o lt u h =
      let k = accepting-keeps (with_sofi b p a) d (sym (request-accepts b p a o) ∙ h) in
      let f = free-new b.offsets p.offsets p.sofi.offset j lt u p.is_offset in
      let c = contains-addresses-snoc p.sofi b.sofis in
      let e = erase-snoc p.sofi b.sofis p.is_new in ground (arith, k.0, k.1, f, c, e)
