-- ===== src/Mr/Context/Steps.antt =====
-- What releasing does to counters and slabs, and the invariant of the loop of `ofi_mr_describe`.
use nanomsg_transport_ofi.Prelude.{
  ℕ, ◌+◌, ◌≡◌, ◌∙◌, inl, inr, false, arith, dec-inc, dec_by, Bool-cases, refl, update,
  if◌then◌else◌, List, [], ◌∷◌, count, contains, count-snoc, contains-snoc, ◌==◌, is_zero,
}
use nanomsg_transport_ofi.Mr.State.{Provider, Mr}
use nanomsg_transport_ofi.Mr.Bank.{Outcome, ok, fail}
use nanomsg_transport_ofi.Mr.Bank.Find.{Untouched, find_bank-Untouched, locks_of, find_bank-locks}
use nanomsg_transport_ofi.Mr.Slab.Payload.{Takes, try_slab-Takes, Same, try_slab-Same}
use nanomsg_transport_ofi.Mr.Context.{
  Iov, Progress, release_banks, release_slabs, from_bank, from_slab, describe_iov, describe_from,
}

module _ {E : Type 0} where
  pub release_banks-ref :
      (is : List ℕ) (s : Mr E) (j : ℕ)
      → ((release_banks is s).banks j).ref ≡ dec_by (count j is) (s.banks j).ref
  unfolding release_banks
  release_banks-ref [] s j = refl
  release_banks-ref (i ∷ is) s j = release_banks-ref is _ j ∙ ground arith

  pub release_banks-held : (is : List ℕ) (s : Mr E) (j : ℕ) → (release_banks is s).held j ≡ s.held j
  unfolding release_banks
  release_banks-held [] s j = refl
  release_banks-held (i ∷ is) s j = release_banks-held is _ j ∙ ground (arith, dec-inc (s.held i))

  pub release_banks-slabs : (is : List ℕ) (s : Mr E) → (release_banks is s).slabs ≡ s.slabs
  unfolding release_banks
  release_banks-slabs [] s = refl
  release_banks-slabs (i ∷ is) s = release_banks-slabs is _

  pub release_banks-counts :
      (is : List ℕ) (s : Mr E)
      → ((release_banks is s).allocated ≡ s.allocated)
        × ((release_banks is s).slab_held ≡ s.slab_held)
  unfolding release_banks
  release_banks-counts [] s = (refl, refl)
  release_banks-counts (i ∷ is) s = release_banks-counts is _

  pub release_slabs-inuse :
      (is : List ℕ) (s : Mr E) (j : ℕ)
      → ((release_slabs is s).slabs j).inuse ≡ (if contains j is then false else (s.slabs j).inuse)
  unfolding release_slabs
  release_slabs-inuse [] s j = refl
  release_slabs-inuse (i ∷ is) s j = release_slabs-inuse is _ j ∙ ground arith

  pub release_slabs-Same : (is : List ℕ) (s : Mr E) → Same s (release_slabs is s)
  unfolding release_slabs
  release_slabs-Same [] s = assumption refl
  release_slabs-Same (i ∷ is) s =
      let f =
        release_slabs-Same is
          (record s { slabs = update s.slabs i (record (s.slabs i) { inuse = false }) }) in
      record {
        banks = f.banks;
        held = f.held;
        slab_held = f.slab_held;
        attr = f.attr;
        slab_mr = f.slab_mr;
        allocated = f.allocated;
      }

  -- Undoing what `p` has acquired would give back the counters, slabs and locks of `s`.
  pub record Balanced (s : Mr E) (p : Progress E) : Type 0 where
    pub ref : (j : ℕ) → dec_by (count j p.ctx.banks) (p.state.banks j).ref ≡ (s.banks j).ref
    pub inuse :
        (j : ℕ)
        → (if contains j p.ctx.slabs then false else (p.state.slabs j).inuse) ≡ (s.slabs j).inuse
    pub held : (j : ℕ) → p.state.held j ≡ s.held j
    pub slab_held : p.state.slab_held ≡ s.slab_held
    pub allocated : p.state.allocated ≡ s.allocated + 2

module _ {E : Type 0} (api : Provider E) where
  from_bank-Balanced :
      (s : Mr E) (p : Progress E) (iov : Iov) (r : Outcome × Mr E)
      → Untouched p.state r.1
      → ((j : ℕ) → r.1.held j ≡ locks_of p.state.held r.0 j)
      → Balanced s p
      → Balanced s (from_bank api p iov r).1
  from_bank-Balanced s p iov (fail ret, t) u l b = record {
    ref = λ j. ground (arith, u.ref j, b.ref j);
    inuse = λ j. ground (arith, u.slabs, b.inuse j);
    held = λ j. l j ∙ b.held j;
    slab_held = u.slab_held ∙ b.slab_held;
    allocated = u.allocated ∙ b.allocated;
  }
  from_bank-Balanced s p iov (ok i, t) u l b = record {
    ref = λ j.
        ground
          (arith, count-snoc j i p.ctx.banks, u.ref j, u.ref i, b.ref j, dec-inc (t.banks i).ref);
    inuse = λ j. ground (arith, u.slabs, b.inuse j);
    held = λ j. ground (arith, l j, l i, b.held j, b.held i, dec-inc (p.state.held i));
    slab_held = u.slab_held ∙ b.slab_held;
    allocated = u.allocated ∙ b.allocated;
  }

  from_slab-Balanced :
      (s : Mr E) (p : Progress E) (iov : Iov) (r : Outcome × Mr E)
      → Takes p.state iov.iov_base iov.iov_len r
      → Same p.state r.1
      → Balanced s p
      → Balanced s (from_slab api p iov r).1
  from_slab-Balanced s p iov (ok i, t) k f b = record {
    ref = λ j. ground (arith, f.banks, b.ref j);
    inuse = λ j. ground (arith, contains-snoc j i p.ctx.slabs, k.1.1, k.2, b.inuse j);
    held = λ j. ground (arith, f.held, b.held j);
    slab_held = f.slab_held ∙ b.slab_held;
    allocated = f.allocated ∙ b.allocated;
  }
  from_slab-Balanced s p iov (fail e, t) (inl k) f b = rw k.2 (
      from_bank-Balanced s p iov _ (find_bank-Untouched api p.state iov.iov_base iov.iov_len)
        (find_bank-locks api p.state iov.iov_base iov.iov_len) b)
  from_slab-Balanced s p iov (fail e, t) (inr k) f b = rw k.2 (
      from_bank-Balanced s p iov _ (find_bank-Untouched api p.state iov.iov_base iov.iov_len)
        (find_bank-locks api p.state iov.iov_base iov.iov_len) b)

  -- One element keeps the balance, whether or not it succeeds.
  pub describe_iov-Balanced :
      (s : Mr E) (p : Progress E) (iov : Iov) → Balanced s p → Balanced s (describe_iov api p iov).1
  unfolding describe_iov
  describe_iov-Balanced s p iov b = elim (Bool-cases (iov.iov_len == 0)) [
    | inl e ↦ rw e (record {
      ref = b.ref;
      inuse = b.inuse;
      held = b.held;
      slab_held = b.slab_held;
      allocated = b.allocated;
    })
    | inr e ↦ rw e (
        from_slab-Balanced s p iov _ (try_slab-Takes p.state iov.iov_base iov.iov_len)
          (try_slab-Same p.state iov.iov_base iov.iov_len) b)
  ]

  pub describe_from-Balanced :
      (s : Mr E) (p : Progress E) (iovs : List Iov)
      → Balanced s p
      → Balanced s (describe_from api p iovs).1
  unfolding describe_from
  describe_from-Balanced s p [] b = b
  describe_from-Balanced s p (iov ∷ rest) b =
      elim (Bool-cases (is_zero (describe_iov api p iov).0)) [
        | inl e ↦
            rw (e, describe_from)
              (describe_from-Balanced s (describe_iov api p iov).1 rest
                (describe_iov-Balanced s p iov b))
        | inr e ↦ rw (e, describe_from) (describe_iov-Balanced s p iov b)
      ]
