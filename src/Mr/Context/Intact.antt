-- ===== src/Mr/Context/Intact.antt =====
-- A description leaves the operations in transit alone: the regions of the banks in use, and the
-- bytes of the slabs in use.
use nanomsg_transport_ofi.Prelude.{
  ℕ, zero, suc, ◌≡◌, ◌∙◌, inl, inr, Bool, true, false, ℤ, pos, negsuc, arith, inc, Bool-cases, ltb,
  refl, ap, List, [], ◌∷◌, length, is_zero, is_pos, ◌==◌,
}
use nanomsg_transport_ofi.Mr.State.{Bank, Provider, Mr}
use nanomsg_transport_ofi.Mr.Bank.{Outcome, ok, fail, is_evictable}
use nanomsg_transport_ofi.Mr.Bank.Find.{Untouched, find_bank-Untouched}
use nanomsg_transport_ofi.Mr.Slab.Payload.{Takes, try_slab-Takes, Same, try_slab-Same}
use nanomsg_transport_ofi.Mr.Context.{
  Iov, Context, max_banks_per_context, Progress, release_banks, release_slabs, undo, from_bank,
  from_slab, describe_iov, describe_from, finish, begin, describe, take_ref,
}
use nanomsg_transport_ofi.Mr.Context.Steps.{release_slabs-Same}

inc-is_pos : (x : ℤ) → is_pos x ≡ true → is_pos (inc x) ≡ true
inc-is_pos (pos n) h = refl
inc-is_pos (negsuc n) h = cc

is_pos-ne_zero : (x : ℤ) → is_pos x ≡ true → is_zero x ≡ false
is_pos-ne_zero (pos zero) h = cc
is_pos-ne_zero (pos (suc n)) h = refl
is_pos-ne_zero (negsuc n) h = refl

-- A bank in use may not be evicted.
in_use-not-evictable : (b : Bank) → is_pos b.ref ≡ true → is_evictable b ≡ false
unfolding is_evictable
in_use-not-evictable b h = rw (is_pos-ne_zero b.ref h)

-- The region of a bank
pub record Region : Type 0 where
  pub base : ℕ
  pub len : ℕ
  pub mr : ℕ
  pub registered : Bool

abbrev pub region : Bank → Region
region b = record { base = b.base; len = b.len; mr = b.mr; registered = b.registered }

module _ {E : Type 0} where
  release_banks-region :
      (is : List ℕ) (s : Mr E) (j : ℕ) → region ((release_banks is s).banks j) ≡ region (s.banks j)
  unfolding release_banks
  release_banks-region [] s j = refl
  release_banks-region (i ∷ is) s j = release_banks-region is _ j ∙ ground arith

  release_banks-mem : (is : List ℕ) (s : Mr E) → (release_banks is s).mem ≡ s.mem
  unfolding release_banks
  release_banks-mem [] s = refl
  release_banks-mem (i ∷ is) s = release_banks-mem is _

  release_slabs-mem : (is : List ℕ) (s : Mr E) → (release_slabs is s).mem ≡ s.mem
  unfolding release_slabs
  release_slabs-mem [] s = refl
  release_slabs-mem (i ∷ is) s = release_slabs-mem is _

  undo-region : (c : Context) (s : Mr E) (j : ℕ) → region ((undo c s).banks j) ≡ region (s.banks j)
  unfolding undo
  undo-region c s j =
      ap (λ (g : ℕ → Bank). region (g j)) (release_slabs-Same c.slabs _).banks
      ∙ release_banks-region c.banks s j

  undo-mem : (c : Context) (s : Mr E) → (undo c s).mem ≡ s.mem
  unfolding undo
  undo-mem c s = release_slabs-mem c.slabs _ ∙ release_banks-mem c.banks s

  finish-region :
      (r : ℤ × Progress E × List Iov) (j : ℕ)
      → region ((finish r).state.banks j) ≡ region (r.1.state.banks j)
  finish-region (pos zero, p, rest) j = refl
  finish-region (pos (suc n), p, rest) j = undo-region p.ctx p.state j
  finish-region (negsuc n, p, rest) j = undo-region p.ctx p.state j

  pub finish-mem : (r : ℤ × Progress E × List Iov) → (finish r).state.mem ≡ r.1.state.mem
  finish-mem (pos zero, p, rest) = refl
  finish-mem (pos (suc n), p, rest) = undo-mem p.ctx p.state
  finish-mem (negsuc n, p, rest) = undo-mem p.ctx p.state

  -- Bank `j` of `t` is in use and has the region `r`.
  record HasRegion (j : ℕ) (r : Region) (t : Mr E) : Type 0 where
    in_use : is_pos (t.banks j).ref ≡ true
    same : region (t.banks j) ≡ r

  take_ref-HasRegion :
      (i j : ℕ) (r : Region) (t : Mr E) → HasRegion j r t → HasRegion j r (take_ref t i)
  take_ref-HasRegion i j r t h = record {
    in_use = ground (arith, inc-is_pos (t.banks i).ref);
    same = ground arith;
  }

module _ {E : Type 0} (api : Provider E) where
  -- What every element keeps, the loop keeps.
  pub describe_from-keeps :
      (P : Mr E → Type 0)
      → ((p : Progress E) (iov : Iov) → P p.state → P (describe_iov api p iov).1.state)
      → (p : Progress E) (iovs : List Iov) → P p.state
      → P (describe_from api p iovs).1.state
  unfolding describe_from
  describe_from-keeps P step p [] h = h
  describe_from-keeps P step p (iov ∷ rest) h =
      elim (Bool-cases (is_zero (describe_iov api p iov).0)) [
        | inl e ↦
            rw (e, describe_from)
              (describe_from-keeps P step (describe_iov api p iov).1 rest (step p iov h))
        | inr e ↦ rw (e, describe_from) (step p iov h)
      ]

  from_bank-HasRegion :
      (j : ℕ) (r : Region) (p : Progress E) (iov : Iov) (q : Outcome × Mr E)
      → Untouched p.state q.1
      → HasRegion j r p.state
      → HasRegion j r (from_bank api p iov q).1.state
  from_bank-HasRegion j r p iov (fail e, t) u h =
      let k = u.busy j (in_use-not-evictable (p.state.banks j) h.in_use) in
      record { in_use = rw k h.in_use; same = rw k h.same }
  from_bank-HasRegion j r p iov (ok i, t) u h =
      let k = u.busy j (in_use-not-evictable (p.state.banks j) h.in_use) in
      take_ref-HasRegion i j r t (record { in_use = rw k h.in_use; same = rw k h.same })

  from_slab-HasRegion :
      (j : ℕ) (r : Region) (p : Progress E) (iov : Iov) (q : Outcome × Mr E)
      → Takes p.state iov.iov_base iov.iov_len q
      → Same p.state q.1
      → HasRegion j r p.state
      → HasRegion j r (from_slab api p iov q).1.state
  from_slab-HasRegion j r p iov (ok i, t) k f h = record {
    in_use = rw f.banks h.in_use;
    same = rw f.banks h.same;
  }
  from_slab-HasRegion j r p iov (fail e, t) (inl k) f h =
      rw k.2 (
        from_bank-HasRegion j r p iov _ (find_bank-Untouched api p.state iov.iov_base iov.iov_len)
          h)
  from_slab-HasRegion j r p iov (fail e, t) (inr k) f h =
      rw k.2 (
        from_bank-HasRegion j r p iov _ (find_bank-Untouched api p.state iov.iov_base iov.iov_len)
          h)

  describe_iov-HasRegion :
      (j : ℕ) (r : Region) (p : Progress E) (iov : Iov)
      → HasRegion j r p.state
      → HasRegion j r (describe_iov api p iov).1.state
  unfolding describe_iov
  describe_iov-HasRegion j r p iov h = elim (Bool-cases (iov.iov_len == 0)) [
    | inl e ↦ rw e h
    | inr e ↦ rw e (
        from_slab-HasRegion j r p iov _ (try_slab-Takes p.state iov.iov_base iov.iov_len)
          (try_slab-Same p.state iov.iov_base iov.iov_len) h)
  ]

  -- Whether or not it succeeds, `ofi_mr_describe` leaves the base, length, handle and registration
  -- of a bank that was in use before as they were.
  pub region-describe :
      (s : Mr E) (iovs : List Iov) (j : ℕ)
      → is_pos (s.banks j).ref ≡ true
      → region ((describe api s iovs).state.banks j) ≡ region (s.banks j)
  unfolding describe
  region-describe s iovs j h = elim (Bool-cases (ltb max_banks_per_context (length iovs))) [
    | inl e ↦ rw e refl
    | inr e ↦ rw e (
        finish-region (describe_from api (begin s) iovs) j
        ∙ (describe_from-keeps (HasRegion j (region (s.banks j)))
            (describe_iov-HasRegion j (region (s.banks j))) (begin s) iovs
            (record { in_use = h; same = refl })).same)
  ]
