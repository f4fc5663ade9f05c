-- ===== src/Mr/Context/Balance.antt =====
-- `ofi_mr_release` gives back all that `ofi_mr_describe` took; a description that fails gives all
-- of it back by itself, but for its two heap blocks.
use nanomsg_transport_ofi.Prelude.{
  ℕ, zero, suc, ◌+◌, ◌≡◌, ◌∙◌, inl, inr, none, some, ℤ, arith, inc, dec, dec-inc, Bool-cases, ltb,
  ap, if◌then◌else◌, List, length, pos, negsuc, subst,
}
use nanomsg_transport_ofi.Mr.State.{Bank, Provider, Mr}
use nanomsg_transport_ofi.Mr.Context.{
  Iov, Context, max_banks_per_context, Progress, release_banks, release, undo, describe_from,
  finish, begin, describe,
}
use nanomsg_transport_ofi.Mr.Context.Steps.{
  Balanced, describe_from-Balanced, release_banks-ref, release_banks-held, release_banks-slabs,
  release_banks-counts, release_slabs-inuse, release_slabs-Same,
}

module _ {E : Type 0} where
  -- Every bank counter, slab flag and lock of `t` is that of `s`, and `t` has `leak` more blocks.
  pub record Restored (leak : ℕ) (s t : Mr E) : Type 0 where
    pub ref : (j : ℕ) → (t.banks j).ref ≡ (s.banks j).ref
    pub inuse : (j : ℕ) → (t.slabs j).inuse ≡ (s.slabs j).inuse
    pub held : (j : ℕ) → t.held j ≡ s.held j
    pub slab_held : t.slab_held ≡ s.slab_held
    pub allocated : t.allocated ≡ s.allocated + leak

  release-Restored :
      (s : Mr E) (p : Progress E) → Balanced s p → Restored 0 s (release p.ctx p.state)
  unfolding release
  release-Restored s p b =
      let u = release_banks p.ctx.banks p.state in
      let f = release_slabs-Same p.ctx.slabs u in
      let c = release_banks-counts p.ctx.banks p.state in
      record {
        ref = λ j.
            ap (λ (g : ℕ → Bank). (g j).ref) f.banks
            ∙ release_banks-ref p.ctx.banks p.state j
            ∙ b.ref j;
        inuse = λ j. ground (
          arith,
          release_slabs-inuse p.ctx.slabs u j,
          release_banks-slabs p.ctx.banks p.state,
          b.inuse j,
        );
        held = λ j.
            ap (λ (g : ℕ → ℤ). g j) f.held ∙ release_banks-held p.ctx.banks p.state j ∙ b.held j;
        slab_held = f.slab_held ∙ c.1 ∙ b.slab_held;
        allocated = omega (arith, f.allocated, c.0, b.allocated);
      }

  undo-Restored : (s : Mr E) (p : Progress E) → Balanced s p → Restored 2 s (undo p.ctx p.state)
  unfolding undo
  undo-Restored s p b =
      let u = release_banks p.ctx.banks p.state in
      let v : Mr E = record u { slab_held = inc u.slab_held } in
      let f = release_slabs-Same p.ctx.slabs v in
      let c = release_banks-counts p.ctx.banks p.state in
      record {
        ref = λ j.
            ap (λ (g : ℕ → Bank). (g j).ref) f.banks
            ∙ release_banks-ref p.ctx.banks p.state j
            ∙ b.ref j;
        inuse = λ j. ground (
          arith,
          release_slabs-inuse p.ctx.slabs v j,
          release_banks-slabs p.ctx.banks p.state,
          b.inuse j,
        );
        held = λ j.
            ap (λ (g : ℕ → ℤ). g j) f.held ∙ release_banks-held p.ctx.banks p.state j ∙ b.held j;
        slab_held = ap dec f.slab_held ∙ dec-inc u.slab_held ∙ c.1 ∙ b.slab_held;
        allocated = omega (arith, f.allocated, c.0, b.allocated);
      }

  begin-Balanced : (s : Mr E) → Balanced s (begin s)
  begin-Balanced s = ground arith

  finish-handle :
      (s : Mr E) (r : ℤ × Progress E × List Iov) (ctx : Context)
      → Balanced s r.1
      → (finish r).handle ≡ some ctx
      → Restored 0 s (release ctx (finish r).state)
  finish-handle s (pos zero, p, rest) ctx b h =
      let e : p.ctx ≡ ctx = cc in
      subst (λ (c : Context). Restored 0 s (release c p.state)) e (release-Restored s p b)
  finish-handle s (pos (suc n), p, rest) ctx b h = cc
  finish-handle s (negsuc n, p, rest) ctx b h = cc

  finish-none :
      (s : Mr E) (r : ℤ × Progress E × List Iov)
      → Balanced s r.1
      → (finish r).handle ≡ none
      → Restored 2 s (finish r).state
  finish-none s (pos zero, p, rest) b h = cc
  finish-none s (pos (suc n), p, rest) b h = undo-Restored s p b
  finish-none s (negsuc n, p, rest) b h = undo-Restored s p b

module _ {E : Type 0} (api : Provider E) where
  -- If `ofi_mr_describe` hands out a context, releasing that context restores the counter of every
  -- bank, the flag of every slab, every lock and the number of heap blocks.
  pub release-describe :
      (s : Mr E) (iovs : List Iov) (ctx : Context)
      → (describe api s iovs).handle ≡ some ctx
      → Restored 0 s (release ctx (describe api s iovs).state)
  unfolding describe
  release-describe s iovs ctx = elim (Bool-cases (ltb max_banks_per_context (length iovs))) [
    | inl e ↦ rw e (λ h. cc)
    | inr e ↦ rw e (
        finish-handle s (describe_from api (begin s) iovs) ctx
          (describe_from-Balanced api s (begin s) iovs (begin-Balanced s)))
  ]

  -- If it hands out none, it has restored them itself, except that the context and its array of
  -- descriptors are not freed; only an array that is too long allocates nothing.
  pub describe_failed :
      (s : Mr E) (iovs : List Iov)
      → (describe api s iovs).handle ≡ none
      → Restored
          (if ltb max_banks_per_context (length iovs) then 0 else 2)
          s
          (describe api s iovs).state
  unfolding describe
  describe_failed s iovs = elim (Bool-cases (ltb max_banks_per_context (length iovs))) [
    | inl e ↦ rw e (λ h. ground arith)
    | inr e ↦ rw e (
        finish-none s (describe_from api (begin s) iovs)
          (describe_from-Balanced api s (begin s) iovs (begin-Balanced s)))
  ]
