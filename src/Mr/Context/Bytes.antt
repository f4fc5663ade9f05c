-- ===== src/Mr/Context/Bytes.antt =====
-- A description leaves the bytes of the slabs in use alone: payloads in transit stay intact.
use nanomsg_transport_ofi.Prelude.{
  ℕ, ◌+◌, ◌≤◌, ◌<◌, ◌≡◌, ◌≢◌, ◌⊎◌, ◌∙◌, inl, inr, true, arith, Bool-cases, ltb, refl, sym, ap, List,
  length, ◌==◌,
}
use nanomsg_transport_ofi.Mr.State.{Attr, Provider, Mr, memcpy}
use nanomsg_transport_ofi.Mr.Bank.{Outcome, ok, fail}
use nanomsg_transport_ofi.Mr.Bank.Find.{Untouched, find_bank-Untouched}
use nanomsg_transport_ofi.Mr.Slab.Payload.{Takes, try_slab-Takes, Same, try_slab-Same}
use nanomsg_transport_ofi.Mr.Setup.Start.{Disjoint}
use nanomsg_transport_ofi.Mr.Context.{
  Iov, max_banks_per_context, Progress, from_bank, from_slab, describe_iov, describe_from, begin,
  describe,
}
use nanomsg_transport_ofi.Mr.Context.Intact.{finish-mem, describe_from-keeps}

-- Copying to another slab does not reach the byte.
apart :
    (mem : ℕ → ℕ) (x y size len ptr a : ℕ)
    → (x + size ≤ y) ⊎ (y + size ≤ x)
    → len ≤ size
    → a < size
    → memcpy mem x ptr len (y + a) ≡ mem (y + a)
apart mem x y size len ptr a d l h = ground arith

module _ {E : Type 0} where
  -- Slab `j` of `t` is in use and holds the byte `v` at offset `a`; the slabs of `t` lie as in `s`.
  record HasByte (s : Mr E) (j a v : ℕ) (t : Mr E) : Type 0 where
    in_use : (t.slabs j).inuse ≡ true
    byte : t.mem ((t.slabs j).addr + a) ≡ v
    layout : (i : ℕ) → (t.slabs i).addr ≡ (s.slabs i).addr
    attr : t.attr ≡ s.attr

module _ {E : Type 0} (api : Provider E) (s : Mr E) (disjoint : Disjoint s) (j a v : ℕ) where
  module _ (hj : j < s.attr.slab_count) (ha : a < s.attr.slab_size) where
    taken-HasByte :
        (t : Mr E) (ptr len : ℕ) (q : Outcome × Mr E)
        → Takes t ptr len q
        → Same t q.1
        → HasByte s j a v t
        → HasByte s j a v q.1
    taken-HasByte t ptr len (fail e, u) (inl k) f h = rw k.2 h
    taken-HasByte t ptr len (fail e, u) (inr k) f h = rw k.2 h
    taken-HasByte t ptr len (ok i, u) k f h = record {
      in_use = ground (arith, k.2, h.in_use);
      byte = rw k.2 (
          rw k.4 (
            ground (
              arith,
              h.byte,
              apart t.mem (t.slabs i).addr (t.slabs j).addr s.attr.slab_size len ptr a far,
            )));
      layout = λ m. ground (arith, k.2, h.layout m);
      attr = f.attr ∙ h.attr;
    }
      where
        differ : i ≢ j
        differ e = ground (arith, k.1.1, h.in_use)

        far :
            ((t.slabs i).addr + s.attr.slab_size ≤ (t.slabs j).addr)
            ⊎ ((t.slabs j).addr + s.attr.slab_size ≤ (t.slabs i).addr)
        far =
            let bound : i < s.attr.slab_count =
              omega (arith, k.1.0, ap (λ (x : Attr). x.slab_count) h.attr) in
            rw (h.layout i, h.layout j) (disjoint i j bound hj differ)

    from_bank-HasByte :
        (p : Progress E) (iov : Iov) (q : Outcome × Mr E)
        → Untouched p.state q.1
        → HasByte s j a v p.state
        → HasByte s j a v (from_bank api p iov q).1.state
    from_bank-HasByte p iov (fail e, t) u h = record {
      in_use = rw u.slabs h.in_use;
      byte = rw (u.slabs, u.mem) h.byte;
      layout = λ m. rw u.slabs (h.layout m);
      attr = u.attr ∙ h.attr;
    }
    from_bank-HasByte p iov (ok i, t) u h = record {
      in_use = rw u.slabs h.in_use;
      byte = rw (u.slabs, u.mem) h.byte;
      layout = λ m. rw u.slabs (h.layout m);
      attr = u.attr ∙ h.attr;
    }

    from_slab-HasByte :
        (p : Progress E) (iov : Iov) (q : Outcome × Mr E)
        → Takes p.state iov.iov_base iov.iov_len q
        → Same p.state q.1
        → HasByte s j a v p.state
        → HasByte s j a v (from_slab api p iov q).1.state
    from_slab-HasByte p iov (ok i, t) k f h =
        taken-HasByte p.state iov.iov_base iov.iov_len (ok i, t) k f h
    from_slab-HasByte p iov (fail e, t) (inl k) f h =
        rw k.2
          (from_bank-HasByte p iov _ (find_bank-Untouched api p.state iov.iov_base iov.iov_len) h)
    from_slab-HasByte p iov (fail e, t) (inr k) f h =
        rw k.2
          (from_bank-HasByte p iov _ (find_bank-Untouched api p.state iov.iov_base iov.iov_len) h)

    describe_iov-HasByte :
        (p : Progress E) (iov : Iov)
        → HasByte s j a v p.state
        → HasByte s j a v (describe_iov api p iov).1.state
    unfolding describe_iov
    describe_iov-HasByte p iov h = elim (Bool-cases (iov.iov_len == 0)) [
      | inl e ↦ rw e h
      | inr e ↦ rw e (
          from_slab-HasByte p iov _ (try_slab-Takes p.state iov.iov_base iov.iov_len)
            (try_slab-Same p.state iov.iov_base iov.iov_len) h)
    ]

    describe_from-HasByte :
        (iovs : List Iov) (p : Progress E)
        → HasByte s j a v p.state
        → HasByte s j a v (describe_from api p iovs).1.state
    describe_from-HasByte iovs p h =
        describe_from-keeps api (HasByte s j a v) describe_iov-HasByte p iovs h

module _ {E : Type 0} (api : Provider E) where
  -- Where no two slabs overlap, `ofi_mr_describe` leaves every byte of a slab that was in use
  -- before as it was, whether or not it succeeds.
  pub describe_bytes :
      (s : Mr E) (iovs : List Iov) (j a : ℕ)
      → Disjoint s
      → j < s.attr.slab_count
      → a < s.attr.slab_size
      → (s.slabs j).inuse ≡ true
      → (describe api s iovs).state.mem ((s.slabs j).addr + a) ≡ s.mem ((s.slabs j).addr + a)
  unfolding describe
  describe_bytes s iovs j a d hj ha u =
      elim (Bool-cases (ltb max_banks_per_context (length iovs))) [
        | inl e ↦ rw e refl
        | inr e ↦ rw (e, finish-mem (describe_from api (begin s) iovs)) kept
      ]
    where
      kept :
          (describe_from api (begin s) iovs).1.state.mem ((s.slabs j).addr + a)
          ≡ s.mem ((s.slabs j).addr + a)
      kept =
          let h =
            describe_from-HasByte api s d j a (s.mem ((s.slabs j).addr + a)) hj ha iovs (begin s)
              (record { in_use = u; byte = refl; layout = λ i. refl; attr = refl }) in
          ap (λ (x : ℕ). (describe_from api (begin s) iovs).1.state.mem (x + a)) (sym (h.layout j))
          ∙ h.byte
