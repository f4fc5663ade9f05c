-- ===== src/Mr/Setup/Start.antt =====
-- The manager that `ofi_mr_init` sets up: fresh banks, and free slabs side by side in one block.
use nanomsg_transport_ofi.Prelude.{
  ℕ, zero, suc, ◌+◌, ◌*◌, ◌≤◌, ◌<◌, ◌≡◌, ◌≢◌, ◌⊎◌, inl, inr, false, ℤ, pos, arith, Bool-cases, ltb,
  dec_lt, ap, ◌∙◌, refl, update,
}
use nanomsg_transport_ofi.Mr.State.{Bank, Slab, Attr, Provider, Mr}
use nanomsg_transport_ofi.Mr.Setup.{
  fresh_bank, init_banks, init_slabs, init, slab_mapped, with_slabs, with_banks,
}

init_slabs_below :
    (k i mem size : ℕ) (slabs : ℕ → Slab) (j : ℕ)
    → j < i
    → init_slabs k i mem size slabs j ≡ slabs j
unfolding init_slabs
init_slabs_below zero i mem size slabs j h = refl
init_slabs_below (suc k) i mem size slabs j h = ground (
  arith,
  init_slabs_below k (i + 1) mem size
      (update slabs i (record { addr = mem + size * i; inuse = false })) j,
)

init_slabs_lem :
    (k i mem size : ℕ) (slabs : ℕ → Slab) (j : ℕ)
    → i ≤ j
    → j < i + k
    → init_slabs k i mem size slabs j ≡ record { addr = mem + size * j; inuse = false }
unfolding init_slabs
init_slabs_lem zero i mem size slabs j h l = absurd (omega arith)
init_slabs_lem (suc k) i mem size slabs j h l = ground (
  arith,
  init_slabs_lem k (i + 1) mem size
      (update slabs i (record { addr = mem + size * i; inuse = false })) j,
  init_slabs_below k (i + 1) mem size
      (update slabs i (record { addr = mem + size * i; inuse = false })) j,
)

init_banks_below : (k i : ℕ) (banks : ℕ → Bank) (j : ℕ) → j < i → init_banks k i banks j ≡ banks j
unfolding init_banks
init_banks_below zero i banks j h = refl
init_banks_below (suc k) i banks j h =
    ground (arith, init_banks_below k (i + 1) (update banks i (fresh_bank (banks i))) j)

init_banks_lem :
    (k i : ℕ) (banks : ℕ → Bank) (j : ℕ)
    → i ≤ j
    → j < i + k
    → init_banks k i banks j ≡ fresh_bank (banks j)
unfolding init_banks
init_banks_lem zero i banks j h l = absurd (omega arith)
init_banks_lem (suc k) i banks j h l = ground (
  arith,
  init_banks_lem k (i + 1) (update banks i (fresh_bank (banks i))) j,
  init_banks_below k (i + 1) (update banks i (fresh_bank (banks i))) j,
)

module _ {E : Type 0} where
  -- No two slabs overlap.
  abbrev pub Disjoint : Mr E → Type 0
  Disjoint s =
      (i j : ℕ)
      → i < s.attr.slab_count
      → j < s.attr.slab_count
      → i ≢ j
      → ((s.slabs i).addr + s.attr.slab_size ≤ (s.slabs j).addr)
        ⊎ ((s.slabs j).addr + s.attr.slab_size ≤ (s.slabs i).addr)

  -- A manager as `ofi_mr_init` leaves it: free banks, free slabs within their block.
  pub record Started (attr : Attr) (mem : ℕ) (s : Mr E) : Type 0 where
    pub attr_set : s.attr ≡ attr
    pub banks_fresh :
        (j : ℕ)
        → j < attr.bank_count
        → ((s.banks j).ref ≡ pos 0)
          × ((s.banks j).base ≡ 0)
          × ((s.banks j).len ≡ 0)
          × ((s.banks j).age ≡ 0)
          × ((s.banks j).registered ≡ false)
          × ((s.banks j).nonvolatile ≡ false)
    pub slabs_free : (j : ℕ) → j < attr.slab_count → (s.slabs j).inuse ≡ false
    pub slabs_inside :
        (j : ℕ)
        → j < attr.slab_count
        → (mem ≤ (s.slabs j).addr)
          × ((s.slabs j).addr + attr.slab_size ≤ mem + attr.slab_count * attr.slab_size)
    pub disjoint : Disjoint s

module _ {E : Type 0} (api : Provider E) where
  slab_mapped-fields :
      (s : Mr E) (r : ℤ × ℕ × E)
      → let t = (slab_mapped api s r).1 in
        (t.attr ≡ s.attr) × (t.banks ≡ s.banks) × (t.slabs ≡ s.slabs)
  slab_mapped-fields s (ret, mr, env) = ground arith

  -- What the structure holds before its regions are registered.
  abbrev prepared : Mr E → Attr → ℕ → Mr E
  prepared s attr mem = record s {
    attr = attr;
    banks = init_banks attr.bank_count 0 s.banks;
    slabs = init_slabs attr.slab_count 0 mem attr.slab_size s.slabs;
  }

  init-fields :
      (s : Mr E) (attr : Attr) (mem : ℕ)
      → let t = (init api s attr mem).1 in
        (t.attr ≡ attr)
        × (t.banks ≡ (prepared s attr mem).banks)
        × (t.slabs ≡ (prepared s attr mem).slabs)
  unfolding init
  init-fields s attr mem = elim (Bool-cases (ltb 0 attr.slab_count)) [
    | inl e ↦
        let t = with_slabs api (with_banks api s attr) attr mem in
        rw e (
          slab_mapped-fields t (
            api.fi_mr_reg t.env mem (attr.slab_count * attr.slab_size) t.access_flags
              attr.base_key))
    | inr e ↦ let z : attr.slab_count ≡ 0 = ground arith in rw e (refl, refl, none_left z)
  ]
    where
      none_left :
          attr.slab_count ≡ 0 → s.slabs ≡ init_slabs attr.slab_count 0 mem attr.slab_size s.slabs
      none_left z = rw (z, init_slabs)

  step_le : (size i j : ℕ) → i < j → size * i + size ≤ size * j
  step_le size i j h = grind arith

  -- Whatever the provider answers, the banks have no reference, range, age, registration or mark, and the slabs are free, disjoint and inside
  -- the block that was allocated for them.
  pub init-Started : (s : Mr E) (attr : Attr) (mem : ℕ) → Started attr mem (init api s attr mem).1
  init-Started s attr mem = record {
    attr_set = f.0;
    banks_fresh = λ j h. bank j h;
    slabs_free = λ j h. ap (λ (b : Slab). b.inuse) (slab j h);
    slabs_inside = λ j h.
        rw (slab j h) (omega arith, omega (arith, step_le attr.slab_size j attr.slab_count h));
    disjoint = apart;
  }
    where
      f :
          let t = (init api s attr mem).1 in
          (t.attr ≡ attr)
          × (t.banks ≡ (prepared s attr mem).banks)
          × (t.slabs ≡ (prepared s attr mem).slabs)
      f = init-fields s attr mem

      slab :
          (j : ℕ)
          → j < attr.slab_count
          → (init api s attr mem).1.slabs j
            ≡ record { addr = mem + attr.slab_size * j; inuse = false }
      slab j h =
          ap (λ (g : ℕ → Slab). g j) f.2
          ∙ init_slabs_lem attr.slab_count 0 mem attr.slab_size s.slabs j (omega arith)
              (omega arith)

      bank :
          (j : ℕ)
          → j < attr.bank_count
          → let b = (init api s attr mem).1.banks j in
            (b.ref ≡ pos 0)
            × (b.base ≡ 0)
            × (b.len ≡ 0)
            × (b.age ≡ 0)
            × (b.registered ≡ false)
            × (b.nonvolatile ≡ false)
      bank j h =
          rw (f.1, init_banks_lem attr.bank_count 0 s.banks j (omega arith) (omega arith))
            (refl, refl, refl, refl, refl, refl)

      apart : Disjoint (init api s attr mem).1
      apart i j hi hj ne =
          let hi' : i < attr.slab_count = rw f.0 at hi in
          let hj' : j < attr.slab_count = rw f.0 at hj in
          rw (f.0, slab i hi', slab j hj')
            (elim (dec_lt i j) [
              | yes lt ↦ inl (omega (arith, step_le attr.slab_size i j lt))
              | no ge ↦ inr (omega (arith, step_le attr.slab_size j i (omega arith)))
            ])
