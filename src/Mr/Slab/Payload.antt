-- ===== src/Mr/Slab/Payload.antt =====
-- What `ofi_mr_tryslab` returns, and the bytes that it copies.
use nanomsg_transport_ofi.Prelude.{
  ℕ, zero, suc, ◌+◌, ◌≤◌, ◌<◌, ◌≡◌, ◌⊎◌, inl, inr, true, false, Option, none, some, arith, dec-inc,
  Bool-cases, ltb, refl, update, efbig, enomem,
}
use nanomsg_transport_ofi.Mr.State.{Slab, Mr, memcpy}
use nanomsg_transport_ofi.Mr.Bank.{Outcome, ok, fail}
use nanomsg_transport_ofi.Mr.Slab.{slab_from, chosen, try_slab}

-- Every slab below `n` is in use.
abbrev pub AllBusy : (ℕ → Slab) → ℕ → Type 0
AllBusy slabs n = (j : ℕ) → j < n → (slabs j).inuse ≡ true

abbrev pub Picks : (ℕ → Slab) → ℕ → Option ℕ → Type 0
Picks slabs n none = AllBusy slabs n
Picks slabs n (some i) = (i < n) × ((slabs i).inuse ≡ false) × AllBusy slabs i

slab_from-Picks :
    (slabs : ℕ → Slab) (k i n : ℕ)
    → n ≡ i + k
    → AllBusy slabs i
    → Picks slabs n (slab_from k i slabs)
unfolding slab_from
slab_from-Picks slabs zero i n e b = let e' : n ≡ i = omega arith in rw e' b
slab_from-Picks slabs (suc k) i n e b = elim (Bool-cases (slabs i).inuse) [
  | inl u ↦ rw u (slab_from-Picks slabs k (i + 1) n (omega arith) (λ j h. ground (arith, b j)))
  | inr u ↦ rw u (omega arith, u, b)
]

module _ {E : Type 0} where
  -- The slab `i` holds the `len` bytes that stood at `ptr`.
  abbrev pub Holds : Mr E → ℕ → ℕ → ℕ → Mr E → Type 0
  Holds s ptr len i t = (a : ℕ) → a < len → t.mem ((s.slabs i).addr + a) ≡ s.mem (ptr + a)

  -- The first free slab, if the payload fits, which is then in use and holds the payload.
  abbrev pub Takes : Mr E → ℕ → ℕ → Outcome × Mr E → Type 0
  Takes s ptr len (ok i, t) =
      (len ≤ s.attr.slab_size)
      × Picks s.slabs s.attr.slab_count (some i)
      × (t.slabs ≡ update s.slabs i (record (s.slabs i) { inuse = true }))
      × Holds s ptr len i t
      × (t.mem ≡ memcpy s.mem (s.slabs i).addr ptr len)
  Takes s ptr len (fail e, t) =
      ((e ≡ efbig) × (s.attr.slab_size < len) × (t ≡ s))
      ⊎ ((e ≡ enomem) × AllBusy s.slabs s.attr.slab_count × (t ≡ s))

  -- A failed attempt changes nothing.
  pub try_slab-Takes : (s : Mr E) (ptr len : ℕ) → Takes s ptr len (try_slab s ptr len)
  unfolding try_slab
  try_slab-Takes s ptr len = elim (Bool-cases (ltb s.attr.slab_size len)) [
    | inl e ↦ rw e (inl (refl, ground arith, refl))
    | inr e ↦ rw e (
        go (slab_from s.attr.slab_count 0 s.slabs)
          (slab_from-Picks s.slabs s.attr.slab_count 0 s.attr.slab_count (omega arith)
            (λ j h. absurd (omega arith)))
          (ground arith))
  ]
    where
      go :
          (o : Option ℕ)
          → Picks s.slabs s.attr.slab_count o
          → len ≤ s.attr.slab_size
          → Takes s ptr len (chosen s ptr len o)
      go none h fits = inr (refl, h, λ k. record s { slab_held = dec-inc s.slab_held k })
      go (some i) h fits = (fits, h, refl, (λ a lt. ground arith), refl)

  -- Beside the slab and the bytes, nothing changes.
  pub record Same (s t : Mr E) : Type 0 where
    pub banks : t.banks ≡ s.banks
    pub held : t.held ≡ s.held
    pub slab_held : t.slab_held ≡ s.slab_held
    pub attr : t.attr ≡ s.attr
    pub slab_mr : t.slab_mr ≡ s.slab_mr
    pub allocated : t.allocated ≡ s.allocated

  pub try_slab-Same : (s : Mr E) (ptr len : ℕ) → Same s (try_slab s ptr len).1
  unfolding try_slab
  try_slab-Same s ptr len = ground (arith, dec-inc s.slab_held)
