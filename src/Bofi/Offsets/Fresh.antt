-- ===== src/Bofi/Offsets/Fresh.antt =====
-- What `nn_bofi_new_sofi_offset` returns, and what `nn_bofi_free_sofi_offset` restores.
use nanomsg_transport_ofi.Prelude.{
  ℕ, ◌+◌, ◌<◌, ◌≡◌, Bool, true, false, Option, none, some, arith, Bool-cases, Option-cases, update,
  if◌then◌else◌, ltb, ◌&&◌, inl, inr, subst, ap, fun_ext, sym, refl, ◌==◌, leb, ◌∙◌,
}
use nanomsg_transport_ofi.Bofi.Offsets.{
  Offsets, first_free, clear, take_slot, new_offset, free_offset,
}
use nanomsg_transport_ofi.Bofi.Offsets.Search.{
  first_free-some, first_free-none, first_free-at, clear-at,
}

-- Whether an offset is a slot of the array that is marked; an endpoint may hold an unmarked one.
abbrev pub is_marked : Offsets → ℕ → Bool
is_marked o i = ltb i o.size && o.used i

abbrev pub IsFull : Offsets → Type 0
IsFull o = (j : ℕ) → j < o.size → o.used j ≡ true

-- The allocation of `i`: it was not marked, it is a slot of the array, the others keep their marks,
-- and it is marked afterwards unless the array was full.
pub record Allocates (o o' : Offsets) (i : ℕ) : Type 0 where
  pub fresh : is_marked o i ≡ false
  pub slot : i < o'.size
  pub others : (j : ℕ) → (j == i) ≡ false → is_marked o' j ≡ is_marked o j
  pub marked : is_marked o' i ≡ ltb i o.size

abbrev AllocatesPair : Offsets → ℕ × Offsets → Type 0
AllocatesPair o (i, o') = Allocates o o' i

take_slot-Allocates :
    (o : Offsets) (f : Option ℕ) → first_free o.size 0 o.used ≡ f → AllocatesPair o (take_slot o f)
take_slot-Allocates o none h = record {
  fresh = ground arith;
  slot = omega arith;
  others = λ j n. ground (arith, clear-at 64 o.size j o.used);
  marked = ground (arith, clear-at 64 o.size o.size o.used);
}
take_slot-Allocates o (some i) h =
    let r = first_free-some o.size 0 i o.used h in
    record {
      fresh = ground (arith, r.0);
      slot = omega (arith, r.2);
      others = λ j n. ground arith;
      marked = ground (arith, r.2);
    }

new_offset-slot : (o o' : Offsets) (i : ℕ) → new_offset o ≡ (i, o') → Allocates o o' i
unfolding new_offset
new_offset-slot o o' i h =
    subst (AllocatesPair o) h (take_slot-Allocates o (first_free o.size 0 o.used) refl)

-- The array after it grew.
abbrev pub grown : Offsets → Offsets
grown o = record { used = clear 64 o.size o.used; size = o.size + 64 }

abbrev Repeats : ℕ × Offsets → Type 0
Repeats (i, o') = new_offset o' ≡ (i, record o' { used = update o'.used i true })

grown-first_free :
    (o : Offsets) → IsFull o → first_free (o.size + 64) 0 (clear 64 o.size o.used) ≡ some o.size
grown-first_free o f =
    let q : 0 + o.size ≡ o.size = omega arith in
    let c : (j : ℕ)
        → clear 64 o.size o.used j
          ≡ (if leb o.size j && ltb j (o.size + 64) then false else o.used j) =
      λ j. clear-at 64 o.size j o.used in
    let g =
      first_free-at o.size 63 0 (clear 64 o.size o.used)
        (λ j lo hi. let u = f j (omega arith) in ground (arith, c j, u))
        (subst (λ x. clear 64 o.size o.used x ≡ false) (sym q) (ground (arith, c o.size))) in
    ground (arith, g, q)

full-first_free : (o : Offsets) → IsFull o → first_free o.size 0 o.used ≡ none
full-first_free o f = elim (Option-cases (first_free o.size 0 o.used)) [
  | inl e ↦ e
  | inr (i, e) ↦
      let r = first_free-some o.size 0 i o.used e in
      let u = f i (omega (arith, r.2)) in ground (arith, r.0, u)
]

-- If every slot is in use, two calls in a row return the same offset: the first leaves it unmarked.
pub new_offset-twice :
    (o o' : Offsets) (i : ℕ)
    → IsFull o
    → new_offset o ≡ (i, o')
    → new_offset o' ≡ (i, record o' { used = update o'.used i true })
unfolding new_offset
new_offset-twice o o' i f h =
    subst Repeats (sym (ap (take_slot o) (full-first_free o f)) ∙ h)
      (ap (take_slot (grown o)) (grown-first_free o f))

-- `nn_bofi_new_sofi_offset` returns an offset that was not marked and lies in the array, and the other
-- offsets keep their marks. The offset is marked afterwards exactly if it was a slot before: if every slot
-- was marked, it is not, and the next call returns it again, though an endpoint may hold it.
pub new_offset-Allocates :
    (o o' : Offsets) (i : ℕ)
    → new_offset o ≡ (i, o')
    → Allocates o o' i
      × (IsFull o → new_offset o' ≡ (i, record o' { used = update o'.used i true }))
new_offset-Allocates o o' i h = (new_offset-slot o o' i h, λ f. new_offset-twice o o' i f h)

abbrev Undoes : Offsets → ℕ × Offsets → Type 0
Undoes o (i, o') = free_offset o' i ≡ some o

take-free : (o : Offsets) (i : ℕ) → o.used i ≡ false → i < o.size → Undoes o (take_slot o (some i))
unfolding free_offset
take-free o i u lt =
    let e : (j : ℕ) → update (update o.used i true) i false j ≡ o.used j = λ j.
      elim (Bool-cases (i == j)) [
        | inl y ↦ let d : i ≡ j = ground (arith, y) in ground (arith, u, d)
        | inr y ↦ ground (arith, y)
      ] in
    let t : ltb i o.size ≡ true = ground arith in
    rw t (ap (λ v. some (record o { used = v })) (fun_ext e))

-- If a slot is free, freeing the offset that was returned gives back the array of before.
pub free-new :
    (o o' : Offsets) (i j : ℕ)
    → j < o.size
    → o.used j ≡ false
    → new_offset o ≡ (i, o')
    → free_offset o' i ≡ some o
unfolding new_offset
free-new o o' i j lt e h = elim (Option-cases (first_free o.size 0 o.used)) [
  | inl n ↦
      let u = first_free-none o.size 0 j o.used n (omega arith) (omega arith) in
      ground (arith, u, e)
  | inr (k, g) ↦
      let r = first_free-some o.size 0 k o.used g in
      subst (Undoes o) (sym (ap (take_slot o) g) ∙ h) (take-free o k r.0 (omega (arith, r.2)))
]
