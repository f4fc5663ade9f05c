-- ===== src/Bofi/Offsets.antt =====
-- The offsets of streaming endpoints: `nn_bofi_new_sofi_offset`, `nn_bofi_free_sofi_offset`.
pub mod Fresh
pub mod Search
use nanomsg_transport_ofi.Prelude.{
  ℕ, zero, suc, ◌+◌, ◌≤◌, ◌<◌, ◌≡◌, ◌≢◌, ◌⊎◌, inl, inr, Bool, true, false, Option, none, some,
  arith, refl, sym, Bool-cases, ltb, update, if◌then◌else◌,
}

-- `sofi_offsets` and `sofi_offsets_size`
pub record Offsets : Type 0 where
  pub used : ℕ → Bool
  pub size : ℕ

-- The loop: the first free slot.
unfoldable pub first_free : ℕ → ℕ → (ℕ → Bool) → Option ℕ
first_free zero i used = none
first_free (suc k) i used = let rest = first_free k (i + 1) used in if used i then rest else some i

-- `memset` of the 64 new slots at `base`
unfoldable pub clear : ℕ → ℕ → (ℕ → Bool) → ℕ → Bool
clear zero base used = used
clear (suc k) base used = clear k (base + 1) (update used base false)

-- The slots that `nn_bofi_create` allocates; `used` is what the memory held before.
unfoldable pub create : (ℕ → Bool) → Offsets
unfolding clear
create used = record { used = clear 64 0 used; size = 64 }

-- With no free slot the array grows by 64, and the first new slot is returned, not marked.
abbrev pub take_slot : Offsets → Option ℕ → ℕ × Offsets
take_slot o (some i) = (i, record o { used = update o.used i true })
take_slot o none = (o.size, record { used = clear 64 o.size o.used; size = o.size + 64 })

unfoldable pub new_offset : Offsets → ℕ × Offsets
unfolding first_free clear
new_offset o = take_slot o (first_free o.size 0 o.used)

-- `none` means that the assertion failed.
unfoldable pub free_offset : Offsets → ℕ → Option Offsets
free_offset o i = if ltb i o.size then some (record o { used = update o.used i false }) else none
