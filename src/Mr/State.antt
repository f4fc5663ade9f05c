-- ===== src/Mr/State.antt =====
-- The data of ofimr.h. Pointers to banks and slabs are indices into the manager's two arrays.
use nanomsg_transport_ofi.Prelude.{
  ℕ, ◌+◌, Bool, ◌&&◌, Option, none, some, List, ℤ, inc, dec, update, leb, ltb, if◌then◌else◌, ◌-◌,
}

-- `enum ofi_mr_direction`
pub data Direction : Type 0 where
  send recv both : Direction

-- The access bits of libfabric that the manager asks for.
pub data Access : Type 0 where
  fi_send fi_write fi_remote_read fi_recv fi_read fi_remote_write : Access

-- `struct ofi_mr_bank` less its mutex; the two booleans are the bits of `flags`.
pub record Bank : Type 0 where
  pub ref : ℤ
  pub base : ℕ
  pub len : ℕ
  pub mr : ℕ
  pub age : ℕ
  pub nonvolatile : Bool
  pub registered : Bool

-- `struct ofi_mr_slab`
pub record Slab : Type 0 where
  pub addr : ℕ
  pub inuse : Bool

-- `struct ofi_mr_bank_attr` less the domain
pub record Attr : Type 0 where
  pub bank_count : ℕ
  pub slab_count : ℕ
  pub slab_size : ℕ
  pub direction : Direction
  pub base_key : ℕ

-- What the manager calls in libfabric, for the domain of its attributes. `E` is the provider's own
-- state. `fi_mr_reg` takes base, length, access and key; `fi_close` takes a region's handle.
pub record Provider (E : Type 0) : Type 0 where
  pub fi_mr_reg : E → ℕ → ℕ → List Access → ℕ → ℤ × ℕ × E
  pub fi_close : E → ℕ → ℤ × E
  pub fi_mr_desc : ℕ → ℕ

-- `struct ofi_mr_manager`, with what it acts on: the provider, the bytes of memory, the number of
-- live heap blocks. `held i` is the lock count of the mutex of bank `i`.
pub record Mr (E : Type 0) : Type 0 where
  pub env : E
  pub mem : ℕ → ℕ
  pub allocated : ℕ
  pub attr : Attr
  pub banks : ℕ → Bank
  pub held : ℕ → ℤ
  pub access_flags : List Access
  pub age : ℕ
  pub slab_held : ℤ
  pub slabs : ℕ → Slab
  pub slab_mr : ℕ
  pub slab_mem : Option ℕ

-- `nn_mutex_lock` and `nn_mutex_unlock` on the mutex of a bank
abbrev pub lock : (ℕ → ℤ) → ℕ → ℕ → ℤ
lock held i = update held i (inc (held i))

abbrev pub unlock : (ℕ → ℤ) → ℕ → ℕ → ℤ
unlock held i = update held i (dec (held i))

abbrev pub unlock_opt : (ℕ → ℤ) → Option ℕ → ℕ → ℤ
unlock_opt held none = held
unlock_opt held (some i) = unlock held i

-- `memcpy(dst, src, len)`
abbrev pub memcpy : (ℕ → ℕ) → ℕ → ℕ → ℕ → ℕ → ℕ
memcpy mem dst src len a = if leb dst a && ltb a (dst + len) then mem (src + (a - dst)) else mem a

-- The pointer range `[ptr, ptr + len]` lies within the range of the bank.
unfoldable pub covers : Bank → ℕ → ℕ → Bool
covers b ptr len = leb b.base ptr && leb (ptr + len) (b.base + b.len)
