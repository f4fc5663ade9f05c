-- ===== src/Options.antt =====
-- The socket options of the transport (src/transports/ofi/ofi.c, src/ofi.h).
pub mod Access
use nanomsg_transport_ofi.Prelude.{
  ℕ, ◌==◌, ltb, Bool, true, false, ◌&&◌, ℤ, pos, negsuc, is_neg, einval, enoprotoopt, if◌then◌else◌,
}

-- `NN_OFI_RX_QUEUE_SIZE`, `NN_OFI_TX_QUEUE_SIZE`, `NN_OFI_SLAB_SIZE`, and every other number
pub data Name : Type 0 where
  rx_queue_size tx_queue_size slab_size unknown : Name

-- `struct nn_ofi_optset`
pub record Optset : Type 0 where
  pub rx_queue_size : ℤ
  pub tx_queue_size : ℤ
  pub slab_size : ℤ

-- The C type `int` in memory: how a value is written as bytes, and read.
pub record IntBytes : Type 0 where
  pub write : ℤ → ℕ → ℕ
  pub read : (ℕ → ℕ) → ℤ

abbrev pub size_of_int : ℕ
size_of_int = 4

-- The defaults of `nn_ofi_optset`
abbrev pub defaults : Optset
defaults = record { rx_queue_size = pos 16; tx_queue_size = pos 16; slab_size = pos 4096 }

-- `val < 2`
abbrev pub below_two : ℤ → Bool
below_two (pos n) = ltb n 2
below_two (negsuc n) = true

-- The `switch` of `nn_ofi_optset_setopt`
unfoldable pub set_value : Optset → Name → ℤ → ℤ × Optset
set_value o rx_queue_size v =
    if below_two v then (einval, o) else (pos 0, record o { rx_queue_size = v })
set_value o tx_queue_size v =
    if is_neg v then (einval, o) else (pos 0, record o { tx_queue_size = v })
set_value o slab_size v = if is_neg v then (einval, o) else (pos 0, record o { slab_size = v })
set_value o unknown v = (enoprotoopt, o)

-- What a call of `nn_ofi_optset_getopt` leaves: its return code, the buffer, and `*optvallen`.
pub record Got : Type 0 where
  pub ret : ℤ
  pub optval : ℕ → ℕ
  pub optvallen : ℕ

module _ (int : IntBytes) where
  unfoldable pub setopt : Optset → Name → (ℕ → ℕ) → ℕ → ℤ × Optset
  unfolding set_value
  setopt o name optval optvallen =
      if optvallen == size_of_int then set_value o name (int.read optval) else (einval, o)

  -- The `memcpy` of the value, cut to the length of the buffer
  abbrev pub copy_out : ℤ → (ℕ → ℕ) → ℕ → Got
  copy_out v optval optvallen = record {
    ret = pos 0;
    optval = λ i. if ltb i optvallen && ltb i size_of_int then int.write v i else optval i;
    optvallen = size_of_int;
  }

  unfoldable pub getopt : Optset → Name → (ℕ → ℕ) → ℕ → Got
  getopt o rx_queue_size optval optvallen = copy_out o.rx_queue_size optval optvallen
  getopt o tx_queue_size optval optvallen = copy_out o.tx_queue_size optval optvallen
  getopt o slab_size optval optvallen = copy_out o.slab_size optval optvallen
  getopt o unknown optval optvallen = record {
    ret = enoprotoopt;
    optval = optval;
    optvallen = optvallen;
  }
