-- ===== src/Keys.antt =====
-- The keys under which a streaming endpoint registers memory (src/transports/ofi/sofi.c): those of
-- `nn_sofi_init`, and those of the memory region manager that it starts.
pub mod Distinct
use nanomsg_transport_ofi.Prelude.{ℕ, ◌+◌, ◌*◌, ◌%◌, ltb, Bool, true, if◌then◌else◌}

-- The auxiliary buffer, the slabs and the banks of the manager, and the receive buffers.
pub data Region : Type 0 where
  aux : Region
  slabs : Region
  bank : ℕ → Region
  buffer : ℕ → Region

-- `NN_SOFI_MRM_KEY_PAGE_SIZE * offset`: a product of two `int`, which wraps around at 32 bits (C leaves this
-- undefined), made a `uint64_t`.
unfoldable pub page : ℕ → ℕ
page offset =
    let m = 4096 * offset % 4294967296 in if ltb m 2147483648 then m else m + 18446744069414584320

-- `mrattr_tx.base_key`
abbrev pub send_key : ℕ → ℕ
send_key offset = page offset + 1

unfoldable pub key : ℕ → Region → ℕ
key offset aux = page offset
key offset slabs = send_key offset
key offset (bank i) = send_key offset + i + 1
key offset (buffer i) = page offset + 2048 + i

-- The regions of an endpoint with `tx_queue` and `rx_queue`: it has `2 * tx_queue` banks.
abbrev pub has : ℕ → ℕ → Region → Bool
has tx_queue rx_queue aux = true
has tx_queue rx_queue slabs = true
has tx_queue rx_queue (bank i) = ltb i (tx_queue * 2)
has tx_queue rx_queue (buffer i) = ltb i rx_queue
