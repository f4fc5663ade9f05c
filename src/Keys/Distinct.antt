-- ===== src/Keys/Distinct.antt =====
-- When the keys of all streaming endpoints are different.
use nanomsg_transport_ofi.Prelude.{ℕ, ◌+◌, ◌*◌, ◌≤◌, ◌≡◌, true, arith, sym, ◌∙◌, ◌<◌}
use nanomsg_transport_ofi.Keys.{Region, aux, slabs, bank, buffer, page, key, has}

-- The key inside the page.
abbrev low : Region → ℕ
low aux = 0
low slabs = 1
low (bank i) = i + 2
low (buffer i) = i + 2048

page-small : (o : ℕ) → o < 524288 → page o ≡ 4096 * o
unfolding page
page-small o h = ground arith

key-low : (o : ℕ) (r : Region) → o < 524288 → key o r ≡ 4096 * o + low r
unfolding key
key-low o aux h = omega (arith, page-small o h)
key-low o slabs h = omega (arith, page-small o h)
key-low o (bank i) h = omega (arith, page-small o h)
key-low o (buffer i) h = omega (arith, page-small o h)

module _ (tx_queue rx_queue : ℕ) where
  low-bound :
      (r : Region)
      → tx_queue ≤ 1023
      → rx_queue ≤ 2048
      → has tx_queue rx_queue r ≡ true
      → low r < 4096
  low-bound aux a b h = omega arith
  low-bound slabs a b h = omega arith
  low-bound (bank i) a b h = ground (arith, h)
  low-bound (buffer i) a b h = ground (arith, h)

  low-injective :
      (r s : Region)
      → tx_queue ≤ 1023
      → has tx_queue rx_queue r ≡ true
      → has tx_queue rx_queue s ≡ true
      → low r ≡ low s
      → r ≡ s
  low-injective r s a c d e = ground arith

same-page : (o p a b : ℕ) → a < 4096 → b < 4096 → 4096 * o + a ≡ 4096 * p + b → (o ≡ p) × (a ≡ b)
same-page o p a b i j e = (omega arith, omega arith)

-- With at most 1023 slots to send and 2048 to receive, and offsets below 2^19, no two regions of one endpoint
-- share a key, nor do regions of endpoints with different offsets.
pub key-injective :
    (tx_queue rx_queue o p : ℕ) (r s : Region)
    → tx_queue ≤ 1023
    → rx_queue ≤ 2048
    → o < 524288
    → p < 524288
    → has tx_queue rx_queue r ≡ true
    → has tx_queue rx_queue s ≡ true
    → key o r ≡ key p s
    → (o ≡ p) × (r ≡ s)
unfolding key
key-injective t x o p r s a b g h c d e =
    let q =
      same-page o p (low r) (low s) (low-bound t x r a b c) (low-bound t x s a b d)
        (sym (key-low o r g) ∙ e ∙ key-low p s h) in
    (q.0, low-injective t x r s a c d q.1)

-- With 1024 slots to send, the last bank but one of every endpoint shares its key with the first
-- receive buffer, if there is one.
pub key-clash :
    (rx_queue o : ℕ)
    → 1 ≤ rx_queue
    → (has 1024 rx_queue (bank 2046) ≡ true)
      × (has 1024 rx_queue (buffer 0) ≡ true)
      × (key o (bank 2046) ≡ key o (buffer 0))
unfolding key
key-clash x o h = ground arith
