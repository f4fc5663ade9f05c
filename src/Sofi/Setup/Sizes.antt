-- ===== src/Sofi/Setup/Sizes.antt =====
-- The sizes of the two queues.
use nanomsg_transport_ofi.Prelude.{
  ℕ, zero, suc, ◌-◌, ◌%◌, ◌≤◌, ◌<◌, ◌≡◌, ltb, arith, ℤ, pos, negsuc, if◌then◌else◌, ap, ◌∙◌,
}
use nanomsg_transport_ofi.Sofi.Setup.{queue_size, as_int}

-- What the options ask for: AUTO and a negative number stand for the size of the domain, and no more than
-- that is given.
abbrev pub places : ℤ → ℕ → ℕ
places (pos zero) size = size
places (pos (suc n)) size = if ltb size (suc n) then size else suc n
places (negsuc n) size = size

-- The value of an `int`
abbrev pub IsInt : ℤ → Type 0
IsInt (pos n) = n < 2147483648
IsInt (negsuc n) = n < 2147483648

as_int-small : (n : ℕ) → n < 2147483648 → as_int n ≡ pos n
as_int-small n h =
    let e : n % 4294967296 ≡ n = omega (arith, h) in
    ap (λ m. if ltb m 2147483648 then pos m else negsuc (4294967295 - m)) e ∙ ground (arith, h)

-- If the domain allows at least one place and fewer than 2^31, a queue has the places that the option asks
-- for, at least one and no more than the domain allows.
pub queue_size-places :
    (v : ℤ) (size : ℕ)
    → 0 < size
    → size < 2147483648
    → IsInt v
    → (queue_size v size ≡ pos (places v size)) × (0 < places v size) × (places v size ≤ size)
unfolding queue_size
queue_size-places (pos zero) size p q i = (ground (arith, q, as_int-small size q), p, omega arith)
queue_size-places (pos (suc n)) size p q i =
    (ground (arith, i, q, as_int-small size q), ground (arith, p), ground (arith, p))
queue_size-places (negsuc n) size p q i =
    (ground (arith, i, q, as_int-small size q), p, omega arith)
