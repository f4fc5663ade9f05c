-- ===== src/Prelude/Int.antt =====
-- The C type `int`: signed integers, without overflow, and the error numbers of Linux.
use Prim.Native.Nat.{ℕ, zero, suc}
use mathlib.Core.Path.{◌≡◌, refl}
use mathlib.Core.Bool.{Bool, true, false}

-- `negsuc n` is -(n + 1).
pub data ℤ : Type 0 where
  pos : ℕ → ℤ
  negsuc : ℕ → ℤ

-- `ret == 0`, the value for success; `if (ret)` is its negation.
abbrev pub is_zero : ℤ → Bool
is_zero (pos zero) = true
is_zero (pos (suc n)) = false
is_zero (negsuc n) = false

abbrev pub is_neg : ℤ → Bool
is_neg (pos n) = false
is_neg (negsuc n) = true

-- `x > 0`
abbrev pub is_pos : ℤ → Bool
is_pos (pos zero) = false
is_pos (pos (suc n)) = true
is_pos (negsuc n) = false

-- `x++`
abbrev pub inc : ℤ → ℤ
inc (pos n) = pos (suc n)
inc (negsuc zero) = pos zero
inc (negsuc (suc n)) = negsuc n

-- `x--`
abbrev pub dec : ℤ → ℤ
dec (pos zero) = negsuc zero
dec (pos (suc n)) = pos n
dec (negsuc n) = negsuc (suc n)

pub dec-inc : (x : ℤ) → dec (inc x) ≡ x
dec-inc (pos n) = refl
dec-inc (negsuc zero) = refl
dec-inc (negsuc (suc n)) = refl

pub inc-dec : (x : ℤ) → inc (dec x) ≡ x
inc-dec (pos zero) = refl
inc-dec (pos (suc n)) = refl
inc-dec (negsuc n) = refl

-- `x` decremented `n` times
abbrev pub dec_by : ℕ → ℤ → ℤ
dec_by zero x = x
dec_by (suc n) x = dec_by n (dec x)

-- -EINTR, -E2BIG, -EAGAIN, -ENOMEM, -EBUSY, -EINVAL, -EFBIG, -ENOPROTOOPT, -ETIMEDOUT
abbrev pub eintr : ℤ
eintr = negsuc 3

abbrev pub e2big : ℤ
e2big = negsuc 6

abbrev pub eagain : ℤ
eagain = negsuc 10

abbrev pub enomem : ℤ
enomem = negsuc 11

abbrev pub ebusy : ℤ
ebusy = negsuc 15

abbrev pub einval : ℤ
einval = negsuc 21

abbrev pub efbig : ℤ
efbig = negsuc 26

abbrev pub enoprotoopt : ℤ
enoprotoopt = negsuc 91

abbrev pub etimedout : ℤ
etimedout = negsuc 109
