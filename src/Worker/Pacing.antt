-- ===== src/Worker/Pacing.antt =====
-- The poller thread's pauses, and the start and the end of its pool (src/transports/ofi/ofiw.c).
pub mod Rounds
use nanomsg_transport_ofi.Prelude.{
  ℕ, zero, suc, ◌-◌, ◌/◌, ◌%◌, ◌==◌, ltb, Bool, true, false, Option, none, some, ℤ, pos, is_zero,
  if◌then◌else◌,
}

-- The limits of the result of `nn_ofiw_kinstr_per_ms`.
unfoldable pub limit : ℕ → ℕ
limit k = if ltb 4294967295 k then 4294967295 else if k == 0 then 1 else k

-- A quotient of the type `long`, negated, as an `uint64_t`.
abbrev pub negated : ℕ → ℕ
negated q = (18446744073709551616 - q) % 18446744073709551616

-- `nn_ofiw_kinstr_per_ms`, by the fields `tv_nsec` of the two readings of the clock: `none` is a division
-- by 0.
unfoldable pub kinstr_per_ms : ℕ → ℕ → Option ℕ
unfolding limit
kinstr_per_ms a b =
    if a == b
    then none
    else if ltb a b
    then some (limit (1000000000 / (b - a)))
    else some (limit (negated (1000000000 / (a - b))))

-- The counters of the poller thread, and how often it slept.
pub record Pace : Type 0 where
  pub kinstr : ℕ
  pub spinwait : ℕ
  pub sleeps : ℕ

-- `--x` of a `uint32_t`
abbrev pub less : ℕ → ℕ
less zero = 4294967295
less (suc n) = n

-- The end of a pass; `k` is `kinst_per_ms`.
unfoldable pub pause : ℕ → Pace → Pace
pause k p =
    let i = less p.kinstr in
    let s = less p.spinwait in
    if i == 0
    then if s == 0
      then record { kinstr = 10000; spinwait = k; sleeps = suc p.sleeps }
      else record p { kinstr = 10000; spinwait = s }
    else record p { kinstr = i }

unfoldable pub pauses : ℕ → ℕ → Pace → Pace
unfolding pause
pauses k zero p = p
pauses k (suc n) p = pauses k n (pause k p)

-- What a pool holds: the mutex, the two `efd`s, the event queue and the thread.
pub record Pool : Type 0 where
  pub active : Bool
  pub lock_state : Bool
  pub lock_safe : Bool
  pub kinst_per_ms : ℕ
  pub mutex : Bool
  pub efds : Bool
  pub eq : Bool
  pub thread : Bool

module _ {S : Type 0} (fi_eq_open : S → ℤ × S) where
  abbrev pub queue_opened : Pool → ℤ × S → ℤ × Pool × S
  queue_opened p (ret, w) =
      if is_zero ret
      then (pos 0, record p { eq = true; active = true; thread = true }, w)
      else (ret, p, w)

  -- `nn_ofiw_pool_init`, with what `nn_ofiw_kinstr_per_ms` gave
  unfoldable pub pool_init : ℕ → Pool → S → ℤ × Pool × S
  pool_init k p w =
      queue_opened
        (record p {
          lock_state = false;
          lock_safe = false;
          kinst_per_ms = k;
          mutex = true;
          efds = true;
        })
        (fi_eq_open w)

-- `nn_ofiw_pool_term`
unfoldable pub pool_term : Pool → Pool
pool_term p = record p { active = false; thread = false; mutex = false; efds = false }
