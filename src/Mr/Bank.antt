-- ===== src/Mr/Bank.antt =====
-- The banks: `ofi_mr_unregister`, `ofi_mr_register`, `ofi_mr_get_free_bank`, `ofi_mr_find_bank`.
pub mod Frame
pub mod Lookup
pub mod Locks
pub mod Find
pub mod Free
use nanomsg_transport_ofi.Prelude.{
  ℕ, zero, suc, ◌+◌, ◌%◌, ◌^◌, Bool, true, false, not, ◌&&◌, Option, none, some, ℤ, pos, is_zero,
  update, ltb, ◌==◌, if◌then◌else◌, enomem, eagain,
}
use nanomsg_transport_ofi.Mr.State.{Bank, Attr, Provider, Mr, lock, unlock, unlock_opt, covers}

-- A return code with an out parameter, which is set only on success.
pub data Outcome : Type 0 where
  ok : ℕ → Outcome
  fail : ℤ → Outcome

module _ {E : Type 0} (api : Provider E) where
  open api use {fi_mr_reg, fi_close}

  abbrev pub closed : Mr E → ℕ → ℤ × E → ℤ × Mr E
  closed s i (ret, env) =
      if is_zero ret
      then (
        pos 0,
        record s {
          env = env;
          banks = update s.banks i (record (s.banks i) { registered = false; base = 0; len = 0 });
        },
      )
      else (ret, record s { env = env })

  unfoldable pub unregister : Mr E → ℕ → ℤ × Mr E
  unregister s i =
      if (s.banks i).registered then closed s i (fi_close s.env (s.banks i).mr) else (pos 0, s)

  -- `++self->age`, a `uint32_t`
  abbrev pub next_age : ℕ → ℕ
  next_age a = (a + 1) % 2 ^ 32

  abbrev pub mapped : Mr E → ℕ → ℤ × ℕ × E → ℤ × Mr E
  mapped s i (ret, mr, env) =
      if is_zero ret
      then (
        pos 0,
        record s {
          env = env;
          age = next_age s.age;
          banks =
              update s.banks i
                (record (s.banks i) { mr = mr; registered = true; age = next_age s.age });
        },
      )
      else (ret, record s { env = env })

  -- `ofi_mr_register` once the bank is not registered
  pub map_bank : Mr E → ℕ → ℤ × Mr E
  map_bank s i =
      mapped s i
        (fi_mr_reg s.env (s.banks i).base (s.banks i).len s.access_flags (s.attr.base_key + i + 1))

  abbrev pub then_map : ℤ × Mr E → ℕ → ℤ × Mr E
  then_map (ret, s) i = if is_zero ret then map_bank s i else (ret, s)

  unfoldable pub register : Mr E → ℕ → ℤ × Mr E
  unfolding unregister map_bank
  register s i = if (s.banks i).registered then then_map (unregister s i) i else map_bank s i

-- The test for a bank that may be given to another region.
unfoldable pub is_evictable : Bank → Bool
is_evictable b = is_zero b.ref && not b.nonvolatile

-- How the loop of `ofi_mr_find_bank` ends: at a bank that covers the request, or with the oldest
-- bank that may be re-used.
pub data Found : Type 0 where
  hit : ℕ → Found
  miss : Option ℕ → Found

-- The choice of `oldest_bank` at bank `i`; a bank that is replaced is unlocked.
abbrev pub pick : (ℕ → Bank) → ℕ → Option ℕ → (ℕ → ℤ) → Option ℕ × (ℕ → ℤ)
pick banks i none held = if is_evictable (banks i) then (some i, held) else (none, held)
pick banks i (some o) held =
    if is_evictable (banks i) && ltb (banks i).age (banks o).age
    then (some i, unlock held o)
    else (some o, held)

-- `if (oldest_bank != bank) nn_mutex_unlock(&bank->mutex);`
abbrev pub leave : ℕ → Option ℕ × (ℕ → ℤ) → Option ℕ × (ℕ → ℤ)
leave i (none, held) = (none, unlock held i)
leave i (some o, held) = (some o, if o == i then held else unlock held i)

-- The loop of `ofi_mr_find_bank` at bank `i`, with `k` banks to go.
unfoldable pub find_from : ℕ → ℕ → ℕ → ℕ → (ℕ → Bank) → Option ℕ → (ℕ → ℤ) → Found × (ℕ → ℤ)
find_from zero i ptr len banks oldest held = (miss oldest, held)
find_from (suc k) i ptr len banks oldest held =
    let taken = lock held i in
    let (oldest', held') = leave i (pick banks i oldest taken) in
    let rest = find_from k (i + 1) ptr len banks oldest' held' in
    if covers (banks i) ptr len then (hit i, unlock_opt taken oldest) else rest

-- The loop of `ofi_mr_get_free_bank`: the first bank with no reference and no flag, left locked.
unfoldable pub free_from : ℕ → ℕ → (ℕ → Bank) → (ℕ → ℤ) → Outcome × (ℕ → ℤ)
free_from zero i banks held = (fail enomem, held)
free_from (suc k) i banks held =
    let taken = lock held i in
    let rest = free_from k (i + 1) banks (unlock taken i) in
    if is_zero (banks i).ref && not (banks i).nonvolatile && not (banks i).registered
    then (ok i, taken)
    else rest

module _ {E : Type 0} (api : Provider E) where
  abbrev pub registered_as : ℕ → ℤ × Mr E → Outcome × Mr E
  registered_as o (ret, s) =
      if is_zero ret then (ok o, s) else (fail ret, record s { held = unlock s.held o })

  -- Gives bank `o`, which is locked, to the region.
  pub reuse : Mr E → ℕ → ℕ → ℕ → Outcome × Mr E
  unfolding register
  reuse s o ptr len = registered_as o (
      register api
        (record s { banks = update s.banks o (record (s.banks o) { base = ptr; len = len }) }) o)

  abbrev pub resolve : Mr E → ℕ → ℕ → Found × (ℕ → ℤ) → Outcome × Mr E
  resolve s ptr len (hit i, held) = (ok i, record s { held = held })
  resolve s ptr len (miss none, held) = (fail eagain, record s { held = held })
  resolve s ptr len (miss (some o), held) = reuse (record s { held = held }) o ptr len

  unfoldable pub find_bank : Mr E → ℕ → ℕ → Outcome × Mr E
  unfolding find_from reuse is_evictable covers
  find_bank s ptr len =
      resolve s ptr len (find_from s.attr.bank_count 0 ptr len s.banks none s.held)

  abbrev pub got_free : Mr E → Outcome × (ℕ → ℤ) → Outcome × Mr E
  got_free s (out, held) = (out, record s { held = held })

  unfoldable pub get_free_bank : Mr E → Outcome × Mr E
  unfolding free_from
  get_free_bank s = got_free s (free_from s.attr.bank_count 0 s.banks s.held)
