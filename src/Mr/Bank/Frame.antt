-- ===== src/Mr/Bank/Frame.antt =====
-- What registering and unregistering a bank leave as they were.
use nanomsg_transport_ofi.Prelude.{true, false, is_zero, ℕ, ◌≡◌, ◌≢◌, arith}
use nanomsg_transport_ofi.Mr.State.{Provider, Mr}
use nanomsg_transport_ofi.Mr.Bank.{unregister, map_bank, register}

module _ {E : Type 0} where
  -- From `s` to `t` only bank `i`, the age and the provider changed, and bank `i` kept its counter
  -- and its mark.
  pub record Frame (i : ℕ) (s t : Mr E) : Type 0 where
    pub others : (j : ℕ) → i ≢ j → t.banks j ≡ s.banks j
    pub ref : (t.banks i).ref ≡ (s.banks i).ref
    pub nonvolatile : (t.banks i).nonvolatile ≡ (s.banks i).nonvolatile
    pub slabs : t.slabs ≡ s.slabs
    pub mem : t.mem ≡ s.mem
    pub held : t.held ≡ s.held
    pub slab_held : t.slab_held ≡ s.slab_held
    pub attr : t.attr ≡ s.attr
    pub slab_mr : t.slab_mr ≡ s.slab_mr
    pub allocated : t.allocated ≡ s.allocated

module _ {E : Type 0} (api : Provider E) where
  pub unregister-Frame : (s : Mr E) (i : ℕ) → Frame i s (unregister api s i).1
  unfolding unregister
  unregister-Frame s i = record {
    others = λ j ne. ground arith;
    ref = ground arith;
    nonvolatile = ground arith;
    slabs = ground arith;
    mem = ground arith;
    held = ground arith;
    slab_held = ground arith;
    attr = ground arith;
    slab_mr = ground arith;
    allocated = ground arith;
  }

  map_bank-Frame : (s : Mr E) (i : ℕ) → Frame i s (map_bank api s i).1
  unfolding map_bank
  map_bank-Frame s i = ground arith

  Frame-trans : {i : ℕ} {s t u : Mr E} → Frame i s t → Frame i t u → Frame i s u
  Frame-trans f g = ground arith

  -- Registering a bank changes no other bank, no reference, no mark, no slab and no lock.
  pub register-Frame : (s : Mr E) (i : ℕ) → Frame i s (register api s i).1
  unfolding register
  register-Frame s i = ground (
    arith,
    unregister-Frame s i,
    map_bank-Frame s i,
    map_bank-Frame (unregister api s i).1 i,
    Frame-trans (unregister-Frame s i) (map_bank-Frame (unregister api s i).1 i),
  )

  -- A bank that is not registered keeps its range, and is registered exactly on success.
  pub register_new :
      (s : Mr E) (i : ℕ)
      → (s.banks i).registered ≡ false
      → let (ret, t) = register api s i in
        ((t.banks i).base ≡ (s.banks i).base)
        × ((t.banks i).len ≡ (s.banks i).len)
        × ((t.banks i).registered ≡ is_zero ret)
  unfolding register map_bank
  register_new s i h = ground arith

  -- If the provider closes regions without fail, a bank is not registered afterwards.
  pub unregister_closed :
      (s : Mr E) (i : ℕ)
      → is_zero (api.fi_close s.env (s.banks i).mr).0 ≡ true
      → ((unregister api s i).1.banks i).registered ≡ false
  unfolding unregister
  unregister_closed s i h = ground arith
