-- ===== src/Options/Access.antt =====
-- Setting an option and getting it back.
use nanomsg_transport_ofi.Prelude.{
  ℕ, ◌≤◌, ◌≡◌, ◌⊎◌, Bool, true, false, ◌&&◌, ltb, ◌==◌, if◌then◌else◌, ℤ, pos, is_zero, is_neg,
  arith, fun_ext, ap, einval, enoprotoopt, refl, not,
}
use nanomsg_transport_ofi.Options.{
  Name, rx_queue_size, tx_queue_size, slab_size, unknown, Optset, defaults, IntBytes, size_of_int,
  below_two, setopt, getopt, Got,
}

-- The values that are used: at least 2 slots to receive, nothing negative.
abbrev pub is_legal : Optset → Bool
is_legal o =
    not (below_two o.rx_queue_size) && not (is_neg o.tx_queue_size) && not (is_neg o.slab_size)

-- Whether a call sets an option.
abbrev pub accepts : Name → ℤ → ℕ → Bool
accepts rx_queue_size v len = len == size_of_int && not (below_two v)
accepts tx_queue_size v len = len == size_of_int && not (is_neg v)
accepts slab_size v len = len == size_of_int && not (is_neg v)
accepts unknown v len = false

module _ (int : IntBytes) where
  -- The default options are legal, and `nn_ofi_optset_setopt` keeps the options legal, whatever it
  -- is called with.
  pub setopt-is_legal :
      (o : Optset) (name : Name) (optval : ℕ → ℕ) (len : ℕ)
      → is_legal o ≡ true
      → (is_legal defaults ≡ true) × (is_legal (setopt int o name optval len).1 ≡ true)
  unfolding setopt
  setopt-is_legal o name optval len h = (refl, ground arith)

  -- `nn_ofi_optset_setopt` returns 0 exactly when it accepts the length and the value, and changes
  -- nothing otherwise: then it returns -EINVAL, or -ENOPROTOOPT for an unknown option.
  pub setopt-accepts :
      (o p : Optset) (name : Name) (optval : ℕ → ℕ) (len : ℕ) (ret : ℤ)
      → setopt int o name optval len ≡ (ret, p)
      → (accepts name (int.read optval) len ≡ is_zero ret)
        × ((ret ≡ pos 0) ⊎ ((p ≡ o) × ((ret ≡ einval) ⊎ (ret ≡ enoprotoopt))))
  unfolding setopt
  setopt-accepts o p name optval len ret h = ground arith

  clip :
      (v : ℤ) (buf : ℕ → ℕ) (len : ℕ)
      → size_of_int ≤ len
      → int.read (λ i. if ltb i len && ltb i size_of_int then int.write v i else buf i)
        ≡ int.read (λ i. if ltb i size_of_int then int.write v i else buf i)
  clip v buf len le = ap int.read (fun_ext (λ i. ground arith))

  -- The call returned the value in `optval`, and left the bytes of `buf` after the int alone.
  pub record Returns (optval buf : ℕ → ℕ) (got : Got) : Type 0 where
    pub ret : got.ret ≡ pos 0
    pub len : got.optvallen ≡ size_of_int
    pub value : int.read got.optval ≡ int.read optval
    pub rest : (i : ℕ) → size_of_int ≤ i → got.optval i ≡ buf i

  -- After an option was set, getting it into a buffer of at least the size of an int returns 0, the
  -- size, and a buffer from which the value is read; the bytes after the int keep their value.
  -- Reading an int looks at its bytes only, and undoes writing.
  pub get-set :
      (o p : Optset) (name : Name) (optval buf : ℕ → ℕ) (len : ℕ)
      → ((b : ℕ → ℕ)
          → int.read (λ i. if ltb i size_of_int then int.write (int.read optval) i else b i)
            ≡ int.read optval)
      → size_of_int ≤ len
      → setopt int o name optval size_of_int ≡ (pos 0, p)
      → Returns optval buf (getopt int p name buf len)
  unfolding setopt getopt
  get-set o p name optval buf len r le h =
      let e = r buf in
      let c = clip (int.read optval) buf len le in
      elim name [
        | rx_queue_size ↦ ground (arith, e, c)
        | tx_queue_size ↦ ground (arith, e, c)
        | slab_size ↦ ground (arith, e, c)
        | unknown ↦ ground (arith, h)
      ]
