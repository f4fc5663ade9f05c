-- ===== src/Transport/Refusing.antt =====
-- An address that is refused.
use nanomsg_transport_ofi.Prelude.{
  ℕ, ◌≡◌, false, none, ◌∷◌, ◌++◌, is_zero, einval, if◌then◌else◌, ap, contains,
}
use nanomsg_transport_ofi.Address.{Text, Hinted}
use nanomsg_transport_ofi.Address.RoundTrip.{Lacks}
use nanomsg_transport_ofi.Address.Matching.{match_fabric-unserviced}
use nanomsg_transport_ofi.Resources.{Resources, fabric_open, matched}
use nanomsg_transport_ofi.Cofi
use nanomsg_transport_ofi.Transport.{Core, Network, calls, connect, not_made, cofi_create}

module _ {S : Type 0} (net : Network S) (core : Core (Hinted S))
    (machine : Cofi.Parts (Hinted S)) where
  -- An address with no `:` before its last `@` is refused with -EINVAL: no fabric is opened, nothing is asked
  -- of libfabric or of nanomsg, and the resources are as before. The copy of the address is at a new place.
  pub connect-unserviced :
      (b a d : ℕ) (n f : Text) (r : Resources (Hinted S))
      → Lacks b':' n
      → Lacks b'@' f
      → contains b r.world.buffers ≡ false
      → connect net core machine b (n ++ b'@' ∷ f) a d r
        ≡ record { ret = einval; endpoint = none; resources = r }
  unfolding connect calls fabric_open
  connect-unserviced b a d n f r h k u =
      ap
        (λ m.
          let o = matched (calls net b (n ++ b'@' ∷ f) false) r a (m.ret, m.state) in
          if is_zero o.ret
          then cofi_create (calls net b (n ++ b'@' ∷ f) false) core machine a d o.resources
          else not_made (Cofi.Outcome (Hinted S)) o.ret o.resources)
        (match_fabric-unserviced net.fi_getinfo b n f false r.world h k u)
