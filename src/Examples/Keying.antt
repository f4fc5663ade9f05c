-- ===== src/Examples/Keying.antt =====
-- The memory keys at concrete inputs.
use nanomsg_transport_ofi.Prelude.{ℕ, ◌≡◌, arith, refl}
use nanomsg_transport_ofi.Keys.{bank}
use nanomsg_transport_ofi.Keys.Distinct.{key-injective}

abbrev third : ℕ
third = 3

key-injective_example : (third ≡ third) × (bank 4 ≡ bank 4)
key-injective_example =
    key-injective 16 16 third third (bank 4) (bank 4) (omega arith) (omega arith) (omega arith)
      (omega arith) refl refl refl
