-- ===== src/Examples/Setting.antt =====
-- The socket options at concrete inputs.
use nanomsg_transport_ofi.Prelude.{
  ℕ, ◌+◌, ◌*◌, ◌/◌, ◌%◌, refl, ◌==◌, if◌then◌else◌, pos, negsuc, arith,
}
use nanomsg_transport_ofi.Options.{tx_queue_size, defaults, IntBytes, setopt, getopt}
use nanomsg_transport_ofi.Options.Access.{Returns, get-set}

-- The two low bytes of an int.
abbrev int : IntBytes
int = record {
  write = λ v i. elim v [ pos n ↦ if i == 0 then n % 256 else n / 256 | negsuc n ↦ 255 ];
  read = λ b. pos (b 0 + 256 * b 1);
}

abbrev eight : ℕ → ℕ
eight i = if i == 0 then 8 else 0

get-set_example :
    Returns int eight
      (λ i. 7)
      (getopt int (record defaults { tx_queue_size = pos 8 }) tx_queue_size (λ i. 7) 6)
unfolding setopt
get-set_example =
    get-set int defaults (record defaults { tx_queue_size = pos 8 }) tx_queue_size eight (λ i. 7) 6
      (λ b. refl) (omega arith) refl
