-- ===== src/Examples/Addressing.antt =====
-- Addresses at concrete inputs.
use nanomsg_transport_ofi.Prelude.{
  ℕ, ◌+◌, ◌≡◌, refl, none, some, Option, [], ◌∷◌, ℤ, pos, true, false,
}
use nanomsg_transport_ofi.Address.{Text, Parts, Query, Hinted, nonempty, cut, match_fabric, enodata}
use nanomsg_transport_ofi.Address.RoundTrip.{WellSpelt, Printed, print, cut-print, print-cut}
use nanomsg_transport_ofi.Address.Matching.{
  AsksStale, on_fabric, plain, named, outcome, match_fabric-print, match_fabric-stale,
}

-- fe80::1:5050@tcp:sockets
abbrev node : Text
node = b'f' ∷ b'e' ∷ b':' ∷ b':' ∷ b'1' ∷ []

abbrev service : Text
service = b'5' ∷ b'0' ∷ []

abbrev tcp : Text
tcp = b't' ∷ b'c' ∷ b'p' ∷ []

abbrev sockets : Parts
sockets = on_fabric node service tcp (some (b's' ∷ []))

sockets-WellSpelt : WellSpelt sockets
unfolding nonempty
sockets-WellSpelt = (refl, (refl, refl, refl, refl))

sockets_written :
    print sockets
    ≡ b'f' ∷ b'e' ∷ b':' ∷ b':' ∷ b'1' ∷ b':' ∷ b'5' ∷ b'0' ∷ b'@' ∷ b't' ∷ b'c' ∷ b'p' ∷ b':'
      ∷ b's' ∷ []
unfolding print
sockets_written = refl

cut-print_example : cut (print sockets) ≡ some sockets
cut-print_example = cut-print sockets sockets-WellSpelt

-- n:5@
abbrev open_end : Text
open_end = b'n' ∷ b':' ∷ b'5' ∷ b'@' ∷ []

open_end-cut : cut open_end ≡ some (plain (b'n' ∷ []) (b'5' ∷ []))
unfolding cut
open_end-cut = refl

print-cut_example : Printed open_end (plain (b'n' ∷ []) (b'5' ∷ []))
print-cut_example = print-cut open_end (plain (b'n' ∷ []) (b'5' ∷ [])) open_end-cut

-- The world is the number of questions; the first fabric is found.
abbrev found : Query → ℕ → (ℤ × Option ℕ) × ℕ
found q w = ((pos 0, some 1), w + 1)

abbrev missing : Query → ℕ → (ℤ × Option ℕ) × ℕ
missing q w = ((pos 0, none), w + 1)

abbrev at_start : Hinted ℕ
at_start = record { fabric_attr = none; buffers = 4 ∷ []; world = 0 }

missing_answer : (match_fabric missing 9 open_end true at_start).ret ≡ enodata
unfolding match_fabric
missing_answer = refl

match_fabric-print_example :
    match_fabric found 9 (print sockets) true at_start ≡ outcome found true sockets 9 at_start
match_fabric-print_example = match_fabric-print found 9 sockets true at_start sockets-WellSpelt refl

match_fabric-stale_example :
    AsksStale found 9 10
      (on_fabric node service tcp none)
      (plain (b'n' ∷ []) (b'5' ∷ []))
      (named 9 tcp none)
      true
      false
      at_start
unfolding nonempty
match_fabric-stale_example =
    match_fabric-stale found 9 10 node service tcp none (b'n' ∷ []) (b'5' ∷ []) true false at_start
      (refl, (refl, refl, refl)) (refl, refl) refl refl refl
