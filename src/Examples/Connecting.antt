-- ===== src/Examples/Connecting.antt =====
-- The connecting endpoint at concrete inputs. The world counts calls; the streaming endpoint and
-- the back-off timer are idle from 10 on.
use nanomsg_transport_ofi.Prelude.{ℕ, ◌+◌, ◌≡◌, refl, pos, negsuc, leb}
use nanomsg_transport_ofi.Cofi.{
  active, retrying, sofi, sofi_stopped, bad_source, Parts, Cofi, done, abort, handler,
  start_connecting,
}
use nanomsg_transport_ofi.Cofi.Edges.{◌⟶◌, handler-⟶, run, lost, run-lost}

abbrev parts : Parts ℕ
parts = record {
  sofi_init = λ w. (pos 0, w + 1);
  sofi_start_connect = λ w. (negsuc 110, w + 1);
  sofi_stop = λ w. w + 1;
  sofi_term = λ w. w + 1;
  sofi_isidle = λ w. leb 10 w;
  backoff_start = λ w. w + 1;
  backoff_stop = λ w. w + 1;
  backoff_isidle = λ w. leb 10 w;
  set_error = λ e w. w + 1;
  fsm_stopped = λ w. w + 1;
  epbase_stopped = λ w. w + 1;
}

abbrev connected : ℕ → Cofi ℕ
connected w = record { state = active; world = w }

handler-⟶_example : active ⟶ retrying
unfolding handler
handler-⟶_example =
    handler-⟶ parts (connected 0) (record { state = retrying; world = 2 }) sofi sofi_stopped refl

run-lost_example : run parts (done (connected 20)) lost ≡ abort bad_source
unfolding start_connecting
run-lost_example = run-lost parts (connected 20) (negsuc 110) 25 refl refl (λ h. refl)
