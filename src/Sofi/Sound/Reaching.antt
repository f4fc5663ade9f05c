-- ===== src/Sofi/Sound/Reaching.antt =====
-- The calls on a streaming endpoint (src/transports/ofi/sofi.c) in any order: nanomsg's events, by way of
-- `nn_sofi_handler` and `nn_sofi_shutdown`, `nn_sofi_send` and `nn_sofi_recv`.
use nanomsg_transport_ofi.Prelude.{ℕ, suc, ◌≡◌, Option, some, [], ℤ, refl, sym, subst}
use nanomsg_transport_ofi.Links.Loop.{from}
use nanomsg_transport_ofi.Ingress
use nanomsg_transport_ofi.Ingress.Start
use nanomsg_transport_ofi.Ingress.Sound.{IsSound}
use nanomsg_transport_ofi.Sofi.{Event, Parts, Sofi, Outcome}
use nanomsg_transport_ofi.Sofi.Running.{handler, send, recv}
use nanomsg_transport_ofi.Sofi.Closing.{shutdown}
use nanomsg_transport_ofi.Sofi.Sound.{
  Names, Sound, Keeps, left, handler-Keeps, send-Keeps, recv-Sound,
}
use nanomsg_transport_ofi.Sofi.Sound.Stopping.{shutdown-Keeps}

module _ {M H S : Type 0} (parts : Parts M H S) where
  -- A call that does not abort; the event of a completed reception names a busy buffer.
  pub data Call : Sofi M H S → Sofi M H S → Type 0 where
    handled :
        (s : Sofi M H S) (ev : Event) (o : Outcome M H S)
        → Names s ev
        → handler parts s s.state ev ≡ some o
        → Call s (left o)
    shut :
        (s : Sofi M H S) (ev : Event) (o : Outcome M H S)
        → shutdown parts s ev ≡ some o
        → Call s (left o)
    sent : (s : Sofi M H S) (m : M) (o : Outcome M H S) → send parts s m ≡ some o → Call s (left o)
    fetched :
        (s t : Sofi M H S) (ret : ℤ) (m : Option Ingress.Message)
        → recv parts s ≡ some (ret, m, t)
        → Call s t

  pub data Calls : Sofi M H S → Sofi M H S → Type 0 where
    here : (s : Sofi M H S) → Calls s s
    after : (s t u : Sofi M H S) → Call s t → Calls t u → Calls s u

  Call-Sound : {k : ℕ} (s t : Sofi M H S) → Call s t → Sound k s → Sound k t
  Call-Sound {k} s _ (handled _ ev o n q) h =
      subst (Keeps k) q (handler-Keeps parts s s.state ev h n)
  Call-Sound {k} s _ (shut _ ev o q) h = subst (Keeps k) q (shutdown-Keeps parts s ev h)
  Call-Sound {k} s _ (sent _ m o q) h = subst (Keeps k) q (send-Keeps parts s m h)
  Call-Sound s t (fetched _ _ ret m q) h = recv-Sound parts s t ret m h q

  pub Calls-Sound : {k : ℕ} (s t : Sofi M H S) → Calls s t → Sound k s → Sound k t
  Calls-Sound s t (here _) h = h
  Calls-Sound s t (after _ u _ c r) h = Calls-Sound u t r (Call-Sound s u c h)

  -- After `nn_sofi_init` with at least one buffer, and any calls that do not abort, each receive buffer is in
  -- one of the three lists, and in one only, whatever libfabric answers. A completed reception names a busy
  -- buffer.
  pub Calls-keep :
      (s t : Sofi M H S) (n : ℕ) (w : S)
      → s.ingress ≡ Start.start (suc n) w
      → Calls s t
      → IsSound (suc n) t.ingress
  unfolding Start.start
  Calls-keep s t n w q r = Calls-Sound s t r (
      subst (IsSound (suc n)) (sym q) (record {
        free = from 0 (suc n);
        busy = [];
        populated = [];
        whole = Start.start-Whole n w;
        size = refl;
        each = λ j. Start.start-each (suc n) j;
      }))
