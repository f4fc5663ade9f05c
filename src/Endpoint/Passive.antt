-- ===== src/Endpoint/Passive.antt =====
-- The passive endpoint, the close of both kinds of endpoint, and the calls on a connection
-- (src/transports/ofi/ofiapi.c).
pub mod Draining
use nanomsg_transport_ofi.Prelude.{ℕ, zero, suc, Option, none, some, ℤ, pos, is_zero, if◌then◌else◌}
use nanomsg_transport_ofi.Worker.{Worker, open_eq, remove}
use nanomsg_transport_ofi.Endpoint.{ActiveEndpoint, stop_watching}

-- What libfabric does: `fi_passive_ep`, `fi_eq_open`, `fi_pep_bind`, `fi_cancel`, `fi_eq_read`, `fi_close` and
-- `fi_freeinfo`.
pub record Calls (S : Type 0) : Type 0 where
  pub passive_ep : S → ℤ × ℕ × S
  pub eq_open : S → ℤ × ℕ × S
  pub pep_bind : ℕ → ℕ → S → ℤ × S
  pub cancel : ℕ → S → S
  pub eq_read : ℕ → S → ℤ × S
  pub close : ℕ → S → S
  pub freeinfo : S → S

-- `struct ofi_passive_endpoint`
pub record PassiveEndpoint : Type 0 where
  pub ep : ℕ
  pub eq : ℕ

-- What `ofi_passive_endpoint_open` returns and leaves.
pub record Opened (S : Type 0) : Type 0 where
  pub ret : ℤ
  pub endpoint : Option PassiveEndpoint
  pub worker : Worker
  pub world : S

abbrev pub fail : {S : Type 0} → ℤ → Worker → S → Opened S
fail ret w s = record { ret = ret; endpoint = none; worker = w; world = s }

module _ {S : Type 0} (calls : Calls S) where
  module _ (size src : ℕ) where
    abbrev pub bound : ℕ → ℕ → Worker → ℤ × S → Opened S
    bound ep eq w (ret, s) =
        if is_zero ret
        then record {
          ret = pos 0;
          endpoint = some (record { ep = ep; eq = eq });
          worker = w;
          world = s;
        }
        else fail ret w s

    abbrev pub eq_opened : ℕ → ℕ → ℤ × Worker × S → Opened S
    eq_opened ep eq (ret, w, s) =
        if is_zero ret then bound ep eq w (calls.pep_bind ep eq s) else fail ret w s

    abbrev pub open_queue : ℕ → Worker → ℤ × ℕ × S → Opened S
    open_queue ep w q = eq_opened ep q.1 (open_eq size w src q)

    abbrev pub ep_opened : Worker → ℤ × ℕ × S → Opened S
    ep_opened w (ret, ep, s) =
        if is_zero ret then open_queue ep w (calls.eq_open s) else fail ret w s

    -- `ofi_passive_endpoint_open`
    unfoldable pub open_passive : Worker → S → Opened S
    unfolding open_eq
    open_passive w s = ep_opened w (calls.passive_ep s)

  -- The loop `do … while ((int)rd == 0)`, with fuel.
  unfoldable pub drain : ℕ → ℕ → S → S
  drain zero eq s = s
  drain (suc k) eq s =
      let (rd, t) = calls.eq_read eq s in let rest = drain k eq t in if is_zero rd then rest else t

  -- `ofi_passive_endpoint_close`
  unfoldable pub close_passive : ℕ → Worker → PassiveEndpoint → S → Worker × S
  unfolding remove drain
  close_passive k w pep s =
      (remove w pep.eq, calls.freeinfo (calls.close pep.eq (calls.close pep.ep (drain k pep.eq s))))

  -- `ofi_active_endpoint_close` of the endpoint `ep`
  unfoldable pub close_active : ℕ → Worker → ℕ → ActiveEndpoint → S → Worker × S
  unfolding stop_watching drain
  close_active k w ep a s =
      let t = calls.close ep (drain k a.eq (calls.cancel ep s)) in
      (
        stop_watching w a,
        calls.freeinfo (calls.close a.cq_rx (calls.close a.cq_tx (calls.close a.eq t))),
      )

-- What libfabric does on a connection, to an address of `A`, with a message of `M`.
pub record Connection (A M S : Type 0) : Type 0 where
  pub fi_listen : S → ℤ × S
  pub fi_accept : S → ℤ × S
  pub fi_connect : A → S → ℤ × S
  pub fi_reject : ℕ → S → ℤ × S
  pub fi_shutdown : S → ℤ × S
  pub fi_sendmsg : M → S → ℤ × S
  pub fi_recvmsg : M → S → ℤ × S

-- `if (ret) { FT_PRINTERR(…); return ret; }` and `return 0;`
abbrev pub passed_on : {S : Type 0} → ℤ × S → ℤ × S
passed_on (ret, s) = if is_zero ret then (pos 0, s) else (ret, s)

module _ {A M S : Type 0} (fabric : Connection A M S) where
  unfoldable pub cm_listen : S → ℤ × S
  cm_listen s = passed_on (fabric.fi_listen s)

  unfoldable pub cm_accept : S → ℤ × S
  cm_accept s = passed_on (fabric.fi_accept s)

  -- With no address, that of the domain is taken.
  unfoldable pub cm_connect : A → Option A → S → ℤ × S
  cm_connect dest none s = passed_on (fabric.fi_connect dest s)
  cm_connect dest (some a) s = passed_on (fabric.fi_connect a s)

  unfoldable pub cm_reject : ℕ → S → ℤ × S
  cm_reject handle s = passed_on (fabric.fi_reject handle s)

  unfoldable pub cm_shutdown : S → S
  cm_shutdown s = (fabric.fi_shutdown s).1

  unfoldable pub ofi_sendmsg : M → S → ℤ × S
  ofi_sendmsg m s = passed_on (fabric.fi_sendmsg m s)

  unfoldable pub ofi_recvmsg : M → S → ℤ × S
  ofi_recvmsg m s = passed_on (fabric.fi_recvmsg m s)
