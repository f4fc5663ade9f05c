-- ===== src/Endpoint.antt =====
-- The active endpoint of libfabric (src/transports/ofi/ofiapi.c): its queues, which a worker watches.
pub mod Closing
pub mod Passive
use nanomsg_transport_ofi.Prelude.{ℕ, ◌+◌, Option, none, some, ℤ, pos, is_zero, if◌then◌else◌}
use nanomsg_transport_ofi.Worker.{Worker, open_eq, open_cq, remove}

-- What libfabric does: `fi_endpoint`, `fi_eq_open`, `fi_cq_open`, `fi_ep_bind` and `fi_enable`.
pub record Fabric (S : Type 0) : Type 0 where
  pub endpoint : S → ℤ × S
  pub eq_open : S → ℤ × ℕ × S
  pub cq_open : S → ℤ × ℕ × S
  pub bind : ℕ → S → ℤ × S
  pub enable : S → ℤ × S

-- `struct ofi_active_endpoint`
pub record ActiveEndpoint : Type 0 where
  pub eq : ℕ
  pub cq_tx : ℕ
  pub cq_rx : ℕ

-- What `ofi_active_endpoint_open` returns and leaves.
pub record Opened (S : Type 0) : Type 0 where
  pub ret : ℤ
  pub endpoint : Option ActiveEndpoint
  pub worker : Worker
  pub world : S

-- The sizes of an entry of the event queue and of the two completion queues, and the sources of their
-- events.
pub record Setup : Type 0 where
  pub entry_size : ℕ
  pub tx_size : ℕ
  pub rx_size : ℕ
  pub src_eq : ℕ
  pub src_tx : ℕ
  pub src_rx : ℕ

abbrev pub fail : {S : Type 0} → ℤ → Worker → S → Opened S
fail ret w s = record { ret = ret; endpoint = none; worker = w; world = s }

module _ {S : Type 0} (fabric : Fabric S) (setup : Setup) where
  abbrev pub enabled : Worker → ActiveEndpoint → ℤ × S → Opened S
  enabled w ep (ret, s) =
      if is_zero ret
      then record { ret = pos 0; endpoint = some ep; worker = w; world = s }
      else fail ret w s

  abbrev pub rx_bound : Worker → ActiveEndpoint → ℤ × S → Opened S
  rx_bound w ep (ret, s) = if is_zero ret then enabled w ep (fabric.enable s) else fail ret w s

  -- The queue `rx` was opened, or not.
  abbrev pub rx_opened : ℕ → ℕ → ℕ → ℤ × Worker × S → Opened S
  rx_opened eq tx rx (ret, w, s) =
      if is_zero ret
      then rx_bound w (record { eq = eq; cq_tx = tx; cq_rx = rx }) (fabric.bind rx s)
      else fail ret w s

  abbrev pub open_rx : ℕ → ℕ → Worker → ℤ × ℕ × S → Opened S
  open_rx eq tx w q = rx_opened eq tx q.1 (open_cq w setup.rx_size setup.src_rx q)

  abbrev pub tx_bound : ℕ → ℕ → Worker → ℤ × S → Opened S
  tx_bound eq tx w (ret, s) =
      if is_zero ret then open_rx eq tx w (fabric.cq_open s) else fail ret w s

  abbrev pub tx_opened : ℕ → ℕ → ℤ × Worker × S → Opened S
  tx_opened eq tx (ret, w, s) =
      if is_zero ret then tx_bound eq tx w (fabric.bind tx s) else fail ret w s

  abbrev pub open_tx : ℕ → Worker → ℤ × ℕ × S → Opened S
  open_tx eq w q = tx_opened eq q.1 (open_cq w setup.tx_size setup.src_tx q)

  abbrev pub eq_bound : ℕ → Worker → ℤ × S → Opened S
  eq_bound eq w (ret, s) = if is_zero ret then open_tx eq w (fabric.cq_open s) else fail ret w s

  abbrev pub eq_opened : ℕ → ℤ × Worker × S → Opened S
  eq_opened eq (ret, w, s) = if is_zero ret then eq_bound eq w (fabric.bind eq s) else fail ret w s

  abbrev pub open_queue : Worker → ℤ × ℕ × S → Opened S
  open_queue w q = eq_opened q.1 (open_eq setup.entry_size w setup.src_eq q)

  abbrev pub ep_opened : Worker → ℤ × S → Opened S
  ep_opened w (ret, s) = if is_zero ret then open_queue w (fabric.eq_open s) else fail ret w s

  -- `ofi_active_endpoint_open`
  unfoldable pub open_endpoint : Worker → S → Opened S
  unfolding open_eq open_cq
  open_endpoint w s = ep_opened w (fabric.endpoint s)

-- The part of `ofi_active_endpoint_close` for the worker.
unfoldable pub stop_watching : Worker → ActiveEndpoint → Worker
unfolding remove
stop_watching w ep = remove (remove (remove w ep.eq) ep.cq_tx) ep.cq_rx
