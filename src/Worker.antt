-- ===== src/Worker.antt =====
-- The worker pool (src/transports/ofi/ofiw.c): one thread reads the queues of all workers and feeds what
-- it reads to their owners.
pub mod Pacing
pub mod Poller
pub mod Lock
pub mod Handshake
pub mod Orderly
pub mod Stopping
use nanomsg_transport_ofi.Prelude.{
  ℕ, ◌==◌, ltb, Bool, true, false, Option, none, some, List, [], ◌∷◌, ◌++◌, ℤ, pos, is_zero,
  if◌then◌else◌,
}

-- `enum nn_ofiw_item_type`
pub data ItemType : Type 0 where
  eq cq : ItemType

-- `struct nn_ofiw_item`, by what it watches.
pub record Item : Type 0 where
  pub fd_type : ItemType
  pub fd : ℕ
  pub src : ℕ
  pub data_size : ℕ

-- `struct nn_ofiw`, with its address; `efd_sync` is signalled or not.
pub record Worker : Type 0 where
  pub address : ℕ
  pub owner : ℕ
  pub active : ℕ
  pub efd_sync : Bool
  pub items : List Item

-- `nn_ofiw_pool_getworker`, at the address that is allocated
unfoldable pub getworker : List Worker → ℕ → ℕ → List Worker
getworker ws address owner =
    ws ++ record { address = address; owner = owner; active = 0; efd_sync = false; items = [] } ∷ []

-- `nn_list_erase` of the worker
unfoldable pub erase : List Worker → ℕ → List Worker
erase [] a = []
erase (w ∷ ws) a = let rest = erase ws a in if w.address == a then ws else w ∷ rest

-- `nn_ofiw_term`
unfoldable pub term : List Worker → ℕ → List Worker
unfolding erase
term ws a = erase ws a

-- `nn_ofiw_start`
unfoldable pub start : Worker → Worker
start w = record w { active = 2 }

-- `nn_ofiw_stop` up to the wait, which is for the poller thread.
unfoldable pub ask_stop : Bool → Worker → Worker
ask_stop lock_safe w = if w.active == 2 then record w { active = if lock_safe then 0 else 1 } else w

-- The rest of `nn_ofiw_stop`, once `efd_sync` is signalled.
unfoldable pub end_stop : Worker → Worker
end_stop w = if w.active == 1 then record w { active = 0; efd_sync = false } else w

-- `nn_ofiw_add_cq`
unfoldable pub add_cq : Worker → ℕ → ℕ → ℕ → Worker
add_cq w fd count src = record w {
  items = w.items ++ record { fd_type = cq; fd = fd; src = src; data_size = count } ∷ [];
}

-- `nn_ofiw_add_eq`; the size of an entry is a parameter.
unfoldable pub add_eq : ℕ → Worker → ℕ → ℕ → Worker
add_eq size w fd src = record w {
  items = w.items ++ record { fd_type = eq; fd = fd; src = src; data_size = size } ∷ [];
}

module _ {S : Type 0} where
  -- `nn_ofiw_open_eq`, on what `fi_eq_open` returns
  unfoldable pub open_eq : ℕ → Worker → ℕ → ℤ × ℕ × S → ℤ × Worker × S
  unfolding add_eq
  open_eq size w src (ret, fd, s) =
      if is_zero ret then (pos 0, add_eq size w fd src, s) else (ret, w, s)

  -- `nn_ofiw_open_cq`, on what `fi_cq_open` returns
  unfoldable pub open_cq : Worker → ℕ → ℕ → ℤ × ℕ × S → ℤ × Worker × S
  unfolding add_cq
  open_cq w size src (ret, fd, s) =
      if is_zero ret then (pos 0, add_cq w fd size src, s) else (ret, w, s)

-- The loop of `nn_ofiw_remove`
unfoldable pub remove_item : List Item → ℕ → List Item
remove_item [] fd = []
remove_item (i ∷ is) fd = let rest = remove_item is fd in if i.fd == fd then is else i ∷ rest

-- `nn_ofiw_remove`
unfoldable pub remove : Worker → ℕ → Worker
unfolding remove_item
remove w fd = record w { items = remove_item w.items fd }
