-- ===== src/Worker/Lock.antt =====
-- `nn_ofiw_lock_thread` and `nn_ofiw_unlock_thread` against the poller thread, step by step, for one client.
-- Both functions test `lock_safe` first, each for itself: a client may skip the one and not the other.
use nanomsg_transport_ofi.Prelude.{Bool, true, false, ◌≡◌}

-- Where the client is: `skipped` is inside without a lock, as `lock_safe` was set; `releasing` has signalled,
-- and is about to clear `lock_state` and to unlock the mutex.
pub data Client : Type 0 where
  away requested holding releasing skipped : Client

-- Where the poller thread is: before its test of `lock_state`, waiting for `efd_lock_req`, in its
-- loops, or in the handler of an owner.
pub data Poller : Type 0 where
  looking blocked scanning handling : Poller

-- The fields of `struct nn_ofiw_pool` for the lock, with the two places.
pub record Pool : Type 0 where
  pub lock_mutex : Bool
  pub lock_state : Bool
  pub lock_safe : Bool
  pub efd_lock_req : Bool
  pub efd_lock_ack : Bool
  pub client : Client
  pub poller : Poller

abbrev pub request : Pool → Pool
request s = record s { lock_mutex = true; lock_state = true; client = requested }

abbrev pub enter : Pool → Pool
enter s = record s { efd_lock_ack = false; client = holding }

abbrev pub signal : Pool → Pool
signal s = record s { efd_lock_req = true; client = releasing }

abbrev pub clear : Pool → Pool
clear s = record s { lock_mutex = false; lock_state = false; client = away }

abbrev pub admit : Pool → Pool
admit s = record s { efd_lock_ack = true; poller = blocked }

abbrev pub resume : Pool → Pool
resume s = record s { efd_lock_req = false; poller = scanning }

abbrev pub pass : Pool → Pool
pass s = record s { poller = scanning }

abbrev pub feed : Pool → Pool
feed s = record s { lock_safe = true; poller = handling }

abbrev pub fed : Pool → Pool
fed s = record s { lock_safe = false; poller = looking }

abbrev pub again : Pool → Pool
again s = record s { poller = looking }

abbrev pub skip : Pool → Pool
skip s = record s { client = skipped }

abbrev pub leave : Pool → Pool
leave s = record s { client = away }

-- After `nn_ofiw_pool_init`
abbrev pub initial : Pool
initial = record {
  lock_mutex = false;
  lock_state = false;
  lock_safe = false;
  efd_lock_req = false;
  efd_lock_ack = false;
  client = away;
  poller = looking;
}

-- The steps of the two threads. The tests of `lock_safe` in `nn_ofiw_unlock_thread` give four of them: after
-- a lock, `c_signal` and `c_keep`, which leaves the mutex locked; after a skipped one, `c_leave` and `c_late`.
infix 40 ◌⟶◌
pub data ◌⟶◌ : Pool → Pool → Type 0 where
  c_request :
      (s : Pool) → s.client ≡ away → s.lock_safe ≡ false → s.lock_mutex ≡ false → s ⟶ request s
  c_enter : (s : Pool) → s.client ≡ requested → s.efd_lock_ack ≡ true → s ⟶ enter s
  c_signal : (s : Pool) → s.client ≡ holding → s.lock_safe ≡ false → s ⟶ signal s
  c_keep : (s : Pool) → s.client ≡ holding → s.lock_safe ≡ true → s ⟶ leave s
  c_clear : (s : Pool) → s.client ≡ releasing → s ⟶ clear s
  c_skip : (s : Pool) → s.client ≡ away → s.lock_safe ≡ true → s ⟶ skip s
  c_leave : (s : Pool) → s.client ≡ skipped → s.lock_safe ≡ true → s ⟶ leave s
  c_late : (s : Pool) → s.client ≡ skipped → s.lock_safe ≡ false → s ⟶ signal s
  p_pass : (s : Pool) → s.poller ≡ looking → s.lock_state ≡ false → s ⟶ pass s
  p_admit : (s : Pool) → s.poller ≡ looking → s.lock_state ≡ true → s ⟶ admit s
  p_resume : (s : Pool) → s.poller ≡ blocked → s.efd_lock_req ≡ true → s ⟶ resume s
  p_feed : (s : Pool) → s.poller ≡ scanning → s ⟶ feed s
  p_fed : (s : Pool) → s.poller ≡ handling → s ⟶ fed s
  p_again : (s : Pool) → s.poller ≡ scanning → s ⟶ again s

infix 40 ◌⟶*◌
pub data ◌⟶*◌ : Pool → Pool → Type 0 where
  here : (s : Pool) → s ⟶* s
  step : (s t u : Pool) → s ⟶ t → t ⟶* u → s ⟶* u
