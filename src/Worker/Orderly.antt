-- ===== src/Worker/Orderly.antt =====
-- What the handshake of client and poller (`nn_ofiw_lock_thread`, `nn_ofiw_unlock_thread`) keeps.
use mathlib.Core.Bool.{true≢false}
use nanomsg_transport_ofi.Prelude.{
  arith, ◌||◌, Bool, true, false, ◌≡◌, refl, ap, sym, ◌∙◌, Bool-cases, inl, inr,
}
use nanomsg_transport_ofi.Worker.Lock.{
  initial, Pool, Client, away, requested, holding, skipped, Poller, looking, blocked, scanning,
  handling, enter, pass, feed, fed, again, ◌⟶◌, ◌⟶*◌, here, step, c_request, c_enter, c_signal,
  c_keep, c_clear, c_skip, c_leave, c_late, p_pass, p_admit, p_resume, p_feed, p_fed, p_again,
}

abbrev pub is_holding : Client → Bool
is_holding holding = true
is_holding _ = false

abbrev pub is_blocked : Poller → Bool
is_blocked blocked = true
is_blocked _ = false

abbrev pub is_away : Client → Bool
is_away away = true
is_away _ = false

pub blocked-of : (p : Poller) → is_blocked p ≡ true → p ≡ blocked
blocked-of looking h = absurd (true≢false (sym h))
blocked-of blocked h = refl
blocked-of scanning h = absurd (true≢false (sym h))
blocked-of handling h = absurd (true≢false (sym h))

abbrev pub is_handling : Poller → Bool
is_handling handling = true
is_handling _ = false

-- The client has asked for the lock or holds it.
abbrev pub is_asking : Client → Bool
is_asking requested = true
is_asking holding = true
is_asking _ = false

-- The client holds the lock only while the poller waits, and each signal finds the poller waiting. A client
-- that asks or holds has set `lock_state`, and `lock_safe` is set in the handlers only.
pub record IsOrderly (s : Pool) : Type 0 where
  pub held :
      is_holding s.client ≡ true
      → (is_blocked s.poller ≡ true) × (s.efd_lock_req ≡ false) × (s.efd_lock_ack ≡ false)
  pub asked : s.efd_lock_req ≡ true → (is_blocked s.poller ≡ true) × (s.efd_lock_ack ≡ false)
  pub acked : s.efd_lock_ack ≡ true → is_blocked s.poller ≡ true
  pub set : is_asking s.client ≡ true → s.lock_state ≡ true
  pub safe : s.lock_safe ≡ is_handling s.poller

pub clash {ℓ} : {A : Type ℓ} (b : Bool) → b ≡ true → b ≡ false → A
clash b h k = absurd (true≢false (sym h ∙ k))

-- While the poller runs, no signal is out and the client does not hold the lock.
runs :
    (s : Pool)
    → IsOrderly s
    → is_blocked s.poller ≡ false
    → (is_holding s.client ≡ false) × (s.efd_lock_req ≡ false) × (s.efd_lock_ack ≡ false)
runs s k h = (
  elim (Bool-cases (is_holding s.client)) [
    | inl c ↦ clash (is_blocked s.poller) (k.held c).0 h
    | inr c ↦ c
  ],
  elim (Bool-cases s.efd_lock_req) [
    | inl c ↦ clash (is_blocked s.poller) (k.asked c).0 h
    | inr c ↦ c
  ],
  elim (Bool-cases s.efd_lock_ack) [
    | inl c ↦ clash (is_blocked s.poller) (k.acked c) h
    | inr c ↦ c
  ],
)

-- A pool in which nothing is signalled and the client does not hold the lock.
quiet :
    (s : Pool)
    → (is_holding s.client ≡ false) × (s.efd_lock_req ≡ false) × (s.efd_lock_ack ≡ false)
    → (is_asking s.client ≡ true → s.lock_state ≡ true)
    → s.lock_safe ≡ is_handling s.poller
    → IsOrderly s
quiet s (c, r, a) set safe = record {
  held = λ h. clash (is_holding s.client) h c;
  asked = λ h. clash s.efd_lock_req h r;
  acked = λ h. clash s.efd_lock_ack h a;
  set = set;
  safe = safe;
}

-- The client is at a place where it neither asks for the lock nor holds it; nothing else changes.
moved :
    (s : Pool) (c : Client)
    → is_holding c ≡ false
    → is_asking c ≡ false
    → IsOrderly s
    → IsOrderly (record s { client = c })
moved s c h a k = record {
  held = λ x. clash (is_holding c) x h;
  asked = k.asked;
  acked = k.acked;
  set = λ x. clash (is_asking c) x a;
  safe = k.safe;
}

entered-IsOrderly :
    (s : Pool) → s.client ≡ requested → s.efd_lock_ack ≡ true → IsOrderly s → IsOrderly (enter s)
entered-IsOrderly s q h k =
    let r : s.efd_lock_req ≡ false = elim (Bool-cases s.efd_lock_req) [
      | inl c ↦ clash s.efd_lock_ack h (k.asked c).1
      | inr c ↦ c
    ] in
    record {
      held = λ c. (k.acked h, r, refl);
      asked = λ c. ((k.asked c).0, refl);
      acked = λ c. clash false c refl;
      set = λ c. k.set (ap is_asking q);
      safe = k.safe;
    }

-- The two threads begin in an orderly state.
pub initial-IsOrderly : IsOrderly initial
initial-IsOrderly = quiet initial (refl, refl, refl) (λ c. clash false c refl) refl

-- A client that skipped the lock unlocks after the handler has ended.
abbrev pub is_late : (s t : Pool) → s ⟶ t → Bool
is_late s _ (c_late _ h l) = true
is_late s _ _ = false

-- One of the steps is late.
abbrev pub late : (s t : Pool) → s ⟶* t → Bool
late s t (here _) = false
late s t (step _ u _ h r) = is_late s u h || late u t r

⟶-IsOrderly : (s t : Pool) (r : s ⟶ t) → is_late s t r ≡ false → IsOrderly s → IsOrderly t
⟶-IsOrderly s t (c_request _ h l m) n k = record {
  held = λ c. clash false c refl;
  asked = k.asked;
  acked = k.acked;
  set = λ c. refl;
  safe = k.safe;
}
⟶-IsOrderly s t (c_enter _ h l) n k = entered-IsOrderly s h l k
⟶-IsOrderly s t (c_signal _ h l) n k =
    let p = k.held (ap is_holding h) in
    record {
      held = λ c. clash false c refl;
      asked = λ c. (p.0, p.2);
      acked = k.acked;
      set = λ c. clash false c refl;
      safe = k.safe;
    }
⟶-IsOrderly s t (c_keep _ h l) n k = moved s away refl refl k
⟶-IsOrderly s t (c_clear _ h) n k = record {
  held = λ c. clash false c refl;
  asked = k.asked;
  acked = k.acked;
  set = λ c. clash false c refl;
  safe = k.safe;
}
⟶-IsOrderly s t (c_skip _ h l) n k = moved s skipped refl refl k
⟶-IsOrderly s t (c_leave _ h l) n k = moved s away refl refl k
⟶-IsOrderly s t (c_late _ h l) n k = clash true refl n
⟶-IsOrderly s t (p_pass _ h l) n k =
    quiet (pass s) (runs s k (ap is_blocked h)) k.set (k.safe ∙ ap is_handling h)
⟶-IsOrderly s t (p_admit _ h l) n k =
    let q = runs s k (ap is_blocked h) in
    record {
      held = λ c. clash (is_holding s.client) c q.0;
      asked = λ c. clash s.efd_lock_req c q.1;
      acked = λ c. refl;
      set = k.set;
      safe = k.safe ∙ ap is_handling h;
    }
⟶-IsOrderly s t (p_resume _ h l) n k =
    let a = k.asked l in
    record {
      held = λ c. clash s.efd_lock_req l (k.held c).1;
      asked = λ c. clash false c refl;
      acked = λ c. clash s.efd_lock_ack c a.1;
      set = k.set;
      safe = k.safe ∙ ap is_handling h;
    }
⟶-IsOrderly s t (p_feed _ h) n k = quiet (feed s) (runs s k (ap is_blocked h)) k.set refl
⟶-IsOrderly s t (p_fed _ h) n k = quiet (fed s) (runs s k (ap is_blocked h)) k.set refl
⟶-IsOrderly s t (p_again _ h) n k =
    quiet (again s) (runs s k (ap is_blocked h)) k.set (k.safe ∙ ap is_handling h)

pub ⟶*-IsOrderly : (s t : Pool) (r : s ⟶* t) → late s t r ≡ false → IsOrderly s → IsOrderly t
⟶*-IsOrderly s t (here _) n k = k
⟶*-IsOrderly s t (step _ u _ h r) n k =
    ⟶*-IsOrderly u t r (ground (arith, n)) (⟶-IsOrderly s u h (ground (arith, n)) k)
