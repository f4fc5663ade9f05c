-- ===== src/Worker/Handshake.antt =====
-- What the handshake of client and poller excludes, and where it stalls.
use nanomsg_transport_ofi.Prelude.{true, false, ◌≡◌, refl, ap, ◌∙◌}
use nanomsg_transport_ofi.Worker.Lock.{
  Pool, away, holding, skipped, blocked, scanning, handling, request, enter, signal, clear, admit,
  resume, feed, fed, again, skip, ◌⟶◌, ◌⟶*◌, here, step, c_request, c_enter, c_signal, c_keep,
  c_clear, c_skip, c_leave, c_late, p_pass, p_admit, p_resume, p_feed, p_fed, p_again,
}
use nanomsg_transport_ofi.Worker.Orderly.{
  is_holding, is_blocked, is_away, blocked-of, is_handling, is_asking, IsOrderly, clash, late,
  ⟶*-IsOrderly,
}

-- From an orderly state, in whatever order the two threads take their steps, the poller waits while the
-- client holds the lock, if the client does not unlock after a handler a lock that it skipped during it.
pub ⟶*-excludes :
    (s t : Pool) (r : s ⟶* t)
    → late s t r ≡ false
    → IsOrderly s
    → t.client ≡ holding
    → is_blocked t.poller ≡ true
⟶*-excludes s t r n k h = ((⟶*-IsOrderly s t r n k).held (ap is_holding h)).0

-- From every orderly state with the poller between two events, a client that skips the lock during a handler,
-- unlocks after it, and then locks, can hold the lock while the poller runs.
pub late-overlaps :
    (s : Pool)
    → IsOrderly s
    → s.client ≡ away
    → s.poller ≡ scanning
    → (t : Pool) × (s ⟶* t) × (t.client ≡ holding) × (t.poller ≡ scanning)
late-overlaps s k h p =
    let s1 = feed s in
    let s2 = skip s1 in
    let s3 = fed s2 in
    let s4 = signal s3 in
    let s5 = clear s4 in
    let s6 = request s5 in
    let s7 = admit s6 in
    let s8 = resume s7 in
    let s9 = enter s8 in
    (
      s9,
      step s s1 s9 (p_feed s p) (
          step s1 s2 s9 (c_skip s1 h refl) (
            step s2 s3 s9 (p_fed s2 refl) (
              step s3 s4 s9 (c_late s3 refl refl) (
                step s4 s5 s9 (c_clear s4 refl) (
                  step s5 s6 s9 (c_request s5 refl refl refl) (
                    step s6 s7 s9 (p_admit s6 refl refl) (
                      step s7 s8 s9 (p_resume s7 refl refl)
                        (step s8 s9 s9 (c_enter s8 refl refl) (here s9))))))))),
      refl,
      refl,
    )

-- The poller waits for a signal that nobody is about to give.
pub record IsStalled (s : Pool) : Type 0 where
  pub client : s.client ≡ away
  pub lock_state : s.lock_state ≡ false
  pub lock_safe : s.lock_safe ≡ false
  pub poller : s.poller ≡ blocked
  pub request : s.efd_lock_req ≡ false

-- Only another request can follow.
IsStalled-waits : (s u : Pool) → IsStalled s → s ⟶ u → u ≡ request s
IsStalled-waits s u k (c_request _ h l m) = refl
IsStalled-waits s u k (c_enter _ h l) =
    clash (is_away s.client) (ap is_away k.client) (ap is_away h)
IsStalled-waits s u k (c_signal _ h l) =
    clash (is_away s.client) (ap is_away k.client) (ap is_away h)
IsStalled-waits s u k (c_keep _ h l) = clash (is_away s.client) (ap is_away k.client) (ap is_away h)
IsStalled-waits s u k (c_clear _ h) = clash (is_away s.client) (ap is_away k.client) (ap is_away h)
IsStalled-waits s u k (c_skip _ h l) = clash s.lock_safe l k.lock_safe
IsStalled-waits s u k (c_leave _ h l) = clash s.lock_safe l k.lock_safe
IsStalled-waits s u k (c_late _ h l) = clash (is_away s.client) (ap is_away k.client) (ap is_away h)
IsStalled-waits s u k (p_pass _ h l) =
    clash (is_blocked s.poller) (ap is_blocked k.poller) (ap is_blocked h)
IsStalled-waits s u k (p_admit _ h l) = clash s.lock_state l k.lock_state
IsStalled-waits s u k (p_resume _ h l) = clash s.efd_lock_req l k.request
IsStalled-waits s u k (p_feed _ h) =
    clash (is_blocked s.poller) (ap is_blocked k.poller) (ap is_blocked h)
IsStalled-waits s u k (p_fed _ h) =
    clash (is_blocked s.poller) (ap is_blocked k.poller) (ap is_blocked h)
IsStalled-waits s u k (p_again _ h) =
    clash (is_blocked s.poller) (ap is_blocked k.poller) (ap is_blocked h)

-- From every orderly state in which the client holds the lock, an order of steps by which the lock is given
-- up leaves the poller waiting for a signal that nobody is about to give: no step of either thread is
-- possible but another request for the lock.
pub release-stalls :
    (s : Pool)
    → IsOrderly s
    → s.client ≡ holding
    → (t : Pool) × (s ⟶* t) × IsStalled t × ((u : Pool) → t ⟶ u → u ≡ request t)
release-stalls s k h =
    let s1 = signal s in
    let s2 = resume s1 in
    let s3 = again s2 in
    let s4 = admit s3 in
    let s5 = clear s4 in
    let b : s.poller ≡ blocked = blocked-of s.poller (k.held (ap is_holding h)).0 in
    let l : s.lock_state ≡ true = k.set (ap is_asking h) in
    let f : s.lock_safe ≡ false = k.safe ∙ ap is_handling b in
    let w : IsStalled s5 = record {
      client = refl;
      lock_state = refl;
      lock_safe = f;
      poller = refl;
      request = refl;
    } in
    (
      s5,
      step s s1 s5 (c_signal s h f) (
          step s1 s2 s5 (p_resume s1 b refl) (
            step s2 s3 s5 (p_again s2 refl)
              (step s3 s4 s5 (p_admit s3 refl l) (step s4 s5 s5 (c_clear s4 refl) (here s5))))),
      w,
      λ u r. IsStalled-waits s5 u w r,
    )

-- While the poller is in a handler, a client passes without the lock.
pub handler-overlaps :
    (s : Pool)
    → s.client ≡ away
    → s.poller ≡ scanning
    → (t : Pool) × (s ⟶* t) × (t.client ≡ skipped) × (t.poller ≡ handling)
handler-overlaps s h p =
    let s1 = feed s in
    let s2 = skip s1 in
    (s2, step s s1 s2 (p_feed s p) (step s1 s2 s2 (c_skip s1 h refl) (here s2)), refl, refl)
