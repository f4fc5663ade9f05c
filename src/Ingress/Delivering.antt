-- ===== src/Ingress/Delivering.antt =====
-- `nn_sofi_ingress_handle` and `nn_sofi_ingress_fetch`: messages pass in the order of their arrival.
use nanomsg_transport_ofi.Prelude.{
  ℕ, ◌+◌, ◌≡◌, true, false, ◌||◌, Option, none, some, List, [], ◌∷◌, ◌++◌, map, arith, refl, ap,
  count, subst, sym, ◌∙◌, if◌then◌else◌, update, pos, is_zero, eagain, inl, inr, Bool-cases,
}
use nanomsg_transport_ofi.Ingress.{
  Message, Ingress, mark_free, mark_populated, populated_taken, pop_populated,
}
use nanomsg_transport_ofi.Ingress.Receiving.{
  Parts, Completion, is_keepalive, handle, notify, post, post_late, Fetched, fetch, popped,
  renotify, flush, flush_late, fetched,
}
use nanomsg_transport_ofi.Ingress.Lists.{Holds, Holds-frame, lists}
use nanomsg_transport_ofi.Ingress.Leaving.{taken-Outside}
use nanomsg_transport_ofi.Ingress.Moves.{
  head-Outside, populated_taken-Holds, populated_taken-IsLoose, pop_populated-some,
  pop_populated-none, mark_free-busy, mark_free-loose, mark_populated-busy,
}
use nanomsg_transport_ofi.Ingress.Draining.{mark_free-rest, mark_populated-rest}
use nanomsg_transport_ofi.Ingress.Posting.{post-ready}

other-update :
    (m : ℕ → Option Message) (b : ℕ) (v : Option Message) (xs : List ℕ)
    → count b xs ≡ 0
    → map (update m b v) xs ≡ map m xs
other-update m b v [] h = refl
other-update m b v (x ∷ xs) h = ground (arith, h, other-update m b v xs)

map-behind :
    (m : ℕ → Option Message) (b : ℕ) (xs : List ℕ) → map m (xs ++ b ∷ []) ≡ map m xs ++ m b ∷ []
map-behind m b [] = refl
map-behind m b (x ∷ xs) = ap (λ z. m x ∷ z) (map-behind m b xs)

updated : (m : ℕ → Option Message) (b : ℕ) (v : Option Message) → update m b v b ≡ v
updated m b v = ground arith

map-arrived :
    (m : ℕ → Option Message) (b : ℕ) (v : Option Message) (xs : List ℕ)
    → count b xs ≡ 0
    → map (update m b v) (xs ++ b ∷ []) ≡ map m xs ++ v ∷ []
map-arrived m b v xs h =
    map-behind (update m b v) b xs
    ∙ ap (λ z. z ++ update m b v b ∷ []) (other-update m b v xs h)
    ∙ ap (λ z. map m xs ++ z ∷ []) (updated m b v)

module _ {S : Type 0} where
  -- The messages that wait for nanomsg, the oldest first.
  abbrev pub waiting : Ingress S → List ℕ → List (Option Message)
  waiting e ps = map e.msg ps

module _ {S : Type 0} (parts : Parts S) where
  -- What `handle` does with a message.
  abbrev arrived : Ingress S → Completion → Ingress S
  arrived e c = record e {
    ticks_in = 0;
    msg = update e.msg c.buf (some (record { chunk = c.buf; len = c.len }));
    refs = update e.refs c.buf (e.refs c.buf + 1);
  }

  notify-lists : (e : Ingress S) → lists (notify parts e) ≡ lists e
  notify-lists e = elim (Bool-cases e.nn_busy) [ inl k ↦ rw k refl | inr k ↦ rw k refl ]

  notify-rest :
      (e : Ingress S)
      → ((notify parts e).nn_busy ≡ true)
        × ((notify parts e).nn_later ≡ (e.nn_busy || e.nn_later))
        × ((notify parts e).world ≡ (if e.nn_busy then e.world else parts.received e.world))
        × ((notify parts e).msg ≡ e.msg)
        × ((notify parts e).ticks_in ≡ e.ticks_in)
  notify-rest e = elim (Bool-cases e.nn_busy) [
    | inl k ↦ rw k (refl, refl, refl, refl, refl)
    | inr k ↦ rw k (refl, refl, refl, refl, refl)
  ]

  handle-body :
      (e : Ingress S) (c : Completion)
      → is_keepalive c ≡ false
      → handle parts e c ≡ notify parts (mark_populated (arrived e c) c.buf)
  unfolding handle
  handle-body e c h = rw h refl

  -- A message, not a keep-alive packet, in a busy buffer takes the buffer to the end of the populated ones
  -- and joins the end of the messages that wait. Nanomsg is told at once, or, when it is busy, that is put
  -- off. The count of ticks starts anew.
  pub handle-message :
      (e : Ingress S) (c : Completion) (fs xs ys ps : List ℕ)
      → Holds e fs (xs ++ c.buf ∷ ys) ps
      → is_keepalive c ≡ false
      → Holds (handle parts e c) fs (xs ++ ys) (ps ++ c.buf ∷ [])
        × (waiting (handle parts e c) (ps ++ c.buf ∷ [])
            ≡ waiting e ps ++ some (record { chunk = c.buf; len = c.len }) ∷ [])
        × ((handle parts e c).nn_busy ≡ true)
        × ((handle parts e c).nn_later ≡ (e.nn_busy || e.nn_later))
        × ((handle parts e c).world ≡ (if e.nn_busy then e.world else parts.received e.world))
        × ((handle parts e c).ticks_in ≡ 0)
  handle-message e c fs xs ys ps h k =
      let b = c.buf in
      let v : Option Message = some (record { chunk = b; len = c.len }) in
      let a : Ingress S = arrived e c in
      let p : Ingress S = mark_populated a b in
      let q = handle-body e c k in
      let r = mark_populated-rest a b in
      let n = notify-rest p in
      let o = taken-Outside b fs xs ys ps h.apart in
      let hp = mark_populated-busy a b fs xs ys ps (Holds-frame e a fs (xs ++ b ∷ ys) ps refl h) in
      (
        subst (λ z. Holds z fs (xs ++ ys) (ps ++ b ∷ [])) (sym q)
            (Holds-frame p (notify parts p) fs (xs ++ ys) (ps ++ b ∷ []) (notify-lists p) hp),
        ap (λ z. map z.msg (ps ++ b ∷ [])) q
            ∙ ap (λ z. map z (ps ++ b ∷ [])) (n.3 ∙ ap (λ z. z.5) r)
            ∙ map-arrived e.msg b v ps (omega (arith, o)),
        ap (λ z. z.nn_busy) q ∙ n.0,
        ap (λ z. z.nn_later) q ∙ n.1 ∙ ap (λ z. z.2 || z.3) r,
        ap (λ z. z.world) q ∙ n.2 ∙ ap (λ z. if z.2 then z.8 else parts.received z.8) r,
        ap (λ z. z.ticks_in) q ∙ n.4 ∙ ap (λ z. z.7) r,
      )

  -- A keep-alive packet frees its buffer and leaves the messages as they are.
  pub handle-keepalive :
      (e : Ingress S) (c : Completion) (fs xs ys ps : List ℕ)
      → Holds e fs (xs ++ c.buf ∷ ys) ps
      → is_keepalive c ≡ true
      → e.post_later ≡ false
      → Holds (handle parts e c) (c.buf ∷ fs) (xs ++ ys) ps
        × ((handle parts e c).msg ≡ e.msg)
        × ((handle parts e c).nn_busy ≡ e.nn_busy)
        × ((handle parts e c).world ≡ e.world)
        × ((handle parts e c).ticks_in ≡ 0)
  unfolding handle post_late
  handle-keepalive e c fs xs ys ps h k l =
      let f : Ingress S = record e { ticks_in = 0 } in
      let g : Ingress S = mark_free f c.buf in
      let r = mark_free-rest f c.buf in
      let q : handle parts e c ≡ g = rw k (rw (ap (λ z. z.1) r ∙ l) refl) in
      (
        subst (λ z. Holds z (c.buf ∷ fs) (xs ++ ys) ps) (sym q)
            (mark_free-busy f c.buf fs xs ys ps (Holds-frame e f fs (xs ++ c.buf ∷ ys) ps refl h)),
        ap (λ z. z.msg) q ∙ ap (λ z. z.5) r,
        ap (λ z. z.nn_busy) q ∙ ap (λ z. z.2) r,
        ap (λ z. z.world) q ∙ ap (λ z. z.8) r,
        ap (λ z. z.ticks_in) q ∙ ap (λ z. z.7) r,
      )

  -- With nothing to fetch, `fetch` says so.
  pub fetch-empty :
      (e : Ingress S) (fs bs : List ℕ)
      → Holds e fs bs []
      → e.nn_busy ≡ true
      → fetch parts e ≡ some (record { ret = eagain; msg = none; ingress = e })
  unfolding fetch
  fetch-empty e fs bs h n =
      ap (λ z. if z then some (fetched parts e (pop_populated e)) else none) n
      ∙ ap (λ z. some (fetched parts e z)) (pop_populated-none e h.pop_head)

  -- It fails an assertion unless nanomsg was told of a message.
  pub fetch-idle : (e : Ingress S) → e.nn_busy ≡ false → fetch parts e ≡ none
  unfolding fetch
  fetch-idle e n = rw n refl

  fetch-popped :
      (e : Ingress S) (b : ℕ) (ps : List ℕ)
      → e.pop_head ≡ some b
      → e.nn_busy ≡ true
      → fetch parts e ≡ some (popped parts (populated_taken e b) b)
  unfolding fetch
  fetch-popped e b ps h n =
      ap (λ z. if z then some (fetched parts e (pop_populated e)) else none) n
      ∙ ap (λ z. some (fetched parts e z)) (pop_populated-some e b ps h)

  late : (e : Ingress S) → e.post_later ≡ false → post_late parts e ≡ e
  unfolding post_late
  late e l = rw l refl

  not_late : (e : Ingress S) → e.flush_later ≡ false → flush_late e ≡ e
  not_late e f = ap (λ z. if z then flush e else e) f

  renotify-lists : (e : Ingress S) → lists (renotify parts e) ≡ lists e
  renotify-lists e = elim (Bool-cases e.nn_later) [ inl k ↦ rw k refl | inr k ↦ rw k refl ]

  renotify-rest :
      (e : Ingress S)
      → ((renotify parts e).msg ≡ e.msg)
        × ((renotify parts e).flush_later ≡ e.flush_later)
        × ((renotify parts e).nn_busy ≡ e.nn_later)
        × ((renotify parts e).nn_later ≡ false)
        × ((renotify parts e).world ≡ (if e.nn_later then parts.received e.world else e.world))
  renotify-rest e = elim (Bool-cases e.nn_later) [
    | inl k ↦ rw k (refl, refl, refl, refl, refl)
    | inr k ↦ rw k (refl, refl, refl, refl, refl)
  ]

  pub cleared-Holds :
      (e : Ingress S) (b : ℕ) (fs bs ps : List ℕ)
      → Holds e fs bs (b ∷ ps)
      → Holds
          (mark_free (record (populated_taken e b) { msg = update e.msg b none }) b)
          (b ∷ fs)
          bs
          ps
  cleared-Holds e b fs bs ps h =
      let t : Ingress S = record (populated_taken e b) { msg = update e.msg b none } in
      let k = populated_taken-IsLoose e b in
      mark_free-loose t b fs bs ps
        (Holds-frame (populated_taken e b) t fs bs ps refl (populated_taken-Holds e b fs bs ps h))
        (head-Outside b fs bs ps h.apart) (record { prev = k.prev; next = k.next })

  -- If nanomsg is busy, and no post or flush was put off, the oldest message is handed over, its buffer
  -- is free again and the others wait in their order. Nanomsg stays busy exactly if a notification was put
  -- off, and is told of another message then.
  pub fetch-oldest :
      (e : Ingress S) (b : ℕ) (fs bs ps : List ℕ)
      → Holds e fs bs (b ∷ ps)
      → e.nn_busy ≡ true
      → e.post_later ≡ false
      → e.flush_later ≡ false
      → (r : Fetched S) × (fetch parts e ≡ some r)
        × (r.ret ≡ pos 0)
        × (r.msg ≡ e.msg b)
        × Holds r.ingress (b ∷ fs) bs ps
        × (waiting r.ingress ps ≡ waiting e ps)
        × (r.ingress.nn_busy ≡ e.nn_later)
        × (r.ingress.nn_later ≡ false)
        × (r.ingress.world ≡ (if e.nn_later then parts.received e.world else e.world))
  fetch-oldest e b fs bs ps h n l f =
      let t : Ingress S = record (populated_taken e b) { msg = update e.msg b none } in
      let m : Ingress S = mark_free t b in
      let r = mark_free-rest t b in
      let s = renotify-rest m in
      let o = head-Outside b fs bs ps h.apart in
      let hm = cleared-Holds e b fs bs ps h in
      (
        record { ret = pos 0; msg = e.msg b; ingress = renotify parts m },
        fetch-popped e b ps h.pop_head n
            ∙ ap
                (λ z.
                  some (record {
                    ret = pos 0;
                    msg = e.msg b;
                    ingress = flush_late (renotify parts z);
                  }))
                (late m (ap (λ z. z.1) r ∙ l))
            ∙ ap (λ z. some (record { ret = pos 0; msg = e.msg b; ingress = z }))
                (not_late (renotify parts m) (s.1 ∙ ap (λ z. z.4) r ∙ f)),
        refl,
        refl,
        Holds-frame m (renotify parts m) (b ∷ fs) bs ps (renotify-lists m) hm,
        ap (λ z. map z ps) (s.0 ∙ ap (λ z. z.5) r)
            ∙ other-update e.msg b none ps (omega (arith, o)),
        s.2 ∙ ap (λ z. z.3) r,
        s.3,
        s.4 ∙ ap (λ z. if z.3 then parts.received z.8 else z.8) r,
      )

  late_posts :
      (e : Ingress S)
      → e.post_later ≡ true
      → post_late parts e ≡ (post parts (record e { post_later = false })).1
  unfolding post_late
  late_posts e l = ap (λ z. if z then (post parts (record e { post_later = false })).1 else e) l

  -- When nanomsg is busy, posting a buffer was put off, a flush was not, and libfabric takes a buffer now,
  -- then the buffer of the message that `fetch` hands over becomes the first busy one.
  pub fetch-reposts :
      (e : Ingress S) (b : ℕ) (fs bs ps : List ℕ)
      → Holds e fs bs (b ∷ ps)
      → e.nn_busy ≡ true
      → e.post_later ≡ true
      → e.flush_later ≡ false
      → is_zero (parts.recvmsg b e.world).0 ≡ true
      → (r : Fetched S) × (fetch parts e ≡ some r)
        × (r.msg ≡ e.msg b)
        × Holds r.ingress fs (b ∷ bs) ps
  fetch-reposts e b fs bs ps h n l f z =
      let t : Ingress S = record (populated_taken e b) { msg = update e.msg b none } in
      let m : Ingress S = mark_free t b in
      let m' : Ingress S = record m { post_later = false } in
      let r = mark_free-rest t b in
      let hm = Holds-frame m m' (b ∷ fs) bs ps refl (cleared-Holds e b fs bs ps h) in
      let p =
        post-ready parts m' b fs bs ps hm
          (ap (λ w. is_zero (parts.recvmsg b w).0) (ap (λ z. z.8) r) ∙ z) in
      let x : Ingress S = (post parts m').1 in
      (
        record { ret = pos 0; msg = e.msg b; ingress = renotify parts x },
        fetch-popped e b ps h.pop_head n
            ∙ ap
                (λ z.
                  some (record {
                    ret = pos 0;
                    msg = e.msg b;
                    ingress = flush_late (renotify parts z);
                  }))
                (late_posts m (ap (λ z. z.1) r ∙ l))
            ∙ ap (λ z. some (record { ret = pos 0; msg = e.msg b; ingress = z }))
                (not_late (renotify parts x) ((renotify-rest x).1 ∙ p.2 ∙ ap (λ z. z.4) r ∙ f)),
        refl,
        Holds-frame x (renotify parts x) fs (b ∷ bs) ps (renotify-lists x) p.0,
      )
