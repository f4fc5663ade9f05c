-- ===== src/Ingress/Sound.antt =====
-- Every call on the receive buffers keeps each of them in one of the three lists, whatever libfabric answers.
pub mod Handing
use nanomsg_transport_ofi.Prelude.{
  count, zero, Option-cases, ℕ, suc, ◌+◌, ◌≡◌, true, false, none, some, some-injective,
  none-ne-some, List, [], ◌∷◌, ◌++◌, arith, refl, ap, subst, sym, ◌∙◌, if-both, if◌then◌else◌,
  length, length-append, is_zero, update, inl, inr, Bool-cases,
}
use nanomsg_transport_ofi.Ingress.{
  Ingress, free_taken, populated_taken, mark_free, mark_populated, pop_populated,
}
use nanomsg_transport_ofi.Ingress.Receiving.{
  flush_busy, flush_populated, flush_all, Parts, Completion, post_buffer, post, post_late, handle,
  is_keepalive, notify, flush, flush_late, Fetched, fetch, fetched, popped, renotify,
}
use nanomsg_transport_ofi.Ingress.Lists.{
  Holds, Holds-frame, Outside, IsLoose, lists, mark_busy-Holds,
}
use nanomsg_transport_ofi.Ingress.Moves.{
  first-Outside, free_taken-Holds, free_taken-IsLoose, mark_free-busy, mark_free-loose,
  mark_populated-busy, populated_taken-IsLoose, pop_populated-some, pop_populated-none,
}
use nanomsg_transport_ofi.Ingress.Draining.{
  onto, count-onto, mark_free-rest, mark_populated-rest, flush_populated-step, flush_populated-end,
}
use nanomsg_transport_ofi.Ingress.Indices.{Each, Holds-unique, freed-Each, populated-Each}
use nanomsg_transport_ofi.Ingress.Flushing.{Whole, Whole-frame, flush-waits, flush-drains}
use nanomsg_transport_ofi.Ingress.Delivering.{cleared-Holds}
use nanomsg_transport_ofi.Ingress.Posting.{post-empty, post-some}

module _ {S : Type 0} where
  -- The three lists hold the buffers 0 to `n - 1`, each once.
  pub record IsSound (n : ℕ) (e : Ingress S) : Type 0 where
    pub free : List ℕ
    pub busy : List ℕ
    pub populated : List ℕ
    pub whole : Whole e free busy populated
    pub size : e.max ≡ n
    pub each : Each n free busy populated

  pub IsSound-frame :
      {n : ℕ} (e f : Ingress S) → lists f ≡ lists e → f.max ≡ e.max → IsSound n e → IsSound n f
  IsSound-frame e f q m h = record {
    free = h.free;
    busy = h.busy;
    populated = h.populated;
    whole = Whole-frame e f h.free h.busy h.populated q m h.whole;
    size = m ∙ h.size;
    each = h.each;
  }

  -- A completion that names a busy buffer.
  abbrev pub NamesBusy : Ingress S → Completion → Type 0
  NamesBusy e c =
      (fs : List ℕ) × (xs : List ℕ) × (ys : List ℕ) × (ps : List ℕ) × Whole e fs (xs ++ c.buf ∷ ys)
        ps

  flush_busy-max : (k : ℕ) (e : Ingress S) → (flush_busy k e).max ≡ e.max
  unfolding flush_busy
  flush_busy-max zero e = refl
  flush_busy-max (suc k) e =
      elim e.busy
        as (λ o.
          (elim o as (λ _. Ingress S) [ none ↦ e | some b ↦ flush_busy k (mark_free e b) ]).max
          ≡ e.max) [
            | none ↦ refl
            | some b ↦ flush_busy-max k (mark_free e b) ∙ ap (λ z. z.0) (mark_free-rest e b)
          ]

  flush_populated-max : (k : ℕ) (e : Ingress S) → (flush_populated k e).max ≡ e.max
  unfolding flush_populated
  flush_populated-max zero e = refl
  flush_populated-max (suc k) e = elim (Option-cases e.pop_head) [
    | inl q ↦ ap (λ z. z.max) (flush_populated-end (suc k) e q)
    | inr (b, q) ↦
        ap (λ z. z.max) (flush_populated-step k b [] e q)
        ∙ flush_populated-max k (mark_free (populated_taken e b) b)
        ∙ ap (λ z. z.0) (mark_free-rest (populated_taken e b) b)
  ]

  flush-max : (e : Ingress S) → (flush e).max ≡ e.max
  unfolding flush
  flush-max e =
      let f : Ingress S = flush_busy e.max e in
      if-both (λ (z : Ingress S). z.max ≡ e.max) f.nn_busy (record f { flush_later = true })
        (flush_all f) (flush_busy-max e.max e)
        (flush_populated-max f.max f ∙ flush_busy-max e.max e)

module _ {n : ℕ} {S : Type 0} where
  pub flush-IsSound : (e : Ingress S) → IsSound n e → IsSound n (flush e)
  flush-IsSound e h = elim (Bool-cases e.nn_busy) [
    | inl k ↦ record {
      free = _;
      busy = _;
      populated = _;
      whole = (flush-waits e h.free h.busy h.populated h.whole k).0;
      size = flush-max e ∙ h.size;
      each = λ j. omega (arith, h.each j, count-onto j h.busy h.free);
    }
    | inr k ↦ record {
      free = _;
      busy = _;
      populated = _;
      whole = (flush-drains e h.free h.busy h.populated h.whole k).0;
      size = flush-max e ∙ h.size;
      each = λ j. omega (
        arith,
        h.each j,
        count-onto j h.busy h.free,
        count-onto j h.populated (onto h.busy h.free),
      );
    }
  ]

  pub flush_late-IsSound : (e : Ingress S) → IsSound n e → IsSound n (flush_late e)
  flush_late-IsSound e h = if-both (IsSound n) e.flush_later (flush e) e (flush-IsSound e h) h

module _ {n : ℕ} {S : Type 0} (parts : Parts S) where
  posted-IsSound :
      (e : Ingress S) (b : ℕ) (fs bs ps : List ℕ)
      → Holds e fs bs ps
      → Outside b fs bs ps
      → IsLoose e b
      → suc (length fs + length bs + length ps) ≡ e.max
      → e.max ≡ n
      → Each n (b ∷ fs) bs ps
      → IsSound n (post_buffer parts e b).1
  unfolding post_buffer
  posted-IsSound e b fs bs ps h o k m z w =
      let f : Ingress S = record e { world = (parts.recvmsg b e.world).1 } in
      let l : IsLoose f b = record { prev = k.prev; next = k.next } in
      let hf = Holds-frame e f fs bs ps refl h in
      elim (Bool-cases (is_zero (parts.recvmsg b e.world).0)) [
        | inl y ↦ rw y record {
          free = fs;
          busy = b ∷ bs;
          populated = ps;
          whole = record { holds = mark_busy-Holds f b fs bs ps hf o; all = omega (arith, m) };
          size = z;
          each = λ j. ground (arith, w j);
        }
        | inr y ↦ rw y record {
          free = b ∷ fs;
          busy = bs;
          populated = ps;
          whole = record {
            holds = mark_free-loose f b fs bs ps hf o l;
            all = omega (arith, m, ap (λ z. z.0) (mark_free-rest f b));
          };
          size = ap (λ z. z.0) (mark_free-rest f b) ∙ z;
          each = w;
        }
      ]

  post_from-IsSound :
      (e : Ingress S) (fs bs ps : List ℕ)
      → Whole e fs bs ps
      → e.max ≡ n
      → Each n fs bs ps
      → IsSound n (post parts e).1
  post_from-IsSound e [] bs ps h z w =
      subst (λ y. IsSound n y.1) (sym (post-empty parts e bs ps h.holds))
        (record { free = []; busy = bs; populated = ps; whole = h; size = z; each = w })
  post_from-IsSound e (b ∷ fs) bs ps h z w =
      subst (λ y. IsSound n y.1) (sym (post-some parts e b fs h.holds.free))
        (posted-IsSound (free_taken e b) b fs bs ps (free_taken-Holds e b fs bs ps h.holds)
          (first-Outside b fs bs ps h.holds.apart) (free_taken-IsLoose e b) (omega (arith, h.all)) z
          w)

  -- A buffer is posted, is refused by libfabric, or none is free: all are in the lists afterwards.
  pub post-IsSound : (e : Ingress S) → IsSound n e → IsSound n (post parts e).1
  post-IsSound e h = post_from-IsSound e h.free h.busy h.populated h.whole h.size h.each

  pub post_late-IsSound : (e : Ingress S) → IsSound n e → IsSound n (post_late parts e)
  unfolding post_late
  post_late-IsSound e h =
      let f : Ingress S = record e { post_later = false } in
      if-both (IsSound n) e.post_later (post parts f).1 e
        (post-IsSound f (IsSound-frame e f refl refl h)) h

  pub notify-IsSound : (e : Ingress S) → IsSound n e → IsSound n (notify parts e)
  notify-IsSound e h =
      let f : Ingress S = record e { nn_later = true } in
      let g : Ingress S = record e { nn_busy = true; world = parts.received e.world } in
      if-both (IsSound n) e.nn_busy f g (IsSound-frame e f refl refl h)
        (IsSound-frame e g refl refl h)

  pub renotify-IsSound : (e : Ingress S) → IsSound n e → IsSound n (renotify parts e)
  renotify-IsSound e h =
      let f : Ingress S = record e {
        nn_later = false;
        nn_busy = true;
        world = parts.received e.world;
      } in
      let g : Ingress S = record e { nn_busy = false } in
      if-both (IsSound n) e.nn_later f g (IsSound-frame e f refl refl h)
        (IsSound-frame e g refl refl h)
