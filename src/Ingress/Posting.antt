-- ===== src/Ingress/Posting.antt =====
-- Posting: `nn_sofi_ingress_post_buffer`, `nn_sofi_ingress_post` and `nn_sofi_ingress_post_all`.
use nanomsg_transport_ofi.Prelude.{
  ℕ, zero, suc, ◌≤◌, ◌≡◌, true, false, none, some, List, [], ◌∷◌, arith, refl, ap, subst, sym, ◌∙◌,
  if◌then◌else◌, length, ℤ, pos, negsuc, is_zero, is_neg, eagain,
}
use nanomsg_transport_ofi.Ingress.{Ingress, free_taken}
use nanomsg_transport_ofi.Ingress.Receiving.{Parts, post_buffer, post, post_all, unless_negative}
use nanomsg_transport_ofi.Ingress.Lists.{Outside, Holds, IsLoose, Holds-frame, mark_busy-Holds}
use nanomsg_transport_ofi.Ingress.Moves.{
  first-Outside, free_taken-Holds, free_taken-IsLoose, pop_free-some, pop_free-none,
  mark_free-loose,
}
use nanomsg_transport_ofi.Ingress.Draining.{onto}

neg-zero : (i : ℤ) → is_neg i ≡ true → is_zero i ≡ false
neg-zero (pos zero) h = ground (arith, h)
neg-zero (pos (suc n)) h = refl
neg-zero (negsuc n) h = refl

neg-kept : (i : ℤ) → is_neg i ≡ true → (if is_neg i then i else pos 0) ≡ i
neg-kept i h = rw h refl

module _ {S : Type 0} (parts : Parts S) where
  -- A posted buffer is the first busy one.
  post_buffer-busy :
      (e : Ingress S) (b : ℕ) (fs bs ps : List ℕ)
      → Holds e fs bs ps
      → Outside b fs bs ps
      → is_zero (parts.recvmsg b e.world).0 ≡ true
      → Holds (post_buffer parts e b).1 fs (b ∷ bs) ps
        × ((post_buffer parts e b).0 ≡ pos 0)
        × ((post_buffer parts e b).1.flush_later ≡ e.flush_later)
  unfolding post_buffer
  post_buffer-busy e b fs bs ps h o z =
      let f : Ingress S = record e { world = (parts.recvmsg b e.world).1 } in
      rw z (mark_busy-Holds f b fs bs ps (Holds-frame e f fs bs ps refl h) o, refl, refl)

  -- One that libfabric refuses is the first free one.
  post_buffer-free :
      (e : Ingress S) (b : ℕ) (fs bs ps : List ℕ)
      → Holds e fs bs ps
      → Outside b fs bs ps
      → IsLoose e b
      → is_zero (parts.recvmsg b e.world).0 ≡ false
      → Holds (post_buffer parts e b).1 (b ∷ fs) bs ps
        × ((post_buffer parts e b).0 ≡ (parts.recvmsg b e.world).0)
  unfolding post_buffer
  post_buffer-free e b fs bs ps h o k z =
      let f : Ingress S = record e { world = (parts.recvmsg b e.world).1 } in
      let l : IsLoose f b = record { prev = k.prev; next = k.next } in
      rw z (mark_free-loose f b fs bs ps (Holds-frame e f fs bs ps refl h) o l, refl)

  pub post-some :
      (e : Ingress S) (b : ℕ) (fs : List ℕ)
      → e.free ≡ some b
      → post parts e ≡ unless_negative (post_buffer parts (free_taken e b) b)
  unfolding post
  post-some e b fs h = rw (post, pop_free-some e b fs h) refl

  -- The first free buffer is posted: it becomes the first busy one.
  pub post-ready :
      (e : Ingress S) (b : ℕ) (fs bs ps : List ℕ)
      → Holds e (b ∷ fs) bs ps
      → is_zero (parts.recvmsg b e.world).0 ≡ true
      → Holds (post parts e).1 fs (b ∷ bs) ps
        × ((post parts e).0 ≡ pos 0)
        × ((post parts e).1.flush_later ≡ e.flush_later)
  post-ready e b fs bs ps h z =
      let r =
        post_buffer-busy (free_taken e b) b fs bs ps (free_taken-Holds e b fs bs ps h)
          (first-Outside b fs bs ps h.apart) z in
      subst (λ p. Holds p.1 fs (b ∷ bs) ps × (p.0 ≡ pos 0) × (p.1.flush_later ≡ e.flush_later))
        (sym (post-some e b fs h.free)) (r.0, ap (λ i. if is_neg i then i else pos 0) r.1, r.2)

  -- If libfabric refuses it, the lists are as before, and an error is returned.
  pub post-refused :
      (e : Ingress S) (b : ℕ) (fs bs ps : List ℕ)
      → Holds e (b ∷ fs) bs ps
      → is_neg (parts.recvmsg b e.world).0 ≡ true
      → Holds (post parts e).1 (b ∷ fs) bs ps × ((post parts e).0 ≡ (parts.recvmsg b e.world).0)
  post-refused e b fs bs ps h z =
      let c : is_zero (parts.recvmsg b e.world).0 ≡ false =
        neg-zero (parts.recvmsg b e.world).0 z in
      let r =
        post_buffer-free (free_taken e b) b fs bs ps (free_taken-Holds e b fs bs ps h)
          (first-Outside b fs bs ps h.apart) (free_taken-IsLoose e b) c in
      subst (λ p. Holds p.1 (b ∷ fs) bs ps × (p.0 ≡ (parts.recvmsg b e.world).0))
        (sym (post-some e b fs h.free))
        (r.0, ap (λ i. if is_neg i then i else pos 0) r.1 ∙ neg-kept (parts.recvmsg b e.world).0 z)

  -- Without a free buffer nothing changes.
  pub post-empty : (e : Ingress S) (bs ps : List ℕ) → Holds e [] bs ps → post parts e ≡ (eagain, e)
  unfolding post
  post-empty e bs ps h = rw (post, pop_free-none e h.free) refl

  post_all-step :
      (k b : ℕ) (ret : ℤ) (fs : List ℕ) (e : Ingress S)
      → e.free ≡ some b
      → (post_buffer parts (free_taken e b) b).0 ≡ pos 0
      → post_all parts (suc k) ret e
        ≡ post_all parts k (pos 0) (post_buffer parts (free_taken e b) b).1
  unfolding post_all
  post_all-step k b ret fs e h z = rw (post_all, pop_free-some e b fs h) (rw z refl)

  post_all-end :
      (k : ℕ) (ret : ℤ) (e : Ingress S) → e.free ≡ none → post_all parts k ret e ≡ (ret, e)
  unfolding post_all
  post_all-end zero ret e h = refl
  post_all-end (suc k) ret e h = rw (post_all, pop_free-none e h) refl

  -- What `post_all` returns when libfabric takes all buffers.
  abbrev pub set_if : List ℕ → ℤ → ℤ
  set_if [] ret = ret
  set_if (b ∷ fs) ret = pos 0

  pub set_if-zero : (fs : List ℕ) → set_if fs (pos 0) ≡ pos 0
  set_if-zero [] = refl
  set_if-zero (b ∷ fs) = refl

  -- With fuel for all free buffers, and if libfabric takes each of them, all become busy, and the result is
  -- 0, or the initial value of the variable if there was none.
  pub post_all-ready :
      (k : ℕ) (ret : ℤ) (e : Ingress S) (fs bs ps : List ℕ)
      → Holds e fs bs ps
      → length fs ≤ k
      → ((b : ℕ) (w : S) → is_zero (parts.recvmsg b w).0 ≡ true)
      → Holds (post_all parts k ret e).1 [] (onto fs bs) ps
        × ((post_all parts k ret e).0 ≡ set_if fs ret)
  post_all-ready k ret e [] bs ps h n a =
      subst (λ z. Holds z.1 [] bs ps × (z.0 ≡ ret)) (sym (post_all-end k ret e h.free)) (h, refl)
  post_all-ready zero ret e (b ∷ fs) bs ps h n a = absurd (omega (arith, n))
  post_all-ready (suc k) ret e (b ∷ fs) bs ps h n a =
      let f : ℤ × Ingress S = post_buffer parts (free_taken e b) b in
      let r =
        post_buffer-busy (free_taken e b) b fs bs ps (free_taken-Holds e b fs bs ps h)
          (first-Outside b fs bs ps h.apart) (a b e.world) in
      let s = post_all-ready k (pos 0) f.1 fs (b ∷ bs) ps r.0 (omega (arith, n)) a in
      subst (λ z. Holds z.1 [] (onto fs (b ∷ bs)) ps × (z.0 ≡ pos 0))
        (sym (post_all-step k b ret fs e h.free r.1)) (s.0, s.1 ∙ set_if-zero fs)
