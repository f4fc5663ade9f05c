-- ===== src/Ingress/Flushing.antt =====
-- `nn_sofi_ingress_flush`, at once and put off.
use nanomsg_transport_ofi.Prelude.{
  ℕ, ◌+◌, ◌≡◌, true, false, List, [], arith, refl, ap, subst, sym, ◌∙◌, if◌then◌else◌, length,
}
use nanomsg_transport_ofi.Ingress.{Ingress, is_empty}
use nanomsg_transport_ofi.Ingress.Receiving.{
  flush_busy, flush_populated, flush, flush_all, flush_or_wait,
}
use nanomsg_transport_ofi.Ingress.Lists.{Holds, Holds-frame, lists}
use nanomsg_transport_ofi.Ingress.Draining.{
  onto, length-onto, rest, flush_busy-Holds, flush_populated-Holds,
}

module _ {S : Type 0} where
  -- Every buffer of the array is in one of the lists.
  pub record Whole (e : Ingress S) (fs bs ps : List ℕ) : Type 0 where
    pub holds : Holds e fs bs ps
    pub all : length fs + length bs + length ps ≡ e.max

  pub Whole-frame :
      (e f : Ingress S) (fs bs ps : List ℕ)
      → lists f ≡ lists e
      → f.max ≡ e.max
      → Whole e fs bs ps
      → Whole f fs bs ps
  Whole-frame e f fs bs ps q m h = record {
    holds = Holds-frame e f fs bs ps q h.holds;
    all = omega (arith, h.all, m);
  }

  pub is_empty-Holds : (e : Ingress S) (fs : List ℕ) → Holds e fs [] [] → is_empty e ≡ true
  unfolding is_empty
  is_empty-Holds e fs h = rw h.pop_head (rw h.busy refl)

  first_loop :
      (e : Ingress S) (fs bs ps : List ℕ)
      → Whole e fs bs ps
      → Whole (flush_busy e.max e) (onto bs fs) [] ps × (rest (flush_busy e.max e) ≡ rest e)
  first_loop e fs bs ps h =
      let r = flush_busy-Holds e.max e fs bs ps h.holds (omega (arith, h.all)) in
      (
        record { holds = r.0; all = omega (arith, h.all, length-onto bs fs, ap (λ z. z.0) r.1) },
        r.1,
      )

  -- While nanomsg is busy, a flush frees the posted buffers and puts the rest off.
  pub flush-waits :
      (e : Ingress S) (fs bs ps : List ℕ)
      → Whole e fs bs ps
      → e.nn_busy ≡ true
      → Whole (flush e) (onto bs fs) [] ps
        × ((flush e).flush_later ≡ true)
        × ((flush e).msg ≡ e.msg)
  unfolding flush
  flush-waits e fs bs ps h n =
      let r = first_loop e fs bs ps h in
      let f : Ingress S = flush_busy e.max e in
      let w : Ingress S = record f { flush_later = true } in
      let q : flush_or_wait f ≡ w =
        ap (λ z. if z then w else flush_all f) (ap (λ z. z.2) r.1 ∙ n) in
      subst (λ z. Whole z (onto bs fs) [] ps × (z.flush_later ≡ true) × (z.msg ≡ e.msg)) (sym q)
        (
          record { holds = Holds-frame f w (onto bs fs) [] ps refl r.0.holds; all = r.0.all },
          refl,
          ap (λ z. z.5) r.1,
        )

  -- If every buffer is in one of the lists and nanomsg is not busy, both loops end within as many rounds
  -- as there are buffers: every buffer is free, and nothing is put off any more.
  pub flush-drains :
      (e : Ingress S) (fs bs ps : List ℕ)
      → Whole e fs bs ps
      → e.nn_busy ≡ false
      → Whole (flush e) (onto ps (onto bs fs)) [] []
        × (is_empty (flush e) ≡ true)
        × ((flush e).post_later ≡ false)
        × ((flush e).nn_later ≡ false)
  unfolding flush
  flush-drains e fs bs ps h n =
      let r = first_loop e fs bs ps h in
      let f : Ingress S = flush_busy e.max e in
      let s = flush_populated-Holds f.max f (onto bs fs) [] ps r.0.holds (omega (arith, r.0.all)) in
      let g : Ingress S = flush_populated f.max f in
      let gs = onto ps (onto bs fs) in
      let k = Holds-frame g (flush_all f) gs [] [] refl s.0 in
      let q : flush_or_wait f ≡ flush_all f =
        ap (λ z. if z then record f { flush_later = true } else flush_all f)
          (ap (λ z. z.2) r.1 ∙ n) in
      subst
        (λ z.
          Whole z gs [] [] × (is_empty z ≡ true) × (z.post_later ≡ false) × (z.nn_later ≡ false))
        (sym q)
        (
          record {
            holds = k;
            all = omega (arith, r.0.all, length-onto ps (onto bs fs), ap (λ z. z.0) s.1);
          },
          is_empty-Holds (flush_all f) gs k,
          refl,
          refl,
        )
