-- ===== src/Ingress/Sound/Handing.antt =====
-- `nn_sofi_ingress_handle` and `nn_sofi_ingress_fetch` keep each receive buffer in one of the three lists.
use nanomsg_transport_ofi.Prelude.{
  count, ℕ, ◌+◌, ◌≡◌, none, some, some-injective, none-ne-some, List, [], ◌∷◌, ◌++◌, arith, refl,
  ap, subst, sym, ◌∙◌, if◌then◌else◌, length-append, update, inl, inr, Bool-cases,
}
use nanomsg_transport_ofi.Ingress.{
  Ingress, populated_taken, mark_free, mark_populated, pop_populated,
}
use nanomsg_transport_ofi.Ingress.Receiving.{
  Parts, Completion, handle, is_keepalive, Fetched, fetch, fetched, popped,
}
use nanomsg_transport_ofi.Ingress.Lists.{Holds-frame}
use nanomsg_transport_ofi.Ingress.Moves.{
  mark_free-busy, mark_populated-busy, populated_taken-IsLoose, pop_populated-some,
  pop_populated-none,
}
use nanomsg_transport_ofi.Ingress.Draining.{mark_free-rest, mark_populated-rest}
use nanomsg_transport_ofi.Ingress.Indices.{Each, Holds-unique, freed-Each, populated-Each}
use nanomsg_transport_ofi.Ingress.Flushing.{Whole}
use nanomsg_transport_ofi.Ingress.Delivering.{cleared-Holds}
use nanomsg_transport_ofi.Ingress.Sound.{
  IsSound, NamesBusy, flush_late-IsSound, post_late-IsSound, notify-IsSound, renotify-IsSound,
}

module _ {n : ℕ} {S : Type 0} (parts : Parts S) where
  -- A message or a keep-alive packet in a busy buffer: all are in the lists afterwards.
  pub handle-IsSound :
      (e : Ingress S) (c : Completion) → NamesBusy e c → IsSound n e → IsSound n (handle parts e c)
  unfolding handle
  handle-IsSound e c (fs, xs, ys, ps, h) s =
      let b = c.buf in
      let bs = xs ++ b ∷ ys in
      let m = s.size in
      let (qf, qb, qp) = Holds-unique e s.free s.busy s.populated fs bs ps s.whole.holds h.holds in
      let w : Each n fs bs ps =
        λ j. omega (arith, s.each j, ap (count j) qf, ap (count j) qb, ap (count j) qp) in
      let f : Ingress S = record e { ticks_in = 0 } in
      let g : Ingress S = record f {
        msg = update f.msg b (some (record { chunk = b; len = c.len }));
        refs = update f.refs b (f.refs b + 1);
      } in
      elim (Bool-cases (is_keepalive c)) [
        | inl k ↦ rw k (
            post_late-IsSound parts (mark_free f b) (record {
              free = b ∷ fs;
              busy = xs ++ ys;
              populated = ps;
              whole = record {
                holds = mark_free-busy f b fs xs ys ps (Holds-frame e f fs bs ps refl h.holds);
                all = omega (
                  arith,
                  h.all,
                  length-append xs (b ∷ ys),
                  length-append xs ys,
                  ap (λ z. z.0) (mark_free-rest f b),
                );
              };
              size = ap (λ z. z.0) (mark_free-rest f b) ∙ m;
              each = λ j. freed-Each n b fs xs ys ps w j;
            }))
        | inr k ↦ rw k (
            notify-IsSound parts (mark_populated g b) (record {
              free = fs;
              busy = xs ++ ys;
              populated = ps ++ b ∷ [];
              whole = record {
                holds = mark_populated-busy g b fs xs ys ps (Holds-frame e g fs bs ps refl h.holds);
                all = omega (
                  arith,
                  h.all,
                  length-append xs (b ∷ ys),
                  length-append xs ys,
                  length-append ps (b ∷ []),
                  ap (λ z. z.0) (mark_populated-rest g b),
                );
              };
              size = ap (λ z. z.0) (mark_populated-rest g b) ∙ m;
              each = λ j. populated-Each n b fs xs ys ps w j;
            }))
      ]

  popped-IsSound :
      (e : Ingress S) (b : ℕ) (fs bs ps : List ℕ)
      → Whole e fs bs (b ∷ ps)
      → e.max ≡ n
      → Each n fs bs (b ∷ ps)
      → IsSound n (popped parts (populated_taken e b) b).ingress
  popped-IsSound e b fs bs ps h y w =
      let t : Ingress S = record (populated_taken e b) { msg = update e.msg b none } in
      let k = populated_taken-IsLoose e b in
      let m : IsSound n (mark_free t b) = record {
        free = b ∷ fs;
        busy = bs;
        populated = ps;
        whole = record {
          holds = cleared-Holds parts e b fs bs ps h.holds;
          all = omega (arith, h.all, ap (λ z. z.0) (mark_free-rest t b));
        };
        size = ap (λ z. z.0) (mark_free-rest t b) ∙ y;
        each = λ j. ground (arith, w j);
      } in
      flush_late-IsSound _ (renotify-IsSound parts _ (post_late-IsSound parts _ m))

  fetched-IsSound :
      (e : Ingress S) (fs bs ps : List ℕ)
      → Whole e fs bs ps
      → e.max ≡ n
      → Each n fs bs ps
      → IsSound n (fetched parts e (pop_populated e)).ingress
  fetched-IsSound e fs bs [] h y w =
      subst (λ z. IsSound n (fetched parts e z).ingress)
        (sym (pop_populated-none e h.holds.pop_head))
        (record { free = fs; busy = bs; populated = []; whole = h; size = y; each = w })
  fetched-IsSound e fs bs (b ∷ ps) h y w =
      subst (λ z. IsSound n (fetched parts e z).ingress)
        (sym (pop_populated-some e b ps h.holds.pop_head)) (popped-IsSound e b fs bs ps h y w)

  -- When `fetch` returns, with a message or without one, all are in the lists afterwards.
  pub fetch-IsSound :
      (e : Ingress S) (r : Fetched S) → IsSound n e → fetch parts e ≡ some r → IsSound n r.ingress
  unfolding fetch
  fetch-IsSound e r h q = elim (Bool-cases e.nn_busy) [
    | inl k ↦
        subst (λ z. IsSound n z.ingress)
          (some-injective _ _
            (sym (ap (λ z. if z then some (fetched parts e (pop_populated e)) else none) k) ∙ q))
          (fetched-IsSound e h.free h.busy h.populated h.whole h.size h.each)
    | inr k ↦ absurd (
        none-ne-some r
          (sym (ap (λ z. if z then some (fetched parts e (pop_populated e)) else none) k) ∙ q))
  ]
