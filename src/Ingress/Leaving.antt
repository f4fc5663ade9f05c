-- ===== src/Ingress/Leaving.antt =====
-- A buffer leaves the busy list, the free list, or the populated list.
use nanomsg_transport_ofi.Prelude.{
  is_some, ℕ, ◌+◌, ◌≤◌, ◌≡◌, true, false, Option, none, some, List, [], ◌∷◌, ◌++◌, arith, refl,
  count, ap, contains-head, first_of, last_of, subst, sym, ◌∙◌,
}
use nanomsg_transport_ofi.Links.{Linked-at}
use nanomsg_transport_ofi.Ingress.{Ingress, points_to, leave_busy}
use nanomsg_transport_ofi.Ingress.Pointers.{
  count-append, Sole-before, last_opt, shift_to, unlink_at, first-count,
}
use nanomsg_transport_ofi.Ingress.Linking.{
  shift_to-frame, unlink_at-frame, shift_to-Linked, unlink_at-Linked,
}
use nanomsg_transport_ofi.Ingress.Lists.{
  Apart, Outside, Holds, IsLoose, Sole-busy, Misses-first, Misses-last,
}

count-middle : (j b : ℕ) (xs ys : List ℕ) → count j (xs ++ b ∷ ys) ≡ count j xs + count j (b ∷ ys)
count-middle j b xs ys = count-append j xs (b ∷ ys)

count-here : (b : ℕ) (ys : List ℕ) → count b (b ∷ ys) ≡ 1 + count b ys
count-here b ys = ground arith

count-behind : (j b : ℕ) (ys : List ℕ) → count j ys ≤ count j (b ∷ ys)
count-behind j b ys = ground arith

-- The member `b` of the middle of the second list is nowhere else.
pub taken-Outside :
    (b : ℕ) (fs xs ys ps : List ℕ) → Apart fs (xs ++ b ∷ ys) ps → Outside b fs (xs ++ ys) ps
taken-Outside b fs xs ys ps a =
    omega (arith, a b, count-middle b b xs ys, count-here b ys, count-append b xs ys)

pub taken-Apart :
    (b : ℕ) (fs xs ys ps : List ℕ) → Apart fs (xs ++ b ∷ ys) ps → Apart fs (xs ++ ys) ps
taken-Apart b fs xs ys ps a j =
    omega (arith, a j, count-middle j b xs ys, count-behind j b ys, count-append j xs ys)

module _ {S : Type 0} where
  -- The two ways to leave the busy list.
  abbrev left_front : Ingress S → ℕ → Option ℕ → Ingress S
  left_front e b n = record e { busy = n; links = shift_to e.links b n }

  abbrev left_middle : Ingress S → ℕ → Option ℕ → Option ℕ → Ingress S
  left_middle e b n p = record e { links = unlink_at e.links b n p }

  leave_busy-front :
      (e : Ingress S) (b : ℕ)
      → points_to e.busy b ≡ true
      → leave_busy e b ≡ left_front e b (e.links.next b)
  unfolding leave_busy
  leave_busy-front e b h = rw h refl

  leave_busy-middle :
      (e : Ingress S) (b : ℕ)
      → points_to e.busy b ≡ false
      → is_some (e.links.prev b) ≡ true
      → leave_busy e b ≡ left_middle e b (e.links.next b) (e.links.prev b)
  unfolding leave_busy
  leave_busy-middle e b h k = rw h (rw k refl)

  -- A buffer that no list holds stays where it is.
  pub leave_busy-loose :
      (e : Ingress S) (b : ℕ) → points_to e.busy b ≡ false → IsLoose e b → leave_busy e b ≡ e
  unfolding leave_busy
  leave_busy-loose e b h k = rw h (rw k.prev (rw k.next refl))

  left_front-Holds :
      (e : Ingress S) (b : ℕ) (fs ys ps : List ℕ)
      → Holds e fs (b ∷ ys) ps
      → Holds (left_front e b (first_of ys)) fs ys ps
  left_front-Holds e b fs ys ps h =
      let a = taken-Apart b fs [] ys ps h.apart in
      let o = taken-Outside b fs [] ys ps h.apart in
      record {
        free = h.free;
        busy = refl;
        pop_head = h.pop_head;
        pop_tail = h.pop_tail;
        free_links =
            shift_to-frame e.links b (first_of ys) none fs h.free_links (omega (arith, o))
              (Misses-first ys fs (λ j. omega (arith, a j)));
        busy_links = shift_to-Linked e.links b ys h.busy_links (Sole-busy fs (b ∷ ys) ps h.apart);
        pop_links =
            shift_to-frame e.links b (first_of ys) none ps h.pop_links (omega (arith, o))
              (Misses-first ys ps (λ j. omega (arith, a j)));
        apart = a;
      }

  left_middle-Holds :
      (e : Ingress S) (b x : ℕ) (fs xs ys ps : List ℕ)
      → Holds e fs ((x ∷ xs) ++ b ∷ ys) ps
      → Holds (left_middle e b (first_of ys) (some (last_of x xs))) fs ((x ∷ xs) ++ ys) ps
  left_middle-Holds e b x fs xs ys ps h =
      let a = taken-Apart b fs (x ∷ xs) ys ps h.apart in
      let c = λ (j : ℕ). count-append j (x ∷ xs) ys in
      record {
        free = h.free;
        busy = h.busy;
        pop_head = h.pop_head;
        pop_tail = h.pop_tail;
        free_links =
            unlink_at-frame e.links b (first_of ys) (last_opt (x ∷ xs)) none fs h.free_links
              (Misses-first ys fs (λ j. omega (arith, a j, c j)))
              (Misses-last (x ∷ xs) fs (λ j. omega (arith, a j, c j)));
        busy_links =
            unlink_at-Linked e.links b x xs ys h.busy_links
              (Sole-busy fs ((x ∷ xs) ++ b ∷ ys) ps h.apart);
        pop_links =
            unlink_at-frame e.links b (first_of ys) (last_opt (x ∷ xs)) none ps h.pop_links
              (Misses-first ys ps (λ j. omega (arith, a j, c j)))
              (Misses-last (x ∷ xs) ps (λ j. omega (arith, a j, c j)));
        apart = a;
      }

  -- A busy buffer leaves its list, wherever it stands.
  pub leave_busy-Holds :
      (e : Ingress S) (b : ℕ) (fs xs ys ps : List ℕ)
      → Holds e fs (xs ++ b ∷ ys) ps
      → Holds (leave_busy e b) fs (xs ++ ys) ps
  leave_busy-Holds e b fs [] ys ps h =
      let q =
        leave_busy-front e b (subst (λ z. points_to z b ≡ true) (sym h.busy) (ground arith)) in
      subst (λ z. Holds z fs ys ps) (sym (q ∙ ap (left_front e b) h.busy_links.1))
        (left_front-Holds e b fs ys ps h)
  leave_busy-Holds e b fs (x ∷ xs) ys ps h =
      let k = Linked-at e.links x b none xs ys h.busy_links in
      let u = Sole-busy fs ((x ∷ xs) ++ b ∷ ys) ps h.apart in
      let m = Sole-before b (x ∷ xs) (b ∷ ys) u (contains-head b ys) in
      let q =
        leave_busy-middle e b
          (subst (λ z. points_to z b ≡ false) (sym h.busy) (first-count b (x ∷ xs) m))
          (ap is_some k.0) in
      subst (λ z. Holds z fs ((x ∷ xs) ++ ys) ps)
        (sym (
          q
          ∙ ap (left_middle e b (e.links.next b)) k.0
          ∙ ap (λ z. left_middle e b z (some (last_of x xs))) k.1))
        (left_middle-Holds e b x fs xs ys ps h)
