-- ===== src/Ingress/Moves.antt =====
-- Each change of a buffer's state moves it from one of the three sequences to another.
use nanomsg_transport_ofi.Prelude.{
  is_some, ℕ, ◌+◌, ◌≤◌, ◌≡◌, false, Option, none, some, List, [], ◌∷◌, ◌++◌, arith, refl, count,
  first_of, subst, sym, if◌then◌else◌,
}
use nanomsg_transport_ofi.Links.{Links}
use nanomsg_transport_ofi.Ingress.{
  Ingress, points_to, leave_busy, enter_free, mark_free, mark_populated, pop_free, pop_populated,
  free_taken, populated_taken,
}
use nanomsg_transport_ofi.Ingress.Pointers.{last_opt, shift_to, first-count}
use nanomsg_transport_ofi.Ingress.Linking.{shift_to-frame, shift_to-Linked}
use nanomsg_transport_ofi.Ingress.Lists.{
  Apart, Outside, Holds, IsLoose, Sole-free, Sole-populated, Misses-first, enter_free-Holds,
  enter_populated-Holds,
}
use nanomsg_transport_ofi.Ingress.Leaving.{leave_busy-Holds, leave_busy-loose, taken-Outside}

count-here : (b : ℕ) (ys : List ℕ) → count b (b ∷ ys) ≡ 1 + count b ys
count-here b ys = ground arith

count-behind : (j b : ℕ) (ys : List ℕ) → count j ys ≤ count j (b ∷ ys)
count-behind j b ys = ground arith

shift_to-loose :
    (l : Links) (b : ℕ) (n : Option ℕ)
    → ((shift_to l b n).prev b ≡ none) × ((shift_to l b n).next b ≡ none)
shift_to-loose l b none = (ground arith, ground arith)
shift_to-loose l b (some n) = (ground arith, ground arith)

pub first-Outside : (b : ℕ) (fs bs ps : List ℕ) → Apart (b ∷ fs) bs ps → Outside b fs bs ps
first-Outside b fs bs ps a = omega (arith, a b, count-here b fs)

first-Apart : (b : ℕ) (fs bs ps : List ℕ) → Apart (b ∷ fs) bs ps → Apart fs bs ps
first-Apart b fs bs ps a j = omega (arith, a j, count-behind j b fs)

pub head-Outside : (b : ℕ) (fs bs ps : List ℕ) → Apart fs bs (b ∷ ps) → Outside b fs bs ps
head-Outside b fs bs ps a = omega (arith, a b, count-here b ps)

head-Apart : (b : ℕ) (fs bs ps : List ℕ) → Apart fs bs (b ∷ ps) → Apart fs bs ps
head-Apart b fs bs ps a j = omega (arith, a j, count-behind j b ps)

tail_or-last :
    (b : ℕ) (ps : List ℕ) (t : Option ℕ)
    → t ≡ last_opt (b ∷ ps)
    → (if is_some (first_of ps) then t else none) ≡ last_opt ps
tail_or-last b [] t h = refl
tail_or-last b (p ∷ ps) t h = h

module _ {S : Type 0} where
  abbrev free_taken_to : Ingress S → ℕ → Option ℕ → Ingress S
  free_taken_to e b n = record e { free = n; links = shift_to e.links b n }

  abbrev populated_taken_to : Ingress S → ℕ → Option ℕ → Ingress S
  populated_taken_to e b n = record e {
    pop_head = n;
    pop_tail = if is_some n then e.pop_tail else none;
    links = shift_to e.links b n;
  }

  -- The first free buffer is taken off its list.
  pub free_taken-Holds :
      (e : Ingress S) (b : ℕ) (fs bs ps : List ℕ)
      → Holds e (b ∷ fs) bs ps
      → Holds (free_taken e b) fs bs ps
  free_taken-Holds e b fs bs ps h =
      let a = first-Apart b fs bs ps h.apart in
      let o = first-Outside b fs bs ps h.apart in
      let k : Holds (free_taken_to e b (first_of fs)) fs bs ps = record {
        free = refl;
        busy = h.busy;
        pop_head = h.pop_head;
        pop_tail = h.pop_tail;
        free_links = shift_to-Linked e.links b fs h.free_links (Sole-free (b ∷ fs) bs ps h.apart);
        busy_links =
            shift_to-frame e.links b (first_of fs) none bs h.busy_links (omega (arith, o))
              (Misses-first fs bs (λ j. omega (arith, a j)));
        pop_links =
            shift_to-frame e.links b (first_of fs) none ps h.pop_links (omega (arith, o))
              (Misses-first fs ps (λ j. omega (arith, a j)));
        apart = a;
      } in
      subst (λ z. Holds (free_taken_to e b z) fs bs ps) (sym h.free_links.1) k

  pub free_taken-IsLoose : (e : Ingress S) (b : ℕ) → IsLoose (free_taken e b) b
  free_taken-IsLoose e b =
      let k = shift_to-loose e.links b (e.links.next b) in record { prev = k.0; next = k.1 }

  -- The first populated buffer is taken off its list.
  pub populated_taken-Holds :
      (e : Ingress S) (b : ℕ) (fs bs ps : List ℕ)
      → Holds e fs bs (b ∷ ps)
      → Holds (populated_taken e b) fs bs ps
  populated_taken-Holds e b fs bs ps h =
      let a = head-Apart b fs bs ps h.apart in
      let o = head-Outside b fs bs ps h.apart in
      let k : Holds (populated_taken_to e b (first_of ps)) fs bs ps = record {
        free = h.free;
        busy = h.busy;
        pop_head = refl;
        pop_tail = tail_or-last b ps e.pop_tail h.pop_tail;
        free_links =
            shift_to-frame e.links b (first_of ps) none fs h.free_links (omega (arith, o))
              (Misses-first ps fs (λ j. omega (arith, a j)));
        busy_links =
            shift_to-frame e.links b (first_of ps) none bs h.busy_links (omega (arith, o))
              (Misses-first ps bs (λ j. omega (arith, a j)));
        pop_links =
            shift_to-Linked e.links b ps h.pop_links (Sole-populated fs bs (b ∷ ps) h.apart);
        apart = a;
      } in
      subst (λ z. Holds (populated_taken_to e b z) fs bs ps) (sym h.pop_links.1) k

  pub populated_taken-IsLoose : (e : Ingress S) (b : ℕ) → IsLoose (populated_taken e b) b
  populated_taken-IsLoose e b =
      let k = shift_to-loose e.links b (e.links.next b) in record { prev = k.0; next = k.1 }

  pub pop_free-some :
      (e : Ingress S) (b : ℕ) (fs : List ℕ)
      → e.free ≡ first_of (b ∷ fs)
      → pop_free e ≡ some (b, free_taken e b)
  unfolding pop_free
  pop_free-some e b fs h = rw h refl

  pub pop_free-none : (e : Ingress S) → e.free ≡ none → pop_free e ≡ none
  unfolding pop_free
  pop_free-none e h = rw h refl

  pub pop_populated-some :
      (e : Ingress S) (b : ℕ) (ps : List ℕ)
      → e.pop_head ≡ first_of (b ∷ ps)
      → pop_populated e ≡ some (b, populated_taken e b)
  unfolding pop_populated
  pop_populated-some e b ps h = rw h refl

  pub pop_populated-none : (e : Ingress S) → e.pop_head ≡ none → pop_populated e ≡ none
  unfolding pop_populated
  pop_populated-none e h = rw h refl

  -- A busy buffer becomes the first free one.
  pub mark_free-busy :
      (e : Ingress S) (b : ℕ) (fs xs ys ps : List ℕ)
      → Holds e fs (xs ++ b ∷ ys) ps
      → Holds (mark_free e b) (b ∷ fs) (xs ++ ys) ps
  unfolding mark_free
  mark_free-busy e b fs xs ys ps h =
      enter_free-Holds (leave_busy e b) b fs (xs ++ ys) ps (leave_busy-Holds e b fs xs ys ps h)
        (taken-Outside b fs xs ys ps h.apart)

  -- A busy buffer becomes the last populated one.
  pub mark_populated-busy :
      (e : Ingress S) (b : ℕ) (fs xs ys ps : List ℕ)
      → Holds e fs (xs ++ b ∷ ys) ps
      → Holds (mark_populated e b) fs (xs ++ ys) (ps ++ b ∷ [])
  unfolding mark_populated
  mark_populated-busy e b fs xs ys ps h =
      enter_populated-Holds (leave_busy e b) b fs (xs ++ ys) ps (leave_busy-Holds e b fs xs ys ps h)
        (taken-Outside b fs xs ys ps h.apart)

  -- A buffer in no list becomes the first free one.
  pub mark_free-loose :
      (e : Ingress S) (b : ℕ) (fs bs ps : List ℕ)
      → Holds e fs bs ps
      → Outside b fs bs ps
      → IsLoose e b
      → Holds (mark_free e b) (b ∷ fs) bs ps
  unfolding mark_free
  mark_free-loose e b fs bs ps h o k =
      let q =
        leave_busy-loose e b
          (subst (λ z. points_to z b ≡ false) (sym h.busy) (first-count b bs (omega (arith, o))))
          k in
      subst (λ z. Holds (enter_free z b) (b ∷ fs) bs ps) (sym q) (enter_free-Holds e b fs bs ps h o)
