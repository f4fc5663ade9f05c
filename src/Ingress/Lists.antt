-- ===== src/Ingress/Lists.antt =====
-- The three lists of buffers as sequences: what each change of a buffer's state does to them.
use nanomsg_transport_ofi.Prelude.{
  ℕ, ◌+◌, ◌≤◌, ◌≡◌, Option, none, some, List, [], ◌∷◌, ◌++◌, arith, refl, count, ap, first_of,
  last_of-snoc, count-snoc, Bool-cases, inl, inr, ◌==◌, subst, sym, ◌∙◌,
}
use nanomsg_transport_ofi.Links.{Links, Linked}
use nanomsg_transport_ofi.Ingress.{
  Ingress, unshift, append, enter_free, enter_populated, mark_busy, head_or,
}
use nanomsg_transport_ofi.Ingress.Pointers.{count-pos, Sole, first-count, last_opt, last-count}
use nanomsg_transport_ofi.Ingress.Linking.{
  Misses, unshift-frame, append-frame, unshift-Linked, append-Linked,
}

-- No buffer stands twice in the three lists.
abbrev pub Apart : List ℕ → List ℕ → List ℕ → Type 0
Apart fs bs ps = (j : ℕ) → count j fs + count j bs + count j ps ≤ 1

-- Buffer `b` stands in none of them.
abbrev pub Outside : ℕ → List ℕ → List ℕ → List ℕ → Type 0
Outside b fs bs ps = count b fs + count b bs + count b ps ≡ 0

module _ {S : Type 0} where
  -- The pointers represent the free buffers `fs`, the busy ones `bs`, and the populated ones `ps`.
  pub record Holds (e : Ingress S) (fs bs ps : List ℕ) : Type 0 where
    pub free : e.free ≡ first_of fs
    pub busy : e.busy ≡ first_of bs
    pub pop_head : e.pop_head ≡ first_of ps
    pub pop_tail : e.pop_tail ≡ last_opt ps
    pub free_links : Linked e.links none fs
    pub busy_links : Linked e.links none bs
    pub pop_links : Linked e.links none ps
    pub apart : Apart fs bs ps

  -- A buffer with no neighbours.
  pub record IsLoose (e : Ingress S) (b : ℕ) : Type 0 where
    pub prev : e.links.prev b ≡ none
    pub next : e.links.next b ≡ none

  -- The fields that the pointers are.
  abbrev pub lists : Ingress S → Links × Option ℕ × Option ℕ × Option ℕ × Option ℕ
  lists e = (e.links, e.free, e.busy, e.pop_head, e.pop_tail)

  pub Holds-frame :
      (e f : Ingress S) (fs bs ps : List ℕ)
      → lists f ≡ lists e
      → Holds e fs bs ps
      → Holds f fs bs ps
  Holds-frame e f fs bs ps q h = record {
    free = ap (λ z. z.1) q ∙ h.free;
    busy = ap (λ z. z.2) q ∙ h.busy;
    pop_head = ap (λ z. z.3) q ∙ h.pop_head;
    pop_tail = ap (λ z. z.4) q ∙ h.pop_tail;
    free_links = subst (λ z. Linked z none fs) (sym (ap (λ z. z.0) q)) h.free_links;
    busy_links = subst (λ z. Linked z none bs) (sym (ap (λ z. z.0) q)) h.busy_links;
    pop_links = subst (λ z. Linked z none ps) (sym (ap (λ z. z.0) q)) h.pop_links;
    apart = h.apart;
  }

-- What `Apart` gives for each list.
pub Sole-free : (fs bs ps : List ℕ) → Apart fs bs ps → Sole fs
Sole-free fs bs ps a j = omega (arith, a j)

pub Sole-busy : (fs bs ps : List ℕ) → Apart fs bs ps → Sole bs
Sole-busy fs bs ps a j = omega (arith, a j)

pub Sole-populated : (fs bs ps : List ℕ) → Apart fs bs ps → Sole ps
Sole-populated fs bs ps a j = omega (arith, a j)

pub Misses-first :
    (xs ys : List ℕ) → ((j : ℕ) → count j xs + count j ys ≤ 1) → Misses (first_of xs) ys
Misses-first xs ys a j i = first-count j xs (omega (arith, a j, count-pos j ys i))

pub Misses-last :
    (xs ys : List ℕ) → ((j : ℕ) → count j xs + count j ys ≤ 1) → Misses (last_opt xs) ys
Misses-last xs ys a j i = last-count j xs (omega (arith, a j, count-pos j ys i))

last_opt-snoc : (b : ℕ) (xs : List ℕ) → last_opt (xs ++ b ∷ []) ≡ some b
last_opt-snoc b [] = refl
last_opt-snoc b (x ∷ xs) = ap some (last_of-snoc b x xs)

head_or-first :
    (b : ℕ) (xs : List ℕ) (head : Option ℕ)
    → head ≡ first_of xs
    → head_or head (last_opt xs) b ≡ first_of (xs ++ b ∷ [])
head_or-first b [] head h = refl
head_or-first b (x ∷ xs) head h = h

-- A bound on the members `xs` and `k` others holds for `b ∷ xs` where `b` is none of them.
count-more :
    (j b k m : ℕ) (xs : List ℕ)
    → count j xs + k ≤ 1
    → count b xs + m ≡ 0
    → (b ≡ j → k ≡ m)
    → count j (b ∷ xs) + k ≤ 1
count-more j b k m xs a o c = elim (Bool-cases (b == j)) [
  | inl e ↦
      let q : b ≡ j = ground (arith, e) in
      rw e (omega (arith, a, c q, subst (λ z. count z xs + m ≡ 0) q o))
  | inr e ↦ rw e a
]

Apart-free :
    (b : ℕ) (fs bs ps : List ℕ) → Apart fs bs ps → Outside b fs bs ps → Apart (b ∷ fs) bs ps
Apart-free b fs bs ps a o j =
    let c =
      count-more j b (count j bs + count j ps) (count b bs + count b ps) fs (omega (arith, a j))
        (omega (arith, o)) (λ q. ap (λ z. count z bs + count z ps) (sym q)) in
    omega (arith, c)

Apart-busy :
    (b : ℕ) (fs bs ps : List ℕ) → Apart fs bs ps → Outside b fs bs ps → Apart fs (b ∷ bs) ps
Apart-busy b fs bs ps a o j =
    let c =
      count-more j b (count j fs + count j ps) (count b fs + count b ps) bs (omega (arith, a j))
        (omega (arith, o)) (λ q. ap (λ z. count z fs + count z ps) (sym q)) in
    omega (arith, c)

Apart-populated :
    (b : ℕ) (fs bs ps : List ℕ) → Apart fs bs ps → Outside b fs bs ps → Apart fs bs (ps ++ b ∷ [])
Apart-populated b fs bs ps a o j =
    let c =
      count-more j b (count j fs + count j bs) (count b fs + count b bs) ps (omega (arith, a j))
        (omega (arith, o)) (λ q. ap (λ z. count z fs + count z bs) (sym q)) in
    omega (arith, c, count-snoc j b ps)

module _ {S : Type 0} (e : Ingress S) (b : ℕ) (fs bs ps : List ℕ) (h : Holds e fs bs ps)
    (o : Outside b fs bs ps) where
  -- A buffer outside the lists becomes the first free one.
  pub enter_free-Holds : Holds (enter_free e b) (b ∷ fs) bs ps
  unfolding enter_free
  enter_free-Holds = record {
    free = refl;
    busy = h.busy;
    pop_head = h.pop_head;
    pop_tail = h.pop_tail;
    free_links =
        subst (λ z. Linked (unshift e.links z b) none (b ∷ fs)) (sym h.free)
          (unshift-Linked e.links b fs h.free_links (omega (arith, o))
            (Sole-free fs bs ps h.apart));
    busy_links =
        subst (λ z. Linked (unshift e.links z b) none bs) (sym h.free)
          (unshift-frame e.links b (first_of fs) none bs h.busy_links (omega (arith, o))
            (Misses-first fs bs (λ j. omega (arith, h.apart j))));
    pop_links =
        subst (λ z. Linked (unshift e.links z b) none ps) (sym h.free)
          (unshift-frame e.links b (first_of fs) none ps h.pop_links (omega (arith, o))
            (Misses-first fs ps (λ j. omega (arith, h.apart j))));
    apart = Apart-free b fs bs ps h.apart o;
  }

  -- Or the first busy one.
  pub mark_busy-Holds : Holds (mark_busy e b) fs (b ∷ bs) ps
  unfolding mark_busy
  mark_busy-Holds = record {
    free = h.free;
    busy = refl;
    pop_head = h.pop_head;
    pop_tail = h.pop_tail;
    free_links =
        subst (λ z. Linked (unshift e.links z b) none fs) (sym h.busy)
          (unshift-frame e.links b (first_of bs) none fs h.free_links (omega (arith, o))
            (Misses-first bs fs (λ j. omega (arith, h.apart j))));
    busy_links =
        subst (λ z. Linked (unshift e.links z b) none (b ∷ bs)) (sym h.busy)
          (unshift-Linked e.links b bs h.busy_links (omega (arith, o))
            (Sole-busy fs bs ps h.apart));
    pop_links =
        subst (λ z. Linked (unshift e.links z b) none ps) (sym h.busy)
          (unshift-frame e.links b (first_of bs) none ps h.pop_links (omega (arith, o))
            (Misses-first bs ps (λ j. omega (arith, h.apart j))));
    apart = Apart-busy b fs bs ps h.apart o;
  }

  -- Or the last populated one.
  pub enter_populated-Holds : Holds (enter_populated e b) fs bs (ps ++ b ∷ [])
  unfolding enter_populated
  enter_populated-Holds = record {
    free = h.free;
    busy = h.busy;
    pop_head =
        subst (λ z. head_or e.pop_head z b ≡ first_of (ps ++ b ∷ [])) (sym h.pop_tail)
          (head_or-first b ps e.pop_head h.pop_head);
    pop_tail = sym (last_opt-snoc b ps);
    free_links =
        subst (λ z. Linked (append e.links z b) none fs) (sym h.pop_tail)
          (append-frame e.links b (last_opt ps) none fs h.free_links (omega (arith, o))
            (Misses-last ps fs (λ j. omega (arith, h.apart j))));
    busy_links =
        subst (λ z. Linked (append e.links z b) none bs) (sym h.pop_tail)
          (append-frame e.links b (last_opt ps) none bs h.busy_links (omega (arith, o))
            (Misses-last ps bs (λ j. omega (arith, h.apart j))));
    pop_links =
        subst (λ z. Linked (append e.links z b) none (ps ++ b ∷ [])) (sym h.pop_tail)
          (append-Linked e.links b ps h.pop_links (omega (arith, o))
            (Sole-populated fs bs ps h.apart));
    apart = Apart-populated b fs bs ps h.apart o;
  }
