-- ===== src/Links/Loop.antt =====
-- The loops of `nn_sofi_init` (src/transports/ofi/sofi.c) that link the members of an array, and the
-- sequence that they build.
use nanomsg_transport_ofi.Prelude.{
  leb, ltb, ◌&&◌, if◌then◌else◌, ℕ, zero, suc, ◌+◌, ◌-◌, ◌≤◌, ◌<◌, ◌≡◌, ltb, ◌==◌, ◌&&◌, Option,
  none, some, List, [], ◌∷◌, refl, ap, subst, ◌∙◌, arith, update, if◌then◌else◌, first_of, last_of,
  count, length, Bool-cases, inl, inr,
}
use nanomsg_transport_ofi.Links.{Links, Linked}

-- After `memset` to 0.
abbrev pub no_links : Links
no_links = record { next = λ j. none; prev = λ j. none }

-- `if (i > 0) a[i-1].next = &a[i];`
abbrev pub link_next : ℕ → Links → Links
link_next i l = if ltb 0 i then record l { next = update l.next (i - 1) (some i) } else l

-- `if (i < n-1) a[i+1].prev = &a[i];`
abbrev pub link_prev : ℕ → ℕ → Links → Links
link_prev n i l = if ltb (i + 1) n then record l { prev = update l.prev (i + 1) (some i) } else l

-- The rounds of the loop from `i` on, of which `k` are left.
unfoldable pub link_from : ℕ → ℕ → ℕ → Links → Links
link_from zero n i l = l
link_from (suc k) n i l = link_from k n (i + 1) (link_prev n i (link_next i l))

-- The pointers before round `i`.
record IsLinkedTo (n i : ℕ) (l : Links) : Type 0 where
  next : (j : ℕ) → l.next j ≡ (if ltb (j + 1) i then some (j + 1) else none)
  prev : (j : ℕ) → l.prev j ≡ (if ltb 0 j && ltb j n && ltb j (i + 1) then some (j - 1) else none)

linked-none : (n : ℕ) → IsLinkedTo n 0 no_links
linked-none n = record { next = λ j. ground arith; prev = λ j. ground arith }

next-step :
    (i j : ℕ) (l : Links)
    → l.next j ≡ (if ltb (j + 1) i then some (j + 1) else none)
    → (link_next i l).next j ≡ (if ltb (j + 1) (i + 1) then some (j + 1) else none)
next-step i j l h = ground (arith, h)

prev-same : (i j : ℕ) (l : Links) → (link_next i l).prev j ≡ l.prev j
prev-same i j l = ground arith

next-same : (n i j : ℕ) (l : Links) → (link_prev n i l).next j ≡ l.next j
next-same n i j l = ground arith

prev-step :
    (n i j : ℕ) (l : Links)
    → l.prev j ≡ (if ltb 0 j && ltb j n && ltb j (i + 1) then some (j - 1) else none)
    → (link_prev n i l).prev j
      ≡ (if ltb 0 j && ltb j n && ltb j (i + 1 + 1) then some (j - 1) else none)
prev-step n i j l h = ground (arith, h)

linked-from : (k n i : ℕ) (l : Links) → IsLinkedTo n i l → IsLinkedTo n (i + k) (link_from k n i l)
unfolding link_from
linked-from zero n i l h = subst (λ z. IsLinkedTo n z l) (omega arith) h
linked-from (suc k) n i l h =
    let m = link_next i l in
    let r = linked-from k n (i + 1) (link_prev n i m) (record {
      next = λ j. next-same n i j m ∙ next-step i j l (h.next j);
      prev = λ j. prev-step n i j m (prev-same i j l ∙ h.prev j);
    }) in
    subst (λ z. IsLinkedTo n z (link_from k n (i + 1) (link_prev n i m))) (omega arith) r

-- The members from `a` on, `k` of them.
abbrev pub from : ℕ → ℕ → List ℕ
from a zero = []
from a (suc k) = a ∷ from (a + 1) k

pub length-from : (a k : ℕ) → length (from a k) ≡ k
length-from a zero = refl
length-from a (suc k) = ap suc (length-from (a + 1) k)

count-below : (j a k : ℕ) → j < a → count j (from a k) ≡ 0
count-below j a zero h = refl
count-below j a (suc k) h = ground (arith, h, count-below j (a + 1) k (omega (arith, h)))

-- The sequence holds each number from `a` to `a + k - 1` once, and no other.
pub count-each : (j a k : ℕ) → count j (from a k) ≡ (if leb a j && ltb j (a + k) then 1 else 0)
count-each j a zero = ground arith
count-each j a (suc k) = ground (arith, count-each j (a + 1) k)

pub count-from : (j a k : ℕ) → count j (from a k) ≤ 1
count-from j a zero = omega arith
count-from j a (suc k) = elim (Bool-cases (a == j)) [
  | inl e ↦ ground (arith, e, count-below j (a + 1) k (ground (arith, e)))
  | inr e ↦ ground (arith, e, count-from j (a + 1) k)
]

prev-of :
    (n a k : ℕ) (p : Option ℕ) (l : Links)
    → l.prev a ≡ (if ltb 0 a && ltb a n && ltb a (n + 1) then some (a - 1) else none)
    → a + suc k ≡ n
    → p ≡ (if ltb 0 a then some (a - 1) else none)
    → l.prev a ≡ p
prev-of n a k p l h e q = ground (arith, h, e, q)

next-of :
    (n a k : ℕ) (l : Links)
    → l.next a ≡ (if ltb (a + 1) n then some (a + 1) else none)
    → a + suc k ≡ n
    → l.next a ≡ first_of (from (a + 1) k)
next-of n a zero l h e = ground (arith, h, e)
next-of n a (suc k) l h e = ground (arith, h, e)

linked-at :
    (n a k : ℕ) (p : Option ℕ) (l : Links)
    → IsLinkedTo n n l
    → a + k ≡ n
    → p ≡ (if ltb 0 a then some (a - 1) else none)
    → Linked l p (from a k)
linked-at n a zero p l h e q = refl
linked-at n a (suc k) p l h e q = (
  prev-of n a k p l (h.prev a) e q,
  next-of n a k l (h.next a) e,
  linked-at n (a + 1) k (some a) l h (omega (arith, e)) (ground arith),
)

-- The loop over an array of `n` members links them in the order of their indices.
pub link_from-Linked : (n : ℕ) → Linked (link_from n n 0 no_links) none (from 0 n)
link_from-Linked n =
    linked-at n 0 n none (link_from n n 0 no_links)
      (subst (λ z. IsLinkedTo n z (link_from n n 0 no_links)) (omega arith)
        (linked-from n n 0 no_links (linked-none n)))
      (omega arith) refl

pub last-from : (a k : ℕ) → last_of a (from (a + 1) k) ≡ a + k
last-from a zero = omega arith
last-from a (suc k) = last-from (a + 1) k ∙ (omega arith)
