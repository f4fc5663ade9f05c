-- ===== src/Ingress.antt =====
-- The receive buffers of a streaming endpoint (src/transports/ofi/sofi.c), which are the indices of
-- `ingress_buffers`: three doubly linked
-- lists of buffers that are free, posted to libfabric (busy), and filled with a message (populated).
pub mod Receiving
pub mod Pointers
pub mod Linking
pub mod Lists
pub mod Indices
pub mod Leaving
pub mod Moves
pub mod Draining
pub mod Flushing
pub mod Posting
pub mod Delivering
pub mod Start
pub mod Sound
use nanomsg_transport_ofi.Links.{Links}
use nanomsg_transport_ofi.Prelude.{
  is_some, ℕ, ◌==◌, Bool, true, false, ◌&&◌, ◌||◌, Option, none, some, update, if◌then◌else◌,
}

-- A message refers to the chunk of a buffer, and has a length.
pub record Message : Type 0 where
  pub chunk : ℕ
  pub len : ℕ

-- The fields of `struct nn_sofi` for receiving, with a flag for each bit of `ingress_flags`.
-- `refs` counts the references to a buffer's chunk.
pub record Ingress (S : Type 0) : Type 0 where
  pub links : Links
  pub free : Option ℕ
  pub busy : Option ℕ
  pub pop_head : Option ℕ
  pub pop_tail : Option ℕ
  pub max : ℕ
  pub post_later : Bool
  pub nn_busy : Bool
  pub nn_later : Bool
  pub flush_later : Bool
  pub msg : ℕ → Option Message
  pub refs : ℕ → ℕ
  pub ticks_in : ℕ
  pub world : S

abbrev pub points_to : Option ℕ → ℕ → Bool
points_to none b = false
points_to (some a) b = a == b

-- `buf->next = NULL; buf->prev = NULL;`
abbrev pub detach : Links → ℕ → Links
detach l b = record { next = update l.next b none; prev = update l.prev b none }

-- `if (head) head->prev = NULL;`
abbrev pub end_front : Links → Option ℕ → Links
end_front l none = l
end_front l (some h) = record l { prev = update l.prev h none }

-- Takes the first buffer `b` off a list.
abbrev pub shift : Links → ℕ → Links
shift l b = detach (end_front l (l.next b)) b

-- Puts `b` in front of a list.
abbrev pub unshift : Links → Option ℕ → ℕ → Links
unshift l none b = detach l b
unshift l (some h) b = record {
  next = update l.next b (some h);
  prev = update (update l.prev h (some b)) b none;
}

-- Puts `b` behind the last buffer of a list.
abbrev pub append : Links → Option ℕ → ℕ → Links
append l none b = detach l b
append l (some t) b = record {
  prev = update l.prev b (some t);
  next = update (update l.next t (some b)) b none;
}

-- `if (buf->next) buf->next->prev = buf->prev;`
abbrev pub skip_back : Links → Option ℕ → Option ℕ → Links
skip_back l none p = l
skip_back l (some n) p = record l { prev = update l.prev n p }

-- `if (buf->prev) buf->prev->next = buf->next;`
abbrev pub skip_ahead : Links → Option ℕ → Option ℕ → Links
skip_ahead l n none = l
skip_ahead l n (some p) = record l { next = update l.next p n }

-- Takes `b` out of the middle of a list.
abbrev pub unlink : Links → ℕ → Links
unlink l b = skip_ahead (skip_back l (l.next b) (l.prev b)) (l.next b) (l.prev b)

-- The head of the populated list after `b` was put behind its tail.
abbrev pub head_or : Option ℕ → Option ℕ → ℕ → Option ℕ
head_or head none b = some b
head_or head (some t) b = head

module _ {S : Type 0} where
  -- `nn_sofi_ingress_empty`
  unfoldable pub is_empty : Ingress S → Bool
  is_empty e = if is_some e.pop_head then false else if is_some e.busy then false else true

  -- The first half of `nn_sofi_ingress_mark_free` and of `nn_sofi_ingress_mark_populated`.
  unfoldable pub leave_busy : Ingress S → ℕ → Ingress S
  leave_busy e b =
      if points_to e.busy b
      then record e { busy = e.links.next b; links = shift e.links b }
      else if is_some (e.links.prev b) || is_some (e.links.next b)
      then record e { links = unlink e.links b }
      else e

  unfoldable pub enter_free : Ingress S → ℕ → Ingress S
  enter_free e b = record e { links = unshift e.links e.free b; free = some b }

  -- `nn_sofi_ingress_mark_free`
  unfoldable pub mark_free : Ingress S → ℕ → Ingress S
  unfolding leave_busy enter_free
  mark_free e b = enter_free (leave_busy e b) b

  -- `nn_sofi_ingress_mark_busy`
  unfoldable pub mark_busy : Ingress S → ℕ → Ingress S
  mark_busy e b = record e { links = unshift e.links e.busy b; busy = some b }

  -- The second half of `nn_sofi_ingress_mark_populated`.
  unfoldable pub enter_populated : Ingress S → ℕ → Ingress S
  enter_populated e b = record e {
    links = append e.links e.pop_tail b;
    pop_head = head_or e.pop_head e.pop_tail b;
    pop_tail = some b;
  }

  -- `nn_sofi_ingress_mark_populated`
  unfoldable pub mark_populated : Ingress S → ℕ → Ingress S
  unfolding leave_busy enter_populated
  mark_populated e b = enter_populated (leave_busy e b) b

  abbrev pub free_taken : Ingress S → ℕ → Ingress S
  free_taken e b = record e { free = e.links.next b; links = shift e.links b }

  -- `nn_sofi_ingress_pop_free`: `none` stands for -EAGAIN.
  unfoldable pub pop_free : Ingress S → Option (ℕ × Ingress S)
  pop_free e = elim e.free [ none ↦ none | some b ↦ some (b, free_taken e b) ]

  abbrev pub populated_taken : Ingress S → ℕ → Ingress S
  populated_taken e b = record e {
    pop_head = e.links.next b;
    pop_tail = if is_some (e.links.next b) then e.pop_tail else none;
    links = shift e.links b;
  }

  -- `nn_sofi_ingress_pop_populated`: `none` stands for -EAGAIN.
  unfoldable pub pop_populated : Ingress S → Option (ℕ × Ingress S)
  pop_populated e = elim e.pop_head [ none ↦ none | some b ↦ some (b, populated_taken e b) ]
