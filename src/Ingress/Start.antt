-- ===== src/Ingress/Start.antt =====
-- The receive buffers after `nn_sofi_init`: all are free.
use nanomsg_transport_ofi.Prelude.{
  ℕ, suc, ltb, if◌then◌else◌, ◌+◌, ◌≡◌, count, false, none, some, [], refl, arith,
}
use nanomsg_transport_ofi.Links.Loop.{
  no_links, link_from, from, length-from, count-from, count-each, link_from-Linked,
}
use nanomsg_transport_ofi.Ingress.{Ingress}
use nanomsg_transport_ofi.Ingress.Flushing.{Whole}

-- The sequence from 0 holds each number below `n` once, and no other.
pub start-each : (n j : ℕ) → count j (from 0 n) + 0 + 0 ≡ (if ltb j n then 1 else 0)
start-each n j = ground (arith, count-each j 0 n)

module _ {S : Type 0} where
  -- The part of `nn_sofi_init` for `n` buffers, with one reference to each chunk.
  unfoldable pub start : ℕ → S → Ingress S
  start n w = record {
    links = link_from n n 0 no_links;
    free = some 0;
    busy = none;
    pop_head = none;
    pop_tail = none;
    max = n;
    post_later = false;
    nn_busy = false;
    nn_later = false;
    flush_later = false;
    msg = λ b. none;
    refs = λ b. 1;
    ticks_in = 0;
    world = w;
  }

  -- With at least one buffer, the buffers are all free, in the order of their indices.
  pub start-Whole : (n : ℕ) (w : S) → Whole (start (suc n) w) (from 0 (suc n)) [] []
  unfolding start
  start-Whole n w = record {
    holds = record {
      free = refl;
      busy = refl;
      pop_head = refl;
      pop_tail = refl;
      free_links = link_from-Linked (suc n);
      busy_links = refl;
      pop_links = refl;
      apart = λ j. omega (arith, count-from j 0 (suc n));
    };
    all = omega (arith, length-from 0 (suc n));
  }
