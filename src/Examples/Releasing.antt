-- ===== src/Examples/Releasing.antt =====
-- The fabrics at concrete inputs.
use nanomsg_transport_ofi.Prelude.{ℕ, ◌+◌, ◌≡◌, refl, [], ◌∷◌, pos, arith}
use nanomsg_transport_ofi.Resources.{Parts, Resources, term_from}
use nanomsg_transport_ofi.Resources.Ending.{term-empties}

-- The world counts what is released.
abbrev parts : Parts ℕ
parts = record {
  match_fabric = λ w. (pos 0, w);
  fi_fabric = λ w. (pos 0, w);
  pool_init = λ w. (pos 0, w);
  fi_domain = λ w. (pos 0, w);
  close_domain = λ d w. w + 1;
  pool_term = λ w. w + 1;
}

abbrev held : Resources ℕ
held = record {
  fabrics =
      record { address = 1; ref = 2; domains = 7 ∷ 8 ∷ [] }
      ∷ record { address = 2; ref = 1; domains = [] }
      ∷ [];
  world = 0;
}

-- Two domains and two pools are released.
held_released : (term_from parts 3 held held.fabrics).world ≡ 4
unfolding term_from
held_released = refl

term-empties_example : (term_from parts 3 held held.fabrics).fabrics ≡ []
term-empties_example = term-empties parts 3 held (omega arith)
