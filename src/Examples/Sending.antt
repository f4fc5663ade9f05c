-- ===== src/Examples/Sending.antt =====
-- The egress queue at concrete inputs: two contexts, of which context 1 is busy and at the tail.
use nanomsg_transport_ofi.Prelude.{
  ℕ, ◌+◌, ◌≡◌, refl, true, false, Option, none, some, [], ◌∷◌, pos, arith, ◌==◌, if◌then◌else◌, suc,
}
use nanomsg_transport_ofi.Egress.{Ctx, Parts, Egress, is_empty}
use nanomsg_transport_ofi.Egress.Sending.{done, Staged, stage, handle, handle_error}
use nanomsg_transport_ofi.Egress.Count.{busy}
use nanomsg_transport_ofi.Egress.Chain.{IsChain}
use nanomsg_transport_ofi.Egress.Total.{stage-returns}
use nanomsg_transport_ofi.Egress.Complete.{handle-returns}
use nanomsg_transport_ofi.Egress.Balance.{IsBalanced, left_by, handle_error-lost}

-- A message is a number, a handle too, and the world counts calls.
abbrev parts : Parts ℕ ℕ ℕ
parts = record {
  describe = λ m w. (pos 0, 7, w + 1);
  release = λ h w. w + 1;
  sendmsg = λ m h w. (pos 0, w + 1);
  pipebase_sent = λ w. w + 1;
}

abbrev contexts : ℕ → Ctx ℕ ℕ
contexts i =
    if i == 1
    then record { msg = some 5; mr_handle = some 7; next = none; prev = some 0 }
    else record { msg = none; mr_handle = none; next = some 1; prev = none }

abbrev queue : Egress ℕ ℕ ℕ
queue = record {
  contexts = contexts;
  head = 0;
  tail = 1;
  counter = 1;
  max = 2;
  staged = false;
  out_active = true;
  closing = false;
  outmsg = none;
  ticks_out = 3;
  world = 0;
}

or_else : {A : Type 0} → A → Option A → A
or_else a none = a
or_else a (some b) = b

abbrev after_stage : Staged ℕ ℕ ℕ
after_stage = or_else (done queue) (stage parts queue 9)

-- The second context took the last place, and the counter is 0.
staged_counter : (left_by after_stage).counter ≡ 0
unfolding or_else stage
staged_counter = refl

abbrev after_handle : Egress ℕ ℕ ℕ
after_handle = or_else queue (handle parts queue 1)

-- The context that was freed is at the head.
handled_head : (after_handle.head ≡ 1) × (after_handle.tail ≡ 0)
unfolding or_else handle
handled_head = (refl, refl)

abbrev after_error : Egress ℕ ℕ ℕ
after_error = or_else queue (handle_error parts queue 1)

failed_well : handle_error parts queue 1 ≡ some after_error
unfolding or_else handle_error
failed_well = refl

handle_error-lost_example :
    (suc (after_error.counter + busy after_error.max after_error.contexts) ≡ after_error.max)
    × (is_empty after_error ≡ false)
handle_error-lost_example =
    handle_error-lost parts queue after_error 1 (omega arith) refl refl failed_well

abbrev chain : IsChain queue 0 (1 ∷ [])
chain = record {
  head = refl;
  tail = refl;
  links = (refl, refl, (refl, refl, refl));
  distinct = refl;
}

stage-returns_example : (r : Staged ℕ ℕ ℕ) × (stage parts queue 9 ≡ some r) × IsBalanced (left_by r)
stage-returns_example = stage-returns parts queue 9 0 1 [] chain refl (omega arith) refl

handle-returns_example :
    (f : Egress ℕ ℕ ℕ) × (handle parts queue 1 ≡ some f)
    × IsChain f 1 (0 ∷ [])
    × IsBalanced f
    × (f.counter ≡ 2)
handle-returns_example =
    handle-returns parts queue 0 1 [] [] chain (omega arith) (omega arith) refl refl
