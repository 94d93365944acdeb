-- ===== src/Collector/Stacks.antt =====
-- crates/slice-collector/src/lib.rs: how a stack gets its id, in `push` and in `append_sample`.
use native.Mathlib.Decide.{ℕ_discrete}
use mathlib.Core.Logic.{ite}
use slice.Base.{ℕ, Option, none, some, List, [], ◌∷◌, ◌++◌}
use slice.Collector.{State, PendingSample}
use slice.Core.Profile.{Frame}
use slice.Data.Words.{sat_add_u32}

unfoldable pub frames_discrete : Discrete (List Frame)
frames_discrete = hlevel ℕ_discrete

-- `stack_ids.get(&frames)`.
unfoldable pub id_of : List Frame → List (List Frame × ℕ) → Option ℕ
id_of frames [] = none
id_of frames ((key, id) ∷ m) = ite (frames_discrete key frames) (some id) (id_of frames m)

-- The id of the stack, which is a new record of the profile if the frames are new.
unfoldable pub intern : State → List Frame → ℕ × State
intern (c, p) frames = elim (id_of frames c.stack_ids) [
  | some id ↦ (id, (c, p))
  | none ↦ (
    c.next_stack_id,
    (
      record c {
        next_stack_id = sat_add_u32 c.next_stack_id 1;
        stack_ids = (frames, c.next_stack_id) ∷ c.stack_ids;
      },
      record p { stacks = p.stacks ++ record { id = c.next_stack_id; frames = frames } ∷ [] },
    ),
  )
]

unfoldable pub append_sample : State → ℕ → PendingSample → State
append_sample s invocation_id pending =
    let (stack_id, (c, p)) = intern s pending.frames in
    (
      c,
      record p {
        samples =
            p.samples
            ++ record {
              timestamp_ns = pending.timestamp_ns;
              invocation_id = invocation_id;
              stack_id = stack_id;
              tid = pending.tid;
              cpu = pending.cpu;
              state = pending.state;
              weight_ns = pending.weight_ns;
            }
              ∷ [];
      },
    )
