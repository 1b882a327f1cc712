-- ===== src/Tasks/Legal.antt =====
-- The transition table of src/protocols/task_lifecycle.py, and what one durable transition does.
use agentbridge.Base.{
  ℕ, ◌+◌, ◌≤◌, String, ◌≡◌, ◌≢◌, true, false, some, [], ◌∷◌, ◌++◌, nat_eq, string_eq, pair_eq,
  length, arith,
}
use agentbridge.Base.Dict.{lookup, insert}
use agentbridge.Store.{
  TaskState, submitted, working, completed, canceled, TaskLifecycle, TaskRow, World,
}
use agentbridge.Store.Exec.{ok}
use agentbridge.Tasks.State.{is_terminal, allowed, transition}
use agentbridge.Tasks.Durable.{
  Limits, advance, no_slot, event_reserve, reserved_bytes, used_bytes, events_of,
}

-- A terminal state is never left; every other state can be canceled; no transition enters
-- `submitted` or stays in a state; and `completed` is reached from `working` alone.
pub allowed_lem :
    (s t : TaskState)
    → (is_terminal s ≡ true → allowed s t ≡ false)
      × (is_terminal s ≡ false → allowed s canceled ≡ true)
      × (allowed s t ≡ true → (t ≢ submitted) × (s ≢ t))
      × (allowed s completed ≡ true → s ≡ working)
unfolding is_terminal allowed
allowed_lem s t = ground arith

module _ (size : TaskLifecycle → ℕ) (strip : String → String) (limits : Limits)
    (scope : String × String) (new_state : TaskState) (expected : ℕ) (w : World) where
  abbrev pub advanced : TaskRow → TaskLifecycle
  advanced row = record row.snapshot { state = new_state; sequence = row.snapshot.sequence + 1 }

  abbrev pub advanced_world : TaskRow → World
  advanced_world row = record w {
    db = record w.db {
      task_events = w.task_events ++ (scope, advanced row) ∷ [];
      task_snapshots =
          insert scope (record { snapshot = advanced row; terminal = is_terminal new_state })
            w.task_snapshots;
    };
  }

  pub advance-ok :
      (row : TaskRow) (u : TaskLifecycle)
      → lookup scope w.task_snapshots ≡ some row
      → (advance size strip limits scope new_state expected w).0 ≡ ok u
      → (row.snapshot.sequence ≡ expected)
        × (allowed row.snapshot.state new_state ≡ true)
        × (no_slot size strip limits (length (events_of scope w.task_events)) (advanced row)
            ≡ false)
        × (used_bytes size w.task_events
              + size (advanced row)
              + reserved_bytes w.task_snapshots
              + event_reserve (advanced row)
            ≤ w.event_max_bytes + event_reserve row.snapshot)
        × (u ≡ advanced row)
        × ((advance size strip limits scope new_state expected w).1 ≡ advanced_world row)
  unfolding advance transition
  advance-ok row u found h = ground arith
