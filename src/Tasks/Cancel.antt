-- ===== src/Tasks/Cancel.antt =====
-- The cancellation that the capacities of src/protocols/durable_task_lifecycle.py keep room for.
use agentbridge.Base.{
  ℕ, ◌+◌, ◌-◌, ◌^◌, ◌≤◌, ◌<◌, String, ◌≡◌, refl, ◌∙◌, true, false, some, ◌==◌, nat_eq, string_eq,
  pair_eq, leb, length, arith,
}
use agentbridge.Base.Dict.{lookup}
use agentbridge.Store.{canceled, TaskLifecycle, TaskRow, World}
use agentbridge.Store.Exec.{ok}
use agentbridge.Tasks.State.{is_terminal, is_identifier, allowed, transition}
use agentbridge.Tasks.Durable.{
  Limits, advance, no_slot, event_reserve, reserved_bytes, used_bytes, events_of, has_event,
  check_event_append, transition_task, cancel,
}
use agentbridge.Tasks.Bytes.{HasRoom}
use agentbridge.Store.Atomic.{sql_atomic-commits}

module _ (size : TaskLifecycle → ℕ) (strip : String → String) (limits : Limits) where
  abbrev pub canceled_task : TaskRow → TaskLifecycle
  canceled_task row = record row.snapshot { state = canceled; sequence = row.snapshot.sequence + 1 }

  check_event_append-passes :
      (t : TaskLifecycle) (returned : ℕ) (w : World)
      → size t ≤ 4096
      → used_bytes size w.task_events + size t + reserved_bytes w.task_snapshots
        ≤ w.event_max_bytes + returned
      → check_event_append size t 0 returned w ≡ (ok tt, w)
  unfolding check_event_append
  check_event_append-passes t returned w small room = ground arith

  kept_for_control :
      (t : TaskLifecycle) (n : ℕ) → is_terminal t.state ≡ false → n ≤ 4096 → n ≤ event_reserve t
  unfolding event_reserve is_terminal
  kept_for_control t n running small = ground arith

  transition-canceled :
      (t : TaskLifecycle)
      → is_terminal t.state ≡ false
      → transition t canceled (t.sequence + 1)
        ≡ ok (record t { state = canceled; sequence = t.sequence + 1 })
  unfolding transition allowed is_terminal
  transition-canceled t running = ground arith

  no_reserve : (t : TaskLifecycle) → t.state ≡ canceled → event_reserve t ≡ 0
  unfolding event_reserve is_terminal
  no_reserve t e = ground arith

  ending_slot :
      (n : ℕ) (t : TaskLifecycle)
      → t.state ≡ canceled
      → n + 1 ≤ limits.max_events
      → no_slot size strip limits n t ≡ false
  unfolding is_terminal
  ending_slot n t e room = ground arith

  advance-canceled :
      (scope : String × String) (w : World) (row : TaskRow)
      → HasRoom size limits w
      → lookup scope w.task_snapshots ≡ some row
      → is_terminal row.snapshot.state ≡ false
      → has_event scope (row.snapshot.sequence + 1) w.task_events ≡ false
      → size (canceled_task row) ≤ 4096
      → (advance size strip limits scope canceled row.snapshot.sequence w).0
        ≡ ok (canceled_task row)
  unfolding advance
  advance-canceled scope w row h found running free small =
      let slot = h.slot scope row found in
      let column = h.column scope row found in
      let bytes = h.bytes in
      let kept = kept_for_control row.snapshot (size (canceled_task row)) running small in
      let moved = transition-canceled row.snapshot running in
      let nothing : event_reserve (canceled_task row) ≡ 0 = no_reserve (canceled_task row) refl in
      let passes =
        check_event_append-passes (canceled_task row) (event_reserve row.snapshot) w small
          (omega arith) in
      let same : (row.snapshot.sequence == row.snapshot.sequence) ≡ true = ground arith in
      let roomy : no_slot size strip limits (length (events_of scope w.task_events))
            (canceled_task row)
          ≡ false =
        ending_slot (length (events_of scope w.task_events)) (canceled_task row) refl
          (slot (column ∙ running)) in
      rw (found, same, moved, roomy, nothing, passes, free)

  -- Room for control: an open task can always be canceled. In a state that keeps the capacities, for
  -- valid identifiers, the task's recorded sequence number (below 2^63 - 1) as the expected one, no
  -- event recorded under the next number, and a cancellation event of at most 4,096 bytes, `cancel`
  -- succeeds, whatever the capacities are and however full they are.
  pub cancel_lem :
      (owner task_id : String) (w : World) (row : TaskRow)
      → HasRoom size limits w
      → lookup (owner, task_id) w.task_snapshots ≡ some row
      → is_terminal row.snapshot.state ≡ false
      → is_identifier strip owner ≡ true
      → is_identifier strip task_id ≡ true
      → row.snapshot.sequence < 2 ^ 63 - 1
      → has_event (owner, task_id) (row.snapshot.sequence + 1) w.task_events ≡ false
      → size (canceled_task row) ≤ 4096
      → (cancel size strip limits owner task_id row.snapshot.sequence w).0 ≡ ok (canceled_task row)
  unfolding cancel transition_task
  cancel_lem owner task_id w row h found running owner_ok task_ok below free small =
      let inside = advance-canceled (owner, task_id) w row h found running free small in
      let commits =
        sql_atomic-commits
          (advance size strip limits (owner, task_id) canceled row.snapshot.sequence) w in
      let fits : leb (2 ^ 63 - 1) row.snapshot.sequence ≡ false = ground arith in
      rw (owner_ok, task_ok, fits, commits (canceled_task row) inside)
