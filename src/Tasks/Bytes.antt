-- ===== src/Tasks/Bytes.antt =====
-- The capacities that src/protocols/durable_task_lifecycle.py keeps free for terminal events.
use agentbridge.Base.{
  ℕ, ◌+◌, ◌≤◌, String, ◌≡◌, subst, sym, Bool, false, none, some, List, [], ◌∷◌, ◌++◌, nat_eq,
  string_eq, pair_eq, pair_beq, pair_beq_iff, if◌then◌else◌, length, arith, inl, inr, Option-cases,
}
use agentbridge.Base.Dict.{Dict, lookup, insert, lookup-insert}
use agentbridge.Store.{TaskState, TaskLifecycle, TaskRow, World}
use agentbridge.Store.Exec.{ok}
use agentbridge.Store.Atomic.{sql_atomic-ok}
use agentbridge.Tasks.State.{is_terminal}
use agentbridge.Tasks.Durable.{
  Limits, advance, no_slot, event_reserve, row_reserve, reserved_bytes, used_bytes, events_of,
  EventRow, transition_task,
}
use agentbridge.Tasks.Legal.{advanced, advanced_world, advance-ok}

reserved_bytes-insert_old :
    (k : String × String) (a b : TaskRow) (d : Dict (String × String) TaskRow)
    → lookup k d ≡ some a
    → reserved_bytes (insert k b d) + row_reserve a ≡ reserved_bytes d + row_reserve b
unfolding lookup insert reserved_bytes
reserved_bytes-insert_old k a b [] h = cc
reserved_bytes-insert_old k a b ((j, c) ∷ d) h = ground (arith, reserved_bytes-insert_old k a b d)

pub reserved_bytes-insert_new :
    (k : String × String) (b : TaskRow) (d : Dict (String × String) TaskRow)
    → lookup k d ≡ none
    → reserved_bytes (insert k b d) ≡ reserved_bytes d + row_reserve b
unfolding lookup insert reserved_bytes
reserved_bytes-insert_new k b [] h = omega arith
reserved_bytes-insert_new k b ((j, c) ∷ d) h = ground (arith, reserved_bytes-insert_new k b d)

pub length-events_of :
    (k j : String × String) (t : TaskLifecycle) (rows : List EventRow)
    → length (events_of k (rows ++ (j, t) ∷ []))
      ≡ length (events_of k rows) + (if pair_beq j k then 1 else 0)
unfolding events_of
length-events_of k j t [] = ground arith
length-events_of k j t (r ∷ rows) = ground (arith, length-events_of k j t rows)

module _ (size : TaskLifecycle → ℕ) where
  pub used_bytes-append :
      (rows : List EventRow) (r : EventRow)
      → used_bytes size (rows ++ r ∷ []) ≡ used_bytes size rows + size r.1
  unfolding used_bytes
  used_bytes-append [] r = omega arith
  used_bytes-append (s ∷ rows) r = omega (arith, used_bytes-append rows r)

  -- The bytes in use and those kept for control fit the policy; an open task has an event slot left
  -- for its end; the `terminal` column says what the snapshot says; and only a recorded task has events.
  pub record HasRoom (limits : Limits) (w : World) : Type 0 where
    pub bytes : used_bytes size w.task_events + reserved_bytes w.task_snapshots ≤ w.event_max_bytes
    pub slot :
        (k : String × String) (row : TaskRow)
        → lookup k w.task_snapshots ≡ some row
        → row.terminal ≡ false
        → length (events_of k w.task_events) + 1 ≤ limits.max_events
    pub column :
        (k : String × String) (row : TaskRow)
        → lookup k w.task_snapshots ≡ some row
        → row.terminal ≡ is_terminal row.snapshot.state
    pub fresh :
        (k : String × String)
        → lookup k w.task_snapshots ≡ none
        → length (events_of k w.task_events) ≡ 0

  module _ (strip : String → String) (limits : Limits) where
    abbrev kept :
        (scope : String × String) (new_state : TaskState) (expected : ℕ) (w : World) (row : TaskRow)
        → World
    kept scope new_state expected w row =
        advanced_world size strip limits scope new_state expected w row

    advanced-bytes :
        (scope : String × String) (new_state : TaskState) (expected : ℕ) (w : World) (row : TaskRow)
        → lookup scope w.task_snapshots ≡ some row
        → (u : TaskLifecycle) → (advance size strip limits scope new_state expected w).0 ≡ ok u
        → row.terminal ≡ is_terminal row.snapshot.state
        → used_bytes size (kept scope new_state expected w row).task_events
            + reserved_bytes (kept scope new_state expected w row).task_snapshots
          ≤ w.event_max_bytes
    unfolding event_reserve row_reserve
    advanced-bytes scope new_state expected w row found u done column =
        let facts = advance-ok size strip limits scope new_state expected w row u found done in
        let item = advanced size strip limits scope new_state expected w row in
        let used = used_bytes-append w.task_events (scope, item) in
        let reserved =
          reserved_bytes-insert_old scope row
            (record { snapshot = item; terminal = is_terminal new_state }) w.task_snapshots found in
        ground arith

    abbrev new_row : (new_state : TaskState) → TaskRow → TaskRow
    new_row new_state row = record {
      snapshot = record row.snapshot { state = new_state; sequence = row.snapshot.sequence + 1 };
      terminal = is_terminal new_state;
    }

    advanced-column :
        (scope : String × String) (new_state : TaskState) (row : TaskRow) (w : World)
        → HasRoom limits w
        → (k : String × String) (r : TaskRow)
        → lookup k (insert scope (new_row new_state row) w.task_snapshots) ≡ some r
        → r.terminal ≡ is_terminal r.snapshot.state
    advanced-column scope new_state row w h k r e =
        let seen = lookup-insert scope k (new_row new_state row) w.task_snapshots in
        let old = h.column k r in ground arith

    advanced-slot :
        (scope : String × String) (new_state : TaskState) (row : TaskRow) (w : World)
        → HasRoom limits w
        → no_slot size strip limits
            (length (events_of scope w.task_events))
            (new_row new_state row).snapshot
          ≡ false
        → (k : String × String) (r : TaskRow)
        → lookup k (insert scope (new_row new_state row) w.task_snapshots) ≡ some r
        → r.terminal ≡ false
        → length (events_of k (w.task_events ++ (scope, (new_row new_state row).snapshot) ∷ [])) + 1
          ≤ limits.max_events
    advanced-slot scope new_state row w h room k r e running =
        let seen = lookup-insert scope k (new_row new_state row) w.task_snapshots in
        let len = length-events_of k scope (new_row new_state row).snapshot w.task_events in
        let old = h.slot k r in let at = pair_beq_iff scope k in ground arith

    pub added-fresh :
        (scope : String × String) (t : TaskLifecycle) (terminal : Bool) (w : World)
        → HasRoom limits w
        → (k : String × String)
        → lookup k (insert scope (record { snapshot = t; terminal = terminal }) w.task_snapshots)
          ≡ none
        → length (events_of k (w.task_events ++ (scope, t) ∷ [])) ≡ 0
    added-fresh scope t terminal w h k e =
        let seen =
          lookup-insert scope k (record { snapshot = t; terminal = terminal }) w.task_snapshots in
        let len = length-events_of k scope t w.task_events in
        let old = h.fresh k in let at = pair_beq_iff scope k in ground arith

    advanced-HasRoom :
        (scope : String × String) (new_state : TaskState) (expected : ℕ) (w : World) (row : TaskRow)
        → lookup scope w.task_snapshots ≡ some row
        → (u : TaskLifecycle) → (advance size strip limits scope new_state expected w).0 ≡ ok u
        → HasRoom limits w
        → HasRoom limits (advanced_world size strip limits scope new_state expected w row)
    advanced-HasRoom scope new_state expected w row found u done h = record {
      bytes = advanced-bytes scope new_state expected w row found u done (h.column scope row found);
      slot = λ k r e o.
          advanced-slot scope new_state row w h
            (advance-ok size strip limits scope new_state expected w row u found done).2 k r e o;
      column = λ k r e. advanced-column scope new_state row w h k r e;
      fresh =
          λ k e. added-fresh scope (new_row new_state row).snapshot (is_terminal new_state) w h k e;
    }

    advance-found :
        (scope : String × String) (new_state : TaskState) (expected : ℕ) (w : World)
        (u : TaskLifecycle)
        → (advance size strip limits scope new_state expected w).0 ≡ ok u
        → (row : TaskRow) × (lookup scope w.task_snapshots ≡ some row)
    unfolding advance
    advance-found scope new_state expected w u done =
        elim (Option-cases (lookup scope w.task_snapshots)) [
          | inl e ↦ absurd (ground arith)
          | inr (row, e) ↦ (row, e)
        ]

    pub advance-HasRoom :
        (scope : String × String) (new_state : TaskState) (expected : ℕ) (w : World)
        (u : TaskLifecycle)
        → HasRoom limits w
        → (advance size strip limits scope new_state expected w).0 ≡ ok u
        → HasRoom limits (advance size strip limits scope new_state expected w).1
    advance-HasRoom scope new_state expected w u h done =
        let (row, found) = advance-found scope new_state expected w u done in
        let facts = advance-ok size strip limits scope new_state expected w row u found done in
        subst (HasRoom limits) (sym facts.5)
          (advanced-HasRoom scope new_state expected w row found u done h)

    transition_task-ok :
        (owner task_id : String) (new_state : TaskState) (expected : ℕ) (w : World)
        (u : TaskLifecycle)
        → (transition_task size strip limits owner task_id new_state expected w).0 ≡ ok u
        → ((advance size strip limits (owner, task_id) new_state expected w).0 ≡ ok u)
          × ((transition_task size strip limits owner task_id new_state expected w).1
              ≡ (advance size strip limits (owner, task_id) new_state expected w).1)
    unfolding transition_task
    transition_task-ok owner task_id new_state expected w u done =
        let whole =
          sql_atomic-ok (advance size strip limits (owner, task_id) new_state expected) w u in
        ground arith

    -- A transition that succeeds keeps the capacities: the bytes in use and those kept for control
    -- events fit the policy, and an open task keeps a slot for its terminal event.
    pub transition_task-HasRoom :
        (owner task_id : String) (new_state : TaskState) (expected : ℕ) (w : World)
        (u : TaskLifecycle)
        → HasRoom limits w
        → (transition_task size strip limits owner task_id new_state expected w).0 ≡ ok u
        → HasRoom limits (transition_task size strip limits owner task_id new_state expected w).1
    transition_task-HasRoom owner task_id new_state expected w u h done =
        let (inside, same) = transition_task-ok owner task_id new_state expected w u done in
        subst (HasRoom limits) (sym same)
          (advance-HasRoom (owner, task_id) new_state expected w u h inside)
