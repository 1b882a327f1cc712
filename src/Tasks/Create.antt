-- ===== src/Tasks/Create.antt =====
-- A new task of src/protocols/durable_task_lifecycle.py keeps the capacities.
use agentbridge.Base.{
  ℕ, ◌+◌, ◌≤◌, String, ◌≡◌, subst, sym, ◌∙◌, false, none, [], ◌∷◌, ◌++◌, nat_eq, string_eq, pair_eq,
  pair_beq_iff, arith, inl, inr, Option-cases,
}
use agentbridge.Base.Dict.{lookup, insert, lookup-insert}
use agentbridge.Store.{submitted, TaskLifecycle, TaskRow, World}
use agentbridge.Store.Exec.{ok}
use agentbridge.Store.Atomic.{sql_atomic-ok}
use agentbridge.Tasks.State.{is_terminal}
use agentbridge.Tasks.Durable.{
  Limits, event_reserve, row_reserve, reserved_bytes, used_bytes, create, record_task,
}
use agentbridge.Tasks.Bytes.{
  reserved_bytes-insert_new, length-events_of, used_bytes-append, HasRoom, added-fresh,
}

module _ (size : TaskLifecycle → ℕ) (strip : String → String) (limits : Limits) where
  abbrev created : String × String → TaskLifecycle → World → World
  created scope t w = record w {
    db = record w.db {
      task_events = w.task_events ++ (scope, t) ∷ [];
      task_snapshots = insert scope (record { snapshot = t; terminal = false }) w.task_snapshots;
    };
  }

  record_task-ok :
      (scope : String × String) (t : TaskLifecycle) (w : World) (u : TaskLifecycle)
      → (record_task size strip limits scope t w).0 ≡ ok u
      → (lookup scope w.task_snapshots ≡ none)
        × (used_bytes size w.task_events
              + size t
              + reserved_bytes w.task_snapshots
              + event_reserve t
            ≤ w.event_max_bytes)
        × ((record_task size strip limits scope t w).1 ≡ created scope t w)
  unfolding record_task
  record_task-ok scope t w u done = elim (Option-cases (lookup scope w.task_snapshots)) [
    | inl e ↦ ground arith
    | inr (row, e) ↦ absurd (ground arith)
  ]

  create-ok :
      (owner : String) (t : TaskLifecycle) (w : World) (u : TaskLifecycle)
      → (create size strip limits owner t w).0 ≡ ok u
      → (t.state ≡ submitted)
        × ((record_task size strip limits (owner, t.task_id) t w).0 ≡ ok u)
        × ((create size strip limits owner t w).1
            ≡ (record_task size strip limits (owner, t.task_id) t w).1)
  unfolding create
  create-ok owner t w u done =
      let whole = sql_atomic-ok (record_task size strip limits (owner, t.task_id) t) w u in
      ground arith

  created-HasRoom :
      (scope : String × String) (t : TaskLifecycle) (w : World) (u : TaskLifecycle)
      → 2 ≤ limits.max_events
      → t.state ≡ submitted
      → HasRoom size limits w
      → (record_task size strip limits scope t w).0 ≡ ok u
      → HasRoom size limits (created scope t w)
  unfolding event_reserve row_reserve is_terminal
  created-HasRoom scope t w u two state h done =
      let facts = record_task-ok scope t w u done in
      let row : TaskRow = record { snapshot = t; terminal = false } in
      let used = used_bytes-append size w.task_events (scope, t) in
      let reserved = reserved_bytes-insert_new scope row w.task_snapshots facts.0 in
      let nothing = h.fresh scope facts.0 in
      record {
        bytes = ground arith;
        slot = λ k r e o.
            let seen = lookup-insert scope k row w.task_snapshots in
            let len = length-events_of k scope t w.task_events in
            let old = h.slot k r in let at = pair_beq_iff scope k in ground arith;
        column = λ k r e.
            let seen = lookup-insert scope k row w.task_snapshots in
            let old = h.column k r in ground arith;
        fresh = λ k e. added-fresh size strip limits scope t false w h k e;
      }

  -- A creation that succeeds keeps the capacities, for a service built with at least two events
  -- for each task.
  pub create-HasRoom :
      (owner : String) (t : TaskLifecycle) (w : World) (u : TaskLifecycle)
      → 2 ≤ limits.max_events
      → HasRoom size limits w
      → (create size strip limits owner t w).0 ≡ ok u
      → HasRoom size limits (create size strip limits owner t w).1
  create-HasRoom owner t w u two h done =
      let (state, inside, same) = create-ok owner t w u done in
      let facts = record_task-ok (owner, t.task_id) t w u inside in
      subst (HasRoom size limits) (sym (same ∙ facts.2))
        (created-HasRoom (owner, t.task_id) t w u two state h inside)
