-- ===== src/Tasks/Durable.antt =====
-- `DurableTaskLifecycle` of src/protocols/durable_task_lifecycle.py. `size` is the number of UTF-8
-- bytes of a task's canonical JSON, and `strip` is Python's `str.strip`.
use agentbridge.Base.{
  ℕ, suc, ◌+◌, ◌-◌, ◌^◌, String, Bool, true, false, not, ◌&&◌, ◌||◌, Option, none, some, List, [],
  ◌∷◌, ◌++◌, ◌==◌, nat_eq, string_eq, pair_eq, pair_beq, ltb, leb, if◌then◌else◌, length, filter,
  map, sort_by, take,
}
use agentbridge.Base.Dict.{Dict, lookup, insert, has}
use agentbridge.Store.{
  TaskState, submitted, input_required, auth_required, canceled, TaskLifecycle, TaskRow,
}
use agentbridge.Store.Exec.{
  Exec, Result, lifecycle_rejected, lifecycle_capacity, sql_error, pure, raise, gets, raise_if,
  modify, sql_atomic, ◌>>=◌, ◌>>◌,
}
use agentbridge.Tasks.State.{is_terminal, is_identifier, transition}

-- The two capacities that a service is built with.
pub record Limits : Type 0 where
  pub max_active : ℕ
  pub max_events : ℕ

abbrev pub is_submitted : TaskState → Bool
is_submitted submitted = true
is_submitted _ = false

abbrev pub control_bytes : TaskState → ℕ
control_bytes input_required = 4096
control_bytes auth_required = 4096
control_bytes _ = 8192

-- `_event_reserve`
unfoldable pub event_reserve : TaskLifecycle → ℕ
event_reserve t = if is_terminal t.state then 0 else control_bytes t.state

-- `_reserve_sql`, on a row
unfoldable pub row_reserve : TaskRow → ℕ
row_reserve r = if r.terminal then 0 else control_bytes r.snapshot.state

-- `SELECT count(*) FROM task_lifecycle_snapshots WHERE owner_id=? AND terminal=0`
unfoldable pub active_count : String → Dict (String × String) TaskRow → ℕ
active_count owner [] = 0
active_count owner (((o, _), r) ∷ d) =
    let rest = active_count owner d in if o == owner && not r.terminal then suc rest else rest

abbrev pub EventRow : Type 0
EventRow = (String × String) × TaskLifecycle

-- The events of one task.
unfoldable pub events_of : String × String → List EventRow → List EventRow
events_of scope rows = filter (λ r. pair_beq r.0 scope) rows

abbrev pub has_event : String × String → ℕ → List EventRow → Bool
has_event scope n [] = false
has_event scope n (r ∷ rows) = (pair_beq r.0 scope && (r.1).sequence == n) || has_event scope n rows

abbrev pub required : Option TaskRow → Exec TaskLifecycle
required none = raise lifecycle_rejected
required (some r) = pure r.snapshot

abbrev pub lift {ℓ} : {A : Type ℓ} → Result A → Exec A
lift r w = (r, w)

unfoldable pub reserved_bytes : Dict (String × String) TaskRow → ℕ
unfolding row_reserve
reserved_bytes [] = 0
reserved_bytes ((_, r) ∷ d) = row_reserve r + reserved_bytes d

module _ (size : TaskLifecycle → ℕ) where
  -- `_event_usage`
  unfoldable pub used_bytes : List EventRow → ℕ
  used_bytes [] = 0
  used_bytes (r ∷ rows) = size r.1 + used_bytes rows

  -- `_check_event_append`, with the reserve to add and the reserve to give back
  unfoldable pub check_event_append : TaskLifecycle → ℕ → ℕ → Exec (Unit {0})
  check_event_append t added returned = do
    raise_if (ltb 4096 (size t)) lifecycle_rejected
    used ← gets (λ w. used_bytes w.task_events)
    reserved ← gets (λ w. reserved_bytes w.task_snapshots)
    cap ← gets (λ w. w.event_max_bytes)
    raise_if (ltb (cap + returned) (used + size t + reserved + added)) lifecycle_capacity

  abbrev pub insert_event : String × String → TaskLifecycle → Exec (Unit {0})
  insert_event scope t = do
    taken ← gets (λ w. has_event scope t.sequence w.task_events)
    raise_if taken sql_error
    modify (λ db. record db { task_events = db.task_events ++ (scope, t) ∷ [] })

  abbrev pub put_snapshot : String × String → TaskLifecycle → Bool → Exec (Unit {0})
  put_snapshot scope t terminal = modify (λ db. record db {
    task_snapshots = insert scope (record { snapshot = t; terminal = terminal }) db.task_snapshots;
  })

  module _ (strip : String → String) (limits : Limits) where
    -- What `create` does inside its transaction.
    unfoldable pub record_task : String × String → TaskLifecycle → Exec TaskLifecycle
    unfolding check_event_append
    record_task scope task = do
      known ← gets (λ w. has scope w.task_snapshots)
      raise_if known lifecycle_rejected
      full ← gets (λ w. leb w.history_max_tasks (length w.task_snapshots))
      raise_if full lifecycle_capacity
      active ← gets (λ w. active_count scope.0 w.task_snapshots)
      raise_if (leb limits.max_active active) lifecycle_capacity
      check_event_append task (event_reserve task) 0
      put_snapshot scope task false
      insert_event scope task
      pure task

    unfoldable pub create : String → TaskLifecycle → Exec TaskLifecycle
    unfolding record_task
    create owner task = do
      raise_if (not (is_submitted task.state) || not (task.sequence == 0)) lifecycle_rejected
      raise_if (not (is_identifier strip owner) || not (is_identifier strip task.task_id))
          lifecycle_rejected
      sql_atomic (record_task (owner, task.task_id) task)

    unfoldable pub get : String → String → Exec TaskLifecycle
    get owner task_id = do
      raise_if (not (is_identifier strip owner) || not (is_identifier strip task_id))
          lifecycle_rejected
      row ← gets (λ w. lookup (owner, task_id) w.task_snapshots)
      required row

    -- The capacity test of `transition`: the last event slot is kept for a terminal state.
    abbrev pub no_slot : ℕ → TaskLifecycle → Bool
    no_slot n updated =
        leb limits.max_events n
        || (not (is_terminal updated.state) && leb (limits.max_events - 1) n)

    -- What `transition` does inside its transaction.
    unfoldable pub advance : String × String → TaskState → ℕ → Exec TaskLifecycle
    unfolding check_event_append
    advance scope new_state expected = do
      row ← gets (λ w. lookup scope w.task_snapshots)
      current ← required row
      raise_if (not (current.sequence == expected)) lifecycle_rejected
      updated ← lift (transition current new_state (current.sequence + 1))
      n ← gets (λ w. length (events_of scope w.task_events))
      raise_if (no_slot n updated) lifecycle_capacity
      check_event_append updated (event_reserve updated) (event_reserve current)
      insert_event scope updated
      put_snapshot scope updated (is_terminal updated.state)
      pure updated

    unfoldable pub transition_task : String → String → TaskState → ℕ → Exec TaskLifecycle
    unfolding advance
    transition_task owner task_id new_state expected = do
      raise_if (not (is_identifier strip owner) || not (is_identifier strip task_id))
          lifecycle_rejected
      raise_if (leb (2 ^ 63 - 1) expected) lifecycle_rejected
      sql_atomic (advance (owner, task_id) new_state expected)

    unfoldable pub cancel : String → String → ℕ → Exec TaskLifecycle
    unfolding transition_task
    cancel owner task_id expected = transition_task owner task_id canceled expected

    -- `next` is `after_sequence + 1`, which is 0 for a reader with no cursor.
    unfoldable pub events : String → String → ℕ → ℕ → Exec (List TaskLifecycle)
    events owner task_id next limit = do
      raise_if (not (is_identifier strip owner) || not (is_identifier strip task_id))
          lifecycle_rejected
      raise_if (ltb (2 ^ 63) next) lifecycle_rejected
      raise_if (not (leb 1 limit && leb limit 100)) lifecycle_rejected
      row ← gets (λ w. lookup (owner, task_id) w.task_snapshots)
      current ← required row
      raise_if (ltb (current.sequence + 1) next) lifecycle_rejected
      rows ← gets (λ w. events_of (owner, task_id) w.task_events)
      pure (
          take limit (
            sort_by (λ t. t.sequence)
              (filter (λ t. leb next t.sequence) (map (λ (r : EventRow). r.1) rows))))

  unfoldable pub set_history_capacity : ℕ → Exec (Unit {0})
  set_history_capacity max_tasks = do
    raise_if (not (leb 1 max_tasks && leb max_tasks 1000000)) lifecycle_rejected
    small ← gets (λ w. ltb max_tasks (length w.task_snapshots))
    raise_if small lifecycle_capacity
    modify (λ db. record db { history_max_tasks = max_tasks })

  unfoldable pub set_event_capacity : ℕ → Exec (Unit {0})
  set_event_capacity max_bytes = do
    raise_if (not (leb 4096 max_bytes && leb max_bytes 1073741824)) lifecycle_rejected
    small ← gets (λ w. ltb max_bytes (used_bytes w.task_events + reserved_bytes w.task_snapshots))
    raise_if small lifecycle_capacity
    modify (λ db. record db { event_max_bytes = max_bytes })
