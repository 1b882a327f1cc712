-- ===== src/Tasks/State.antt =====
-- src/protocols/task_lifecycle.py: the states of a task and the transitions between them.
use Prim.Native.String.{count}
use agentbridge.Base.{
  ℕ, String, Bool, true, false, not, ◌&&◌, ◌||◌, ◌==◌, string_eq, leb, if◌then◌else◌,
}
use agentbridge.Store.{
  TaskState, submitted, working, input_required, auth_required, completed, canceled, rejected,
  TaskLifecycle,
}
use agentbridge.Store.Exec.{Result, ok, err, lifecycle_rejected}

-- `_TERMINAL`
unfoldable pub is_terminal : TaskState → Bool
is_terminal completed = true
is_terminal TaskState.failed = true
is_terminal canceled = true
is_terminal rejected = true
is_terminal _ = false

-- `_TRANSITIONS`
unfoldable pub allowed : TaskState → TaskState → Bool
allowed submitted submitted = false
allowed submitted completed = false
allowed submitted _ = true
allowed working submitted = false
allowed working working = false
allowed working _ = true
allowed input_required working = true
allowed input_required canceled = true
allowed input_required TaskState.failed = true
allowed input_required _ = false
allowed auth_required working = true
allowed auth_required canceled = true
allowed auth_required rejected = true
allowed auth_required TaskState.failed = true
allowed auth_required _ = false
allowed _ _ = false

-- `_identifier`; `strip` is Python's `str.strip`.
unfoldable pub is_identifier : (String → String) → String → Bool
is_identifier strip value =
    leb 1 (count value) && leb (count value) 128 && not (strip value == "") && strip value == value

-- `__post_init__`, on fields of the right types
unfoldable pub is_lifecycle : (String → String) → TaskLifecycle → Bool
unfolding is_identifier
is_lifecycle strip t =
    is_identifier strip t.task_id
    && is_identifier strip t.context_id
    && is_identifier strip t.source_protocol
    && (t.source_protocol == "a2a" || t.source_protocol == "agentbridge")

-- `TaskLifecycle.transition`
unfoldable pub transition : TaskLifecycle → TaskState → ℕ → Result TaskLifecycle
transition t new_state sequence =
    if leb sequence t.sequence
    then err lifecycle_rejected
    else if not (allowed t.state new_state)
    then err lifecycle_rejected
    else ok (record t { state = new_state; sequence = sequence })
