-- ===== src/Checks/Jobs.antt =====
-- Durable tasks at concrete inputs.
use agentbridge.Base.{ℕ, String, ◌≡◌, refl, arith, string_eq, pair_eq}
use agentbridge.Base.Dict.{lookup}
use agentbridge.Store.{submitted, input_required, TaskLifecycle}
use agentbridge.Store.Exec.{ok}
use agentbridge.Tasks.State.{is_terminal, allowed, is_identifier, transition}
use agentbridge.Tasks.Durable.{
  Limits, create, record_task, transition_task, advance, cancel, events_of, row_reserve,
  event_reserve, reserved_bytes, used_bytes, check_event_append, active_count,
}
use agentbridge.Tasks.Bytes.{HasRoom, transition_task-HasRoom}
use agentbridge.Tasks.Create.{create-HasRoom}
use agentbridge.Tasks.Cancel.{canceled_task, cancel_lem}
use agentbridge.Checks.Sample.{start, job, job_row}

abbrev limits : Limits
limits = record { max_active = 4; max_events = 3 }

abbrev small : TaskLifecycle → ℕ
small t = 200

abbrev strip : String → String
strip s = s

start-HasRoom : HasRoom small limits start
unfolding lookup events_of used_bytes reserved_bytes row_reserve is_terminal
start-HasRoom = record {
  bytes = ground arith;
  slot = λ (a, b) row e o. ground arith;
  column = λ (a, b) row e. ground arith;
  fresh = λ (a, b) e. ground arith;
}

transition_task-HasRoom_example :
    HasRoom small limits (transition_task small strip limits "ann" "job" input_required 0 start).1
unfolding transition_task advance transition allowed is_identifier is_terminal lookup events_of
    check_event_append used_bytes reserved_bytes row_reserve event_reserve
transition_task-HasRoom_example =
    transition_task-HasRoom small strip limits "ann" "job" input_required 0 start
      (record job { state = input_required; sequence = 1 }) start-HasRoom refl

abbrev other_job : TaskLifecycle
other_job = record job { task_id = "job2"; state = submitted }

create-HasRoom_example : HasRoom small limits (create small strip limits "bob" other_job start).1
unfolding create record_task is_identifier is_terminal lookup check_event_append active_count
    used_bytes reserved_bytes row_reserve event_reserve
create-HasRoom_example =
    create-HasRoom small strip limits "bob" other_job start other_job (ground arith) start-HasRoom
      refl

cancel_lem_example :
    (cancel small strip limits "ann" "job" 0 start).0
    ≡ ok (canceled_task small strip limits job_row)
unfolding lookup is_terminal is_identifier
cancel_lem_example =
    cancel_lem small strip limits "ann" "job" start job_row start-HasRoom refl refl refl refl
      (ground arith) refl (ground arith)
