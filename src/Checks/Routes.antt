-- ===== src/Checks/Routes.antt =====
-- A routed call at concrete inputs.
use agentbridge.Base.{String, ◌≡◌, refl}
use agentbridge.Base.Dict.{lookup, insert, remove}
use agentbridge.Store.Exec.{Exec, Error, ok, pure}
use agentbridge.Budget.State.{prune, checked_cost, seed, reserve_in, commit_in, can_afford_in}
use agentbridge.Budget.Manager.{reserve, mutate_budget, get_budget, commit, can_afford}
use agentbridge.Ledger.Defs.{claim, claim_body, attach_reservation, is_attached, finish, get}
use agentbridge.Ledger.Settlement.{settle_owned_reservation, lock_unknown_operation}
use agentbridge.Approvals.Queue.{
  consume, consume_first, consume_approval, list_approvals, by_time, put_by_time, scoped_capability,
  requires_approval, is_granted, any_match,
}
use agentbridge.Policy.Identity.{is_registered}
use agentbridge.Policy.Engine.{
  authorize, approval_step, rule_step, budget_step, current_identity_policy, identity_denial,
  current_rule,
}
use agentbridge.Audit.Table.{insert_audit, append_audit_chained}
use agentbridge.Audit.Log.{record_entry}
use agentbridge.Gateway.Admit.{Admission, admit, decided, admitted, admit_body, admit_transaction}
use agentbridge.Gateway.Settle.{settle, settle_body, audit_admission}
use agentbridge.Gateway.Route.{route_call, after_invoke, after_settle}
use agentbridge.Gateway.Routed.{route_call-ok}
use agentbridge.Checks.Sample.{start, gateway, call_of, fresh}

abbrev spelled : Error → String
spelled e = "failed"

abbrev answer : Admission → Exec String
answer a = pure "paid"

route_call-ok_example :
    (a : Admission) × ((admit gateway (call_of "op1" "s1") fresh start).0 ≡ ok a)
    × ((answer a (admit gateway (call_of "op1" "s1") fresh start).1).0 ≡ ok "paid")
    × ((settle gateway a 1001 (answer a (admit gateway (call_of "op1" "s1") fresh start).1).1).0
        ≡ ok tt)
    × ((route_call gateway spelled 1001 (call_of "op1" "s1") fresh answer start).1
        ≡ (settle gateway a 1001 (answer a (admit gateway (call_of "op1" "s1") fresh start).1).1).1)
unfolding admit decided admitted authorize approval_step rule_step budget_step
    current_identity_policy identity_denial current_rule is_registered requires_approval is_granted
    any_match can_afford can_afford_in get admit_transaction admit_body claim claim_body lookup
    insert reserve mutate_budget checked_cost seed reserve_in prune attach_reservation is_attached
    consume consume_first consume_approval list_approvals by_time put_by_time scoped_capability
    settle settle_body audit_admission settle_owned_reservation lock_unknown_operation get_budget
    commit commit_in finish record_entry append_audit_chained insert_audit remove route_call
    after_invoke after_settle
route_call-ok_example =
    route_call-ok gateway spelled 1001 (call_of "op1" "s1") fresh answer start "paid" refl
