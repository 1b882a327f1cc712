-- ===== src/Checks/Calls.antt =====
-- Governed calls at concrete inputs.
use agentbridge.Base.{[], ◌∷◌, ◌++◌, true, ◌≡◌, ◌⊎◌, refl, none, string_eq, pair_eq}
use agentbridge.Budget.State.{can_afford_in, prune, checked_cost, seed, reserve_in, commit_in}
use agentbridge.Budget.Manager.{can_afford, reserve, mutate_budget, get_budget, commit}
use agentbridge.Ledger.Defs.{get, claim, claim_body, attach_reservation, is_attached, finish}
use agentbridge.Approvals.Queue.{
  requires_approval, is_granted, any_match, consume, consume_first, consume_approval,
  list_approvals, by_time, put_by_time, scoped_capability,
}
use agentbridge.Policy.Identity.{is_registered}
use agentbridge.Policy.Engine.{
  authorize, approval_step, rule_step, budget_step, current_identity_policy, identity_denial,
  current_rule, refused,
}
use agentbridge.Gateway.Admit.{
  request_of, Admission, admit, decided, admitted, admit_body, admit_transaction,
}
use agentbridge.Gateway.Entry.{is_proven, admit-ok}
use agentbridge.Base.Dict.{IsKeyed, lookup, insert}
use agentbridge.Store.Exec.{
  Error, ok, err, operation_conflict, already_settled, admission_rejected, grant_consumed,
}
use agentbridge.Ledger.Settlement.{settle_owned_reservation, lock_unknown_operation}
use agentbridge.Audit.Table.{insert_audit, append_audit_chained}
use agentbridge.Audit.Log.{record_entry}
use agentbridge.Gateway.Standing.{SameAccounts, IsAdmitted}
use agentbridge.Gateway.Admitted.{admit_transaction-ok}
use agentbridge.Gateway.Refused.{IsNew, LacksBudget, LacksGrant, admit_transaction-err}
use agentbridge.Gateway.Settle.{
  settle, settle_body, audit_admission, abort_admission, invocation_failed,
}
use agentbridge.Gateway.Settled.{
  entry, charged, allowed_fields, settle-exact, settle-once, invocation_failed-keeps,
}
use agentbridge.Checks.Sample.{
  start, purse, open_row, gateway, call_of, fresh, needs_grant, admission,
}

admit_transaction-ok_example :
    ("t1" ≡ fresh.token)
    × (lookup ("ann", "op1") start.agent_operations ≡ none)
    × IsAdmitted
        (call_of "op1" "s1")
        fresh
        "op1"
        (admit_transaction gateway (call_of "op1" "s1") fresh needs_grant start).1
unfolding admit_transaction admit_body claim claim_body lookup insert reserve mutate_budget
    checked_cost seed reserve_in prune attach_reservation is_attached consume consume_first
    consume_approval list_approvals by_time put_by_time scoped_capability
admit_transaction-ok_example =
    admit_transaction-ok gateway (call_of "op1" "s1") fresh "op1" needs_grant start "t1" refl refl

invocation_failed-keeps_example :
    SameAccounts (invocation_failed gateway admission 1001 "boom" start).1 start
invocation_failed-keeps_example =
    invocation_failed-keeps gateway admission 1001 "op0" "boom" start refl

settle-exact_example :
    (((record_entry gateway.hash gateway.size
          (allowed_fields gateway admission 1001 "op0" purse open_row start)
          (charged gateway admission 1001 "op0" purse open_row start)).0
        ≡ ok (entry gateway admission 1001 "op0" purse open_row start))
      × ((settle gateway admission 1001 start).0 ≡ ok tt)
      × SameAccounts
          (settle gateway admission 1001 start).1
          (charged gateway admission 1001 "op0" purse open_row start)
      × ((settle gateway admission 1001 start).1.audit
          ≡ start.audit ++ entry gateway admission 1001 "op0" purse open_row start ∷ []))
    ⊎ ((e : Error) × ((record_entry gateway.hash gateway.size
            (allowed_fields gateway admission 1001 "op0" purse open_row start)
            (charged gateway admission 1001 "op0" purse open_row start)).0
          ≡ err e)
        × ((settle gateway admission 1001 start).0 ≡ err e)
        × ((settle gateway admission 1001 start).1.db ≡ start.db))
unfolding lookup
settle-exact_example =
    settle-exact gateway admission 1001 "op0" purse open_row start refl refl refl refl refl refl

settle-once_example :
    let after = (settle gateway admission 1001 start).1 in
    (settle gateway admission 1002 after ≡ (err (operation_conflict already_settled), after))
    × (abort_admission gateway admission 1002 after
        ≡ (err (operation_conflict already_settled), after))
unfolding lookup settle settle_body audit_admission settle_owned_reservation lock_unknown_operation
    get_budget commit mutate_budget seed commit_in finish record_entry append_audit_chained
    insert_audit
settle-once_example =
    settle-once gateway admission 1001 1002 "op0" purse open_row start refl refl refl refl refl refl
      refl

-- There is no grant for the scope "s9".
asks-IsNew : IsNew gateway (call_of "op1" "s9") fresh "op1" start
unfolding lookup is_attached
asks-IsNew = record { sized = refl; unknown = refl; unbound = refl; unattached = refl }

asks-IsKeyed : IsKeyed start.approvals
unfolding lookup
asks-IsKeyed = (refl, tt)

abbrev no_grant : Error
no_grant = admission_rejected (refused grant_consumed)

admit_transaction-err_example :
    (LacksBudget gateway (call_of "op1" "s9") fresh "op1" start needs_grant no_grant
      ⊎ LacksGrant gateway (call_of "op1" "s9") fresh "op1" start needs_grant no_grant)
    × ((admit_transaction gateway (call_of "op1" "s9") fresh needs_grant start).1.db ≡ start.db)
unfolding admit_transaction admit_body claim claim_body lookup insert reserve mutate_budget
    checked_cost seed reserve_in prune attach_reservation is_attached consume consume_first
    list_approvals by_time put_by_time scoped_capability
admit_transaction-err_example =
    admit_transaction-err gateway (call_of "op1" "s9") fresh "op1" start needs_grant no_grant refl
      asks-IsNew asks-IsKeyed refl

abbrev let_through : Admission
let_through = record {
  call = call_of "op1" "s1";
  token = "t1";
  wire = "wire";
  decision = needs_grant;
}

admit-ok_example :
    ((authorize gateway.config (request_of (call_of "op1" "s1")) fresh.clock start).0
      ≡ ok let_through.decision)
    × (let_through.decision.allowed ≡ true)
    × (is_proven gateway (call_of "op1" "s1") fresh start ≡ true)
    × (let_through.token ≡ fresh.token)
    × IsAdmitted (call_of "op1" "s1") fresh "op1" (admit gateway (call_of "op1" "s1") fresh start).1
unfolding admit decided admitted authorize approval_step rule_step budget_step
    current_identity_policy identity_denial current_rule is_registered requires_approval is_granted
    any_match can_afford can_afford_in get admit_transaction admit_body claim claim_body lookup
    insert reserve mutate_budget checked_cost seed reserve_in prune attach_reservation is_attached
    consume consume_first consume_approval list_approvals by_time put_by_time scoped_capability
admit-ok_example = admit-ok gateway (call_of "op1" "s1") fresh "op1" start let_through refl refl
