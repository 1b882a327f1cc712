-- ===== src/Approvals/Grants.antt =====
-- A grant is used at most once (src/governance/approvals.py).
use agentbridge.Base.{
  not, ◌&&◌, ◌≤◌, ℕ, ◌+◌, String, ◌≡◌, Bool, true, false, Option, none, some, List, [], ◌∷◌,
  string_eq, arith, inl, inr, Option-cases,
}
use agentbridge.Base.Dict.{lookup, lookup-insert}
use text.Mathlib.TextEquality.{eq_iff}
use agentbridge.Store.{pending, approved, denied, consumed, ApprovalStatus, ApprovalRow, World}
use agentbridge.Approvals.Queue.{
  insert_approval, consume_approval, consume_first, request, approve, deny, consume,
  update_approval_status, list_approvals, scoped_capability,
}
use agentbridge.Approvals.Schedule.{
  one_if, live, ApprovalCall, request_call, approve_call, deny_call, consume_call, queue_apply,
  queue_run, given, used, balance,
}

abbrev pub is_consumed : ApprovalStatus → Bool
is_consumed consumed = true
is_consumed _ = false

-- Whether the row is a grant that was consumed.
abbrev pub is_used_up : Option ApprovalRow → Bool
is_used_up none = false
is_used_up (some a) = is_consumed a.status

-- Whether a call consumes the grant `id`.
abbrev pub spends : String → ApprovalCall → World → Bool
spends id c w =
    not (is_used_up (lookup id w.approvals)) && is_used_up (lookup id (queue_apply c w).approvals)

-- How often a schedule consumes the grant `id`.
pub times_spent : String → List ApprovalCall → World → ℕ
times_spent id [] w = 0
times_spent id (c ∷ cs) w = one_if (spends id c w) + times_spent id cs (queue_apply c w)

-- A consumed grant stays as it is.
module _ (id : String) where
  abbrev StaysUsed : World → World → Type 0
  StaysUsed w v =
      is_used_up (lookup id w.approvals) ≡ true → is_used_up (lookup id v.approvals) ≡ true

  consume_approval-StaysUsed : (k : String) (w : World) → StaysUsed w (consume_approval k w).1
  unfolding consume_approval
  consume_approval-StaysUsed k w h = elim (Option-cases (lookup k w.approvals)) [
    | inl e ↦ ground (arith, h, e)
    | inr (a, e) ↦
        ground (
          arith,
          h,
          e,
          eq_iff k id,
          lookup-insert k id (record a { status = consumed }) w.approvals,
        )
  ]

  consume_first-StaysUsed :
      (agent scoped : String) (rows : List (String × ApprovalRow)) (w : World)
      → StaysUsed w (consume_first agent scoped rows w).1
  unfolding consume_first
  consume_first-StaysUsed agent scoped [] w h = h
  consume_first-StaysUsed agent scoped ((k, a) ∷ rows) w h = ground (
    arith,
    h,
    consume_approval-StaysUsed k w,
    consume_first-StaysUsed agent scoped rows w,
    consume_first-StaysUsed agent scoped rows (consume_approval k w).1,
  )

  apply-StaysUsed : (c : ApprovalCall) (w : World) → StaysUsed w (queue_apply c w)
  unfolding approve deny update_approval_status request insert_approval consume list_approvals
  apply-StaysUsed (request_call agent cap cost scope k at) w h = ground (
    arith,
    h,
    eq_iff k id,
    lookup-insert k id
        (record {
          agent_id = agent;
          capability = scoped_capability cap scope;
          cost = cost;
          status = pending;
          created_at = at;
        })
        w.approvals,
  )
  apply-StaysUsed (approve_call k) w h = elim (Option-cases (lookup k w.approvals)) [
    | inl e ↦ ground (arith, h, e)
    | inr (a, e) ↦
        ground (
          arith,
          h,
          e,
          eq_iff k id,
          lookup-insert k id (record a { status = approved }) w.approvals,
        )
  ]
  apply-StaysUsed (deny_call k) w h = elim (Option-cases (lookup k w.approvals)) [
    | inl e ↦ ground (arith, h, e)
    | inr (a, e) ↦
        ground
          (arith, h, e, eq_iff k id, lookup-insert k id (record a { status = denied }) w.approvals)
  ]
  apply-StaysUsed (consume_call agent cap scope) w h =
      consume_first-StaysUsed agent (scoped_capability cap scope) _ w h

  spent_once :
      (calls : List ApprovalCall) (w : World)
      → times_spent id calls w + one_if (is_used_up (lookup id w.approvals)) ≤ 1
  unfolding times_spent
  spent_once [] w = ground arith
  spent_once (c ∷ cs) w = ground (arith, apply-StaysUsed c w, spent_once cs (queue_apply c w))

-- Over any schedule of requests, approvals, denials and consumptions by any workers, the grants that
-- were consumed and those still live are exactly those live at first and those approved since, so
-- that none appears without an approval; and the grant of any one id turns to consumed at most once,
-- and never if it was consumed at first.
pub grants_balance :
    (calls : List ApprovalCall) (w : World) (id : String)
    → (used calls w + live (queue_run calls w).approvals ≡ given calls w + live w.approvals)
      × (times_spent id calls w + one_if (is_used_up (lookup id w.approvals)) ≤ 1)
grants_balance calls w id = (balance calls w, spent_once id calls w)
