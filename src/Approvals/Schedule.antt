-- ===== src/Approvals/Schedule.antt =====
-- Schedules of calls on the queue of src/governance/approvals.py, and what they do to the live grants.
use agentbridge.Base.{
  ℕ, ◌+◌, String, ◌≡◌, Bool, true, false, Option, none, some, List, [], ◌∷◌, string_eq, arith, inl,
  inr, Option-cases,
}
use agentbridge.Base.Dict.{Dict, lookup, insert}
use agentbridge.Store.{pending, approved, denied, consumed, ApprovalRow, World}
use agentbridge.Store.Exec.{Result, ok}
use agentbridge.Approvals.Queue.{
  is_approved, insert_approval, consume_approval, consume_first, request, approve, deny, consume,
  update_approval_status, list_approvals, scoped_capability,
}

abbrev pub one_if : Bool → ℕ
one_if true = 1
one_if false = 0

-- How many grants may still be used.
abbrev pub live : Dict String ApprovalRow → ℕ
live [] = 0
live ((_, a) ∷ rows) = one_if (is_approved a.status) + live rows

live-insert_old :
    (k : String) (a b : ApprovalRow) (d : Dict String ApprovalRow)
    → lookup k d ≡ some a
    → live (insert k b d) + one_if (is_approved a.status) ≡ live d + one_if (is_approved b.status)
unfolding lookup insert
live-insert_old k a b [] h = cc
live-insert_old k a b ((j, c) ∷ d) h = ground (arith, live-insert_old k a b d)

live-insert_new :
    (k : String) (b : ApprovalRow) (d : Dict String ApprovalRow)
    → lookup k d ≡ none
    → live (insert k b d) ≡ live d + one_if (is_approved b.status)
unfolding lookup insert
live-insert_new k b [] h = omega arith
live-insert_new k b ((j, c) ∷ d) h = ground (arith, live-insert_new k b d)

-- Whether a call returned true.
abbrev pub said_yes : Result Bool → Bool
said_yes (ok true) = true
said_yes _ = false

module _ (id : String) (w : World) where
  live-approve :
      live (approve id w).1.approvals ≡ live w.approvals + one_if (said_yes (approve id w).0)
  unfolding approve update_approval_status
  live-approve = elim (Option-cases (lookup id w.approvals)) [
    | inl e ↦ ground arith
    | inr (a, e) ↦
        ground (arith, live-insert_old id a (record a { status = approved }) w.approvals e)
  ]

  live-deny : live (deny id w).1.approvals ≡ live w.approvals
  unfolding deny update_approval_status
  live-deny = elim (Option-cases (lookup id w.approvals)) [
    | inl e ↦ ground arith
    | inr (a, e) ↦ ground (arith, live-insert_old id a (record a { status = denied }) w.approvals e)
  ]

  live-consume_approval :
      live (consume_approval id w).1.approvals + one_if (said_yes (consume_approval id w).0)
      ≡ live w.approvals
  unfolding consume_approval
  live-consume_approval = elim (Option-cases (lookup id w.approvals)) [
    | inl e ↦ ground arith
    | inr (a, e) ↦
        ground (arith, live-insert_old id a (record a { status = consumed }) w.approvals e)
  ]

live-request :
    (agent cap : String) (cost : ℕ) (scope : Option String) (id : String) (at : ℕ) (w : World)
    → live (request agent cap cost scope id at w).1.approvals ≡ live w.approvals
unfolding request insert_approval
live-request agent cap cost scope id at w = elim (Option-cases (lookup id w.approvals)) [
  | inl e ↦ ground (
    arith,
    live-insert_new id
        (record {
          agent_id = agent;
          capability = scoped_capability cap scope;
          cost = cost;
          status = pending;
          created_at = at;
        })
        w.approvals e,
  )
  | inr (a, e) ↦ ground arith
]

live-consume_first :
    (agent scoped : String) (rows : List (String × ApprovalRow)) (w : World)
    → live (consume_first agent scoped rows w).1.approvals
        + one_if (said_yes (consume_first agent scoped rows w).0)
      ≡ live w.approvals
unfolding consume_first
live-consume_first agent scoped [] w = omega arith
live-consume_first agent scoped ((id, a) ∷ rows) w = ground (
  arith,
  live-consume_approval id w,
  live-consume_first agent scoped rows w,
  live-consume_first agent scoped rows (consume_approval id w).1,
)

live-consume :
    (agent cap : String) (scope : Option String) (w : World)
    → live (consume agent cap scope w).1.approvals + one_if (said_yes (consume agent cap scope w).0)
      ≡ live w.approvals
unfolding consume list_approvals
live-consume agent cap scope w = live-consume_first agent (scoped_capability cap scope) _ w

-- The calls on the queue.
pub data ApprovalCall : Type 0 where
  request_call : String → String → ℕ → Option String → String → ℕ → ApprovalCall
  approve_call deny_call : String → ApprovalCall
  consume_call : String → String → Option String → ApprovalCall

abbrev pub queue_apply : ApprovalCall → World → World
queue_apply (request_call a c cost s id at) w = (request a c cost s id at w).1
queue_apply (approve_call id) w = (approve id w).1
queue_apply (deny_call id) w = (deny id w).1
queue_apply (consume_call a c s) w = (consume a c s w).1

pub queue_run : List ApprovalCall → World → World
queue_run [] w = w
queue_run (c ∷ cs) w = queue_run cs (queue_apply c w)

abbrev pub gives : ApprovalCall → World → Bool
gives (approve_call id) w = said_yes (approve id w).0
gives _ w = false

abbrev pub uses : ApprovalCall → World → Bool
uses (consume_call a c s) w = said_yes (consume a c s w).0
uses _ w = false

-- How many approvals, and how many consumptions, of a schedule return true.
pub given : List ApprovalCall → World → ℕ
given [] w = 0
given (c ∷ cs) w = one_if (gives c w) + given cs (queue_apply c w)

pub used : List ApprovalCall → World → ℕ
used [] w = 0
used (c ∷ cs) w = one_if (uses c w) + used cs (queue_apply c w)

live-apply :
    (c : ApprovalCall) (w : World)
    → live (queue_apply c w).approvals + one_if (uses c w) ≡ live w.approvals + one_if (gives c w)
live-apply (request_call a c cost s id at) w = omega (arith, live-request a c cost s id at w)
live-apply (approve_call id) w = omega (arith, live-approve id w)
live-apply (deny_call id) w = omega (arith, live-deny id w)
live-apply (consume_call a c s) w = omega (arith, live-consume a c s w)

-- The grants that were consumed and those still live are those live at first and those approved since.
pub balance :
    (calls : List ApprovalCall) (w : World)
    → used calls w + live (queue_run calls w).approvals ≡ given calls w + live w.approvals
unfolding used given queue_run
balance [] w = omega arith
balance (c ∷ cs) w = omega (arith, live-apply c w, balance cs (queue_apply c w))
