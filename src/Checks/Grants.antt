-- ===== src/Checks/Grants.antt =====
-- Approvals at concrete inputs.
use agentbridge.Base.{◌≤◌, List, ◌+◌, ◌≡◌, refl, some, [], ◌∷◌, string_eq}
use agentbridge.Base.Dict.{lookup, IsKeyed}
use agentbridge.Approvals.Queue.{consume, is_granted}
use agentbridge.Approvals.Grants.{times_spent, is_used_up, grants_balance}
use agentbridge.Approvals.Schedule.{
  ApprovalCall, one_if, said_yes, live, used, given, queue_run, approve_call, consume_call,
  request_call,
}
use agentbridge.Approvals.Consume.{consume-is_granted}
use agentbridge.Checks.Sample.{start}

-- "g2" is requested and approved; "g1" is consumed once and refused the second time.
abbrev schedule : List ApprovalCall
schedule =
    request_call "ann" "pay" 9 (some "s2") "g2" 5
    ∷ approve_call "g2"
    ∷ consume_call "ann" "pay" (some "s1")
    ∷ consume_call "ann" "pay" (some "s1")
    ∷ []

grants_balance_example :
    (used schedule start + live (queue_run schedule start).approvals
      ≡ given schedule start + live start.approvals)
    × (times_spent "g1" schedule start + one_if (is_used_up (lookup "g1" start.approvals)) ≤ 1)
grants_balance_example = grants_balance schedule start "g1"

start-IsKeyed : IsKeyed start.approvals
unfolding lookup
start-IsKeyed = (refl, tt)

consume-is_granted_example :
    said_yes (consume "ann" "pay" (some "s1") start).0 ≡ is_granted "ann" "pay" (some "s1") start
consume-is_granted_example = consume-is_granted "ann" "pay" (some "s1") start start-IsKeyed
