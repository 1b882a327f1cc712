-- ===== src/Checks/Rules.antt =====
-- Policies, identities and roles at concrete inputs.
use agentbridge.Base.{◌≡◌, refl, true, false, not, none, [], ◌∷◌, string_eq}
use mathlib.Core.List.{Permᴰ}
use agentbridge.Policy.Rules.{
  Rule, PolicyContext, max_cost_per_call, require_approval_above_cost, deny_capabilities, evaluate,
}
use agentbridge.Policy.RuleOrder.{some_denies, some_needs, evaluate_lem, evaluate-perm}

abbrev context : PolicyContext
context = record {
  agent_id = "ann";
  capability = "pay";
  cost = 7;
  src_protocol = none;
  dst_protocol = none;
  weekday = 1;
  hour = 12;
}

abbrev ask : Rule
ask = require_approval_above_cost 5

abbrev refuse_pay : Rule
refuse_pay = deny_capabilities ("pay" ∷ [])

evaluate_lem_example :
    ((evaluate (ask ∷ max_cost_per_call 9 ∷ []) context).allowed
      ≡ not (some_denies (ask ∷ max_cost_per_call 9 ∷ []) context))
    × (some_denies (ask ∷ max_cost_per_call 9 ∷ []) context ≡ false
        → (evaluate (ask ∷ max_cost_per_call 9 ∷ []) context).needs_approval
          ≡ some_needs (ask ∷ max_cost_per_call 9 ∷ []) context)
evaluate_lem_example = evaluate_lem (ask ∷ max_cost_per_call 9 ∷ []) context

evaluate-perm_example :
    ((evaluate (ask ∷ refuse_pay ∷ []) context).allowed
      ≡ (evaluate (refuse_pay ∷ ask ∷ []) context).allowed)
    × ((evaluate (ask ∷ refuse_pay ∷ []) context).allowed ≡ true
        → (evaluate (ask ∷ refuse_pay ∷ []) context).needs_approval
          ≡ (evaluate (refuse_pay ∷ ask ∷ []) context).needs_approval)
evaluate-perm_example =
    evaluate-perm (ask ∷ refuse_pay ∷ []) (refuse_pay ∷ ask ∷ []) context (Permᴰ.swap refl refl)
