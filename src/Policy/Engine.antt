-- ===== src/Policy/Engine.antt =====
-- `PolicyEngine` of src/governance/policy.py without an authority directory (the legacy
-- single-tenant mode that `require_legacy_authority` of src/authority_mode.py guards).
use agentbridge.Base.{
  ℕ, String, Bool, true, false, not, ◌&&◌, ◌||◌, Option, none, some, List, [], ◌∷◌, ◌==◌, string_eq,
  if◌then◌else◌, contains,
}
use agentbridge.Base.Dict.{Dict, lookup, insert}
use agentbridge.Store.{BudgetState, World}
use agentbridge.Store.Exec.{
  Exec, Decision, Reason, config_error, authorized, dispatch_allowed, unknown_identity,
  signature_failed, not_permitted, allowlist_missing, allowlist_invalid, approval_required_for, ok,
  pure, gets, raise_if, ◌>>=◌, ◌>>◌,
}
use agentbridge.Budget.State.{num}
use agentbridge.Budget.Manager
use agentbridge.Approvals.Queue.{requires_approval, is_granted}
use agentbridge.Policy.Rules.{Rule, RuleResult, PolicyContext, evaluate}
use agentbridge.Policy.Identity.{is_registered, verify_signature}

-- What an engine is built with, and the environment that it reads. `production` is the test of
-- `AGENTBRIDGE_ENV`; `allowlists` is the parsed `AGENTBRIDGE_CAPABILITY_ALLOWLIST_JSON`, `none` if it
-- is no JSON object, with `none` for a value that is no list of texts.
pub record Config : Type 0 where
  pub authority_mode : Option String
  pub production : Bool
  pub allowlists : Option (Dict String (Option (List String)))
  pub require_verified : Bool
  pub has_approvals : Bool
  pub policy_set : Option (List Rule)
  pub default_budget : BudgetState
  pub verify : String → String → String → Bool

-- The arguments of `authorize`; the cost has been checked.
pub record Request : Type 0 where
  pub agent_id : String
  pub capability : String
  pub cost : ℕ
  pub signed_data : Option String
  pub signature : Option String
  pub src_protocol : Option String
  pub dst_protocol : Option String
  pub request_scope : Option String

-- What a call reads of the clock.
pub record Clock : Type 0 where
  pub now : ℕ
  pub weekday : ℕ
  pub hour : ℕ

abbrev pub refused : Reason → Decision
refused r = record {
  allowed = false;
  reason = r;
  needs_approval = false;
  approval_required = false;
}

abbrev pub awaits : Reason → Decision
awaits r = record { allowed = false; reason = r; needs_approval = true; approval_required = false }

abbrev pub granted_as : Reason → Bool → Decision
granted_as r required = record {
  allowed = true;
  reason = r;
  needs_approval = false;
  approval_required = required;
}

-- `authority_mode() == "legacy_single_tenant"`; an unknown mode raises too
abbrev pub is_legacy : Option String → Bool
is_legacy none = true
is_legacy (some mode) = mode == "legacy_single_tenant"

unfoldable pub allow_capability : String → String → Exec (Unit {0})
allow_capability agent_id capability w = (
  ok tt,
  record w {
    capability_allow =
        insert agent_id (capability ∷ Manager.or_else (lookup agent_id w.capability_allow) [])
          w.capability_allow;
  },
)

abbrev listed : Request → Option (List String) → Option Decision
listed r none = none
listed r (some allowed) =
    if contains r.capability allowed
    then none
    else some (refused (not_permitted r.capability r.agent_id))

abbrev production_listed : Request → Option (Option (List String)) → Option Decision
production_listed r none = some (refused allowlist_missing)
production_listed r (some none) = some (refused allowlist_missing)
production_listed r (some (some allowed)) = listed r (some allowed)

abbrev production_denial : Request → Option (Dict String (Option (List String))) → Option Decision
production_denial r none = some (refused allowlist_invalid)
production_denial r (some lists) = production_listed r (lookup r.agent_id lists)

-- A signature is checked only where both the data and the signature are given.
abbrev pub bad_signature : Config → Request → Option String → Option String → World → Bool
bad_signature c r (some message) (some signature) w =
    not (verify_signature c.verify r.agent_id message signature w)
bad_signature c r _ _ w = false

abbrev pub capability_denial : Config → Request → World → Option Decision
capability_denial c r w =
    if c.production
    then production_denial r c.allowlists
    else listed r (lookup r.agent_id w.capability_allow)

unfoldable pub identity_denial : Config → Request → World → Option Decision
identity_denial c r w =
    if c.require_verified && not (is_registered r.agent_id w)
    then some (refused (unknown_identity r.agent_id))
    else if bad_signature c r r.signed_data r.signature w
    then some (refused signature_failed)
    else capability_denial c r w

-- `_current_identity_policy`
unfoldable pub current_identity_policy : Config → Request → Exec (Option Decision)
current_identity_policy c r = do
  raise_if (not (is_legacy c.authority_mode)) config_error
  gets (identity_denial c r)

abbrev rule_of : Option (List Rule) → PolicyContext → Option RuleResult
rule_of none ctx = none
rule_of (some rules) ctx = some (evaluate rules ctx)

-- `_current_rule`
unfoldable pub current_rule : Config → Request → Clock → Option RuleResult
current_rule c r t = rule_of c.policy_set (record {
  agent_id = r.agent_id;
  capability = r.capability;
  cost = r.cost;
  src_protocol = r.src_protocol;
  dst_protocol = r.dst_protocol;
  weekday = t.weekday;
  hour = t.hour;
})

abbrev pub affordable : Bool → Bool × Reason → Decision
affordable required (true, why) = granted_as authorized required
affordable required (false, why) = refused why

module _ (c : Config) (r : Request) (t : Clock) where
  unfoldable pub budget_step : Bool → Exec Decision
  budget_step required = do
    answer ← Manager.can_afford c.default_budget r.agent_id (num r.cost) t.now
    pure (affordable required answer)

  unfoldable pub rule_step : Bool → Bool → Option RuleResult → Exec Decision
  unfolding budget_step
  rule_step required granted none = budget_step required
  rule_step required granted (some rule) =
      if not rule.allowed
      then pure (refused rule.reason)
      else if rule.needs_approval
      then (if not (c.has_approvals && granted)
          then pure (awaits rule.reason)
          else budget_step true)
      else budget_step required

  unfoldable pub approval_step : Option Decision → Exec Decision
  unfolding rule_step
  approval_step (some denial) = pure denial
  approval_step none = do
    required ← gets (λ w. c.has_approvals && requires_approval r.capability w)
    granted ← gets (is_granted r.agent_id r.capability r.request_scope)
    if required && not granted
        then pure (awaits (approval_required_for r.capability))
        else rule_step required granted (current_rule c r t)

  unfoldable pub authorize : Exec Decision
  unfolding approval_step current_identity_policy
  authorize = do denial ← current_identity_policy c r; approval_step denial

  abbrev dispatch_rule : Bool → Option RuleResult → Decision
  dispatch_rule required none = granted_as dispatch_allowed required
  dispatch_rule required (some rule) =
      if not rule.allowed
      then refused rule.reason
      else granted_as dispatch_allowed (required || rule.needs_approval)

  abbrev dispatch_step : Option Decision → Exec Decision
  dispatch_step (some denial) = pure denial
  dispatch_step none = do
    required ← gets (λ w. c.has_approvals && requires_approval r.capability w)
    pure (dispatch_rule required (current_rule c r t))

  unfoldable pub current_dispatch_policy : Exec Decision
  unfolding current_identity_policy
  current_dispatch_policy = do denial ← current_identity_policy c r; dispatch_step denial
