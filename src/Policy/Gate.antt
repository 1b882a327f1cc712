-- ===== src/Policy/Gate.antt =====
-- What `authorize` of src/governance/policy.py lets through.
use agentbridge.Base.{Bool, true, false, ◌&&◌, ◌≡◌, Option, none, some, string_eq, arith}
use agentbridge.Base.Dict.{lookup}
use agentbridge.Store.{World}
use agentbridge.Store.Exec.{Decision, config_error, Result, ok, err}
use agentbridge.Budget.State.{can_afford_in, seed}
use agentbridge.Budget.Manager
use agentbridge.Budget.Manager.{base_budget}
use agentbridge.Approvals.Queue.{requires_approval, is_granted}
use agentbridge.Policy.Rules.{RuleResult}
use agentbridge.Policy.Engine.{Config, Request, Clock, is_legacy, authorize}

abbrev pub is_none {ℓ} : {A : Type ℓ} → Option A → Bool
is_none none = true
is_none (some _) = false

-- What the rules say of a call.
abbrev pub rules_allow : Option RuleResult → Bool
rules_allow none = true
rules_allow (some r) = r.allowed

abbrev pub rules_need : Option RuleResult → Bool
rules_need none = false
rules_need (some r) = r.needs_approval

-- Whether the budget of the caller has room for the cost.
abbrev pub has_room : Config → Request → Clock → World → Bool
has_room c r t w =
    (can_afford_in r.cost t.now
      (seed (base_budget c.default_budget r.agent_id w) (lookup r.agent_id w.budgets))).0.0

-- The call returns, with a value that has the property.
abbrev pub Answers : (Decision → Type 0) → Result Decision → Type 0
Answers P (ok d) = P d
Answers P (err e) = ⊥

module _ (c : Config) (r : Request) (t : Clock) (w : World) where
  abbrev pub sensitive : Bool
  sensitive = c.has_approvals && requires_approval r.capability w

  abbrev pub approved_now : Bool
  approved_now = is_granted r.agent_id r.capability r.request_scope w

  -- Outside legacy mode nothing is decided.
  pub authorize_other_mode :
      is_legacy c.authority_mode ≡ false → authorize c r t w ≡ (err config_error, w)
  unfolding authorize
  authorize_other_mode h = ground arith
