-- ===== src/Policy/Rules.antt =====
-- src/governance/policy_rules.py: declarative rules and their composition.
use agentbridge.Base.{
  ℕ, String, Bool, true, false, not, ◌&&◌, ◌||◌, Option, none, some, List, [], ◌∷◌, ◌==◌, string_eq,
  nat_eq, ltb, leb, if◌then◌else◌, contains,
}
use agentbridge.Store.Exec.{
  Reason, no_reason, policy_ok, cost_exceeds_cap, approval_above, denied_by_policy,
  not_in_allowlist, outside_window, route_blocked,
}

-- `weekday` (0 is Monday) and `hour` are those of `ctx.when()`.
pub record PolicyContext : Type 0 where
  pub agent_id : String
  pub capability : String
  pub cost : ℕ
  pub src_protocol : Option String
  pub dst_protocol : Option String
  pub weekday : ℕ
  pub hour : ℕ

pub record RuleResult : Type 0 where
  pub allowed : Bool
  pub reason : Reason
  pub needs_approval : Bool

pub data Rule : Type 0 where
  max_cost_per_call : ℕ → Rule
  require_approval_above_cost : ℕ → Rule
  deny_capabilities : List String → Rule
  allow_only_capabilities : List String → Rule
  business_hours_only : ℕ → ℕ → List ℕ → Rule
  deny_protocol_route : String → String → Rule

abbrev pub passes : RuleResult
passes = record { allowed = true; reason = no_reason; needs_approval = false }

abbrev pub denies : Reason → RuleResult
denies r = record { allowed = false; reason = r; needs_approval = false }

abbrev is_protocol : Option String → String → Bool
is_protocol none p = false
is_protocol (some q) p = q == p

unfoldable pub evaluate_rule : Rule → PolicyContext → RuleResult
evaluate_rule (max_cost_per_call max_cost) ctx =
    if ltb max_cost ctx.cost then denies (cost_exceeds_cap ctx.cost max_cost) else passes
evaluate_rule (require_approval_above_cost threshold) ctx =
    if ltb threshold ctx.cost
    then record {
      allowed = true;
      reason = approval_above ctx.cost threshold;
      needs_approval = true;
    }
    else passes
evaluate_rule (deny_capabilities caps) ctx =
    if contains ctx.capability caps then denies (denied_by_policy ctx.capability) else passes
evaluate_rule (allow_only_capabilities caps) ctx =
    if not (contains ctx.capability caps) then denies (not_in_allowlist ctx.capability) else passes
evaluate_rule (business_hours_only start end days) ctx =
    if not (contains ctx.weekday days) || not (leb start ctx.hour && ltb ctx.hour end)
    then denies outside_window
    else passes
evaluate_rule (deny_protocol_route src dst) ctx =
    if is_protocol ctx.src_protocol src && is_protocol ctx.dst_protocol dst
    then denies (route_blocked src dst)
    else passes

-- `r.reason or approval_reason`
abbrev pub or_reason : Reason → Reason → Reason
or_reason no_reason old = old
or_reason r old = r

-- The loop of `PolicySet.evaluate` with its two variables.
unfoldable pub evaluate_from : Bool → Reason → List Rule → PolicyContext → RuleResult
evaluate_from needs reason [] ctx = record {
  allowed = true;
  reason = if needs then reason else policy_ok;
  needs_approval = needs;
}
evaluate_from needs reason (rule ∷ rules) ctx =
    let r = evaluate_rule rule ctx in
    let rest =
      evaluate_from (needs || r.needs_approval)
        (if r.needs_approval then or_reason r.reason reason else reason) rules ctx in
    if not r.allowed then r else rest

unfoldable pub evaluate : List Rule → PolicyContext → RuleResult
unfolding evaluate_from
evaluate rules ctx = evaluate_from false no_reason rules ctx
