-- ===== src/Policy/RuleOrder.antt =====
-- What a set of rules decides, from what each rule decides (src/governance/policy_rules.py).
use agentbridge.Base.{
  ◌≡◌, refl, Bool, true, false, not, ◌||◌, List, [], ◌∷◌, ◌++◌, if◌then◌else◌, arith,
}
use mathlib.Core.List.{Permᴰ}
use agentbridge.Store.Exec.{Reason, no_reason}
use agentbridge.Policy.Rules.{
  Rule, PolicyContext, evaluate_rule, evaluate_from, evaluate, or_reason,
}

-- Whether some rule denies, and whether some rule asks for approval.
abbrev pub some_denies : List Rule → PolicyContext → Bool
some_denies [] ctx = false
some_denies (rule ∷ rules) ctx = not (evaluate_rule rule ctx).allowed || some_denies rules ctx

abbrev pub some_needs : List Rule → PolicyContext → Bool
some_needs [] ctx = false
some_needs (rule ∷ rules) ctx = (evaluate_rule rule ctx).needs_approval || some_needs rules ctx

evaluate_from-allowed :
    (needs : Bool) (reason : Reason) (rules : List Rule) (ctx : PolicyContext)
    → ((evaluate_from needs reason rules ctx).allowed ≡ not (some_denies rules ctx))
      × (some_denies rules ctx ≡ false
          → (evaluate_from needs reason rules ctx).needs_approval ≡ (needs || some_needs rules ctx))
unfolding evaluate_from
evaluate_from-allowed needs reason [] ctx = ground arith
evaluate_from-allowed needs reason (rule ∷ rules) ctx =
    let r = evaluate_rule rule ctx in
    ground (
      arith,
      evaluate_from-allowed (needs || r.needs_approval)
          (if r.needs_approval then or_reason r.reason reason else reason) rules ctx,
    )

-- A set of rules allows a call exactly if none of its rules denies it; a call that it allows needs
-- approval exactly if one of them asks for it.
pub evaluate_lem :
    (rules : List Rule) (ctx : PolicyContext)
    → ((evaluate rules ctx).allowed ≡ not (some_denies rules ctx))
      × (some_denies rules ctx ≡ false → (evaluate rules ctx).needs_approval ≡ some_needs rules ctx)
unfolding evaluate
evaluate_lem rules ctx = evaluate_from-allowed false no_reason rules ctx

-- The first rule that denies gives the result, whatever stands behind it.
pub evaluate-first_deny :
    (before after : List Rule) (rule : Rule) (ctx : PolicyContext)
    → some_denies before ctx ≡ false
    → (evaluate_rule rule ctx).allowed ≡ false
    → evaluate (before ++ rule ∷ after) ctx ≡ evaluate_rule rule ctx
unfolding evaluate
evaluate-first_deny before after rule ctx none_before d = go false no_reason before none_before
  where
    go :
        (needs : Bool) (reason : Reason) (rules : List Rule)
        → some_denies rules ctx ≡ false
        → evaluate_from needs reason (rules ++ rule ∷ after) ctx ≡ evaluate_rule rule ctx
    go needs reason [] h = unfold evaluate_from in rw d
    go needs reason (first ∷ rules) h =
        let r = evaluate_rule first ctx in
        unfold evaluate_from in
        ground (
          arith,
          go (needs || r.needs_approval)
              (if r.needs_approval then or_reason r.reason reason else reason) rules,
        )

some_denies-perm :
    {rules others : List Rule} (ctx : PolicyContext)
    → Permᴰ rules others
    → (some_denies rules ctx ≡ some_denies others ctx)
      × (some_needs rules ctx ≡ some_needs others ctx)
some_denies-perm ctx Permᴰ.nil = (refl, refl)
some_denies-perm ctx (Permᴰ.cons e p) = ground (arith, e, some_denies-perm ctx p)
some_denies-perm ctx (Permᴰ.swap e f) = ground (arith, e, f)
some_denies-perm ctx (Permᴰ.trans p q) =
    ground (arith, some_denies-perm ctx p, some_denies-perm ctx q)

-- The order of the rules decides only which reason is given: reordered, they allow the same calls,
-- and those that they allow need approval all the same.
pub evaluate-perm :
    (rules others : List Rule) (ctx : PolicyContext)
    → Permᴰ rules others
    → ((evaluate rules ctx).allowed ≡ (evaluate others ctx).allowed)
      × ((evaluate rules ctx).allowed ≡ true
          → (evaluate rules ctx).needs_approval ≡ (evaluate others ctx).needs_approval)
evaluate-perm rules others ctx p =
    ground (arith, evaluate_lem rules ctx, evaluate_lem others ctx, some_denies-perm ctx p)
