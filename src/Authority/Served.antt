-- ===== src/Authority/Served.antt =====
-- Each call of src/governance/authority.py has one of the effects.
use agentbridge.Base.{
  ℕ, ◌+◌, String, ◌≡◌, refl, not, ◌&&◌, ◌||◌, Option, none, some, List, string_eq, pair_eq, arith,
  leb, subst, ap, ◌∙◌, Option-cases, inl, inr,
}
use agentbridge.Base.Dict.{lookup, insert, has}
use agentbridge.Authority.Outcome.{done, bind-done, deny_if, invalid_if}
use agentbridge.Authority.Tables.{DelegationRow, Directory, Principal, Primitives, triple_eq}
use agentbridge.Authority.Text.{scopes, is_identifier}
use agentbridge.Authority.Current.{select, tenant_of, agent_of, admin, verify_seal, current}
use agentbridge.Authority.Delegate.{
  subset, within, is_empty_list, is_member_kind, is_lifetime, from_or, user_tenant, ended_row,
  insert_delegation, end_delegation, grant_delegation, revoke_delegation,
}
use agentbridge.Authority.Requests.{or_denied, checked_request, agent_principal, authenticate_agent}
use agentbridge.Authority.Operators.{prune_replays}
use agentbridge.Authority.Calls.{
  DirectoryCall, bootstrap_call, tenant_call, enroll_platform_call, revoke_platform_call,
  enroll_member_call, enroll_agent_call, revoke_agent_call, revoke_member_call, grant_call,
  revoke_delegation_call, request_call, prune_call, serve, second,
}
use agentbridge.Authority.Effects.{
  grant_effect, end_effect, replays_effect, available-found, Wrote, done-injective, found-IsNewer,
  insert-Bumped, tenant-some, scoped,
}
use agentbridge.Authority.Writes.{
  bootstrap-Effect, tenant-Effect, enroll_admin-Effect, revoke_admin-Effect, revoke_agent-Effect,
  revoke_member-Effect, enroll_member-Effect, enroll_agent-Effect,
}

module _ (lib : Primitives) (lower : String → String) (now : ℕ) (d d' : Directory) where
  ended :
      (p : Principal) (t g : String) (o : Option DelegationRow)
      → lookup (t, g) d.delegations ≡ o
      → end_delegation lib t g d o ≡ done d'
      → Wrote (revoke_delegation_call p t g) d d'
  ended p t g none e h = absurd (ground (arith, h))
  ended p t g (some row) e h = subst (Wrote (revoke_delegation_call p t g) d) (done-injective h) (
    end_effect (t, g) row e,
    insert-Bumped _ (t, g) _ d.delegations (found-IsNewer _ (ended_row row) row _ e refl),
  )

  revoke_delegation-Effect :
      (p : Principal) (t g : String)
      → revoke_delegation lib now p t g d ≡ done d'
      → Wrote (revoke_delegation_call p t g) d d'
  unfolding revoke_delegation
  revoke_delegation-Effect p t g h =
      let (u, _, h₁) = bind-done (admin lib d now p (some t)) _ d' h in ended p t g _ refl h₁

  inserted :
      (t g : String) (row : DelegationRow)
      → insert_delegation t g row d ≡ done d'
      → (lookup (t, g) d.delegations ≡ none)
        × (record d { delegations = insert (t, g) row d.delegations } ≡ d')
  inserted t g row h = elim (Option-cases (lookup (t, g) d.delegations)) [
    | inl e ↦ (e, done-injective (ground (arith, e, h)))
    | inr (old, e) ↦ absurd (ground (arith, e, h))
  ]

  grant-Effect :
      (g : String) (p user : Principal) (a : String) (cs ts : List String) (until : ℕ)
      (start : Option ℕ)
      → grant_delegation lib now g p user a cs ts until start d ≡ done d'
      → Wrote (grant_call g p user a cs ts until start) d d'
  unfolding grant_delegation agent_of
  grant-Effect g p user a cs ts until start h =
      let (u₁, _, h₁) = bind-done (verify_seal lib now user) _ d' h in
      let (u₂, _, h₂) = bind-done (deny_if (not (is_member_kind user.kind))) _ d' h₁ in
      let (t, e₃, h₃) = bind-done (user_tenant user.tenant_id) _ d' h₂ in
      let (abilities, _, h₄) = bind-done (scopes cs) _ d' h₃ in
      let (places, _, h₅) = bind-done (scopes ts) _ d' h₄ in
      let (u₆, _, h₆) =
        bind-done (invalid_if (not (is_lifetime now (from_or now start) until user.valid_until))) _
          d' h₅ in
      let (u₇, _, h₇) = bind-done (admin lib d now p user.tenant_id) _ d' h₆ in
      let (u₈, _, h₈) = bind-done (current lib d now user) _ d' h₇ in
      let (u₉, _, h₉) = bind-done (invalid_if (not (is_identifier a))) _ d' h₈ in
      let (agent, e, h₁₀) = bind-done (agent_of d user.tenant_id (some a)) _ d' h₉ in
      let found = available-found _ (select user.tenant_id (some a) d.agents) agent e in
      let (u₁₁, e₁₁, h₁₁) =
        bind-done
          (deny_if (
            is_empty_list abilities
            || not (within abilities user.capabilities agent.capabilities)
            || not (within places user.targets agent.targets)))
          _ d' h₁₀ in
      let kept =
        scoped (is_empty_list abilities) (subset abilities user.capabilities)
          (subset abilities agent.capabilities) (subset places user.targets)
          (subset places agent.targets) u₁₁ e₁₁ in
      let (free, written) = inserted t g _ h₁₁ in
      subst (Wrote (grant_call g p user a cs ts until start) d) written (
        (grant_effect t g _ agent free
            (subst (λ o. select o (some a) d.agents ≡ some agent) (tenant-some _ t e₃) found.0) refl
            kept.0 kept.1),
        tt,
      )

  request-Effect :
      (t a n body sig : String) (del : Option String)
      → second (authenticate_agent lib now t a n body sig del d) ≡ done d'
      → Wrote (request_call t a n body sig del) d d'
  unfolding authenticate_agent
  request-Effect t a n body sig del h =
      let (r, e, h₀) = bind-done (authenticate_agent lib now t a n body sig del d) _ d' h in
      let (checked, _, h₁) =
        bind-done (or_denied (checked_request lib now t a n body sig del)) _ r e in
      let (tenant, _, h₂) = bind-done (tenant_of d (some t)) _ r h₁ in
      let (agent, _, h₃) = bind-done (agent_of d (some t) (some a)) _ r h₂ in
      let (u₄, _, h₄) =
        bind-done (deny_if (not (lib.verify agent.public_key_hex sig checked.0))) _ r h₃ in
      let (p, _, h₅) =
        bind-done
          (agent_principal lib d now tenant t a agent del (checked.1 + 300) (lib.sha256 body) n) _ r
          h₄ in
      let (u₆, _, h₆) = bind-done (deny_if (has (t, (a, n)) d.replays)) _ r h₅ in
      subst (Wrote (request_call t a n body sig del) d) (done-injective (ap second h₆ ∙ h₀))
        ((replays_effect (insert (t, (a, n)) now d.replays)), tt)

  prune-Effect :
      (p : Principal) (limit : ℕ)
      → second (prune_replays lib now p limit d) ≡ done d'
      → Wrote (prune_call p limit) d d'
  unfolding prune_replays
  prune-Effect p limit h =
      let (r, e, h₀) = bind-done (prune_replays lib now p limit d) _ d' h in
      let (u₁, _, h₁) = bind-done (invalid_if (not (leb 1 limit && leb limit 10000))) _ r e in
      let (u₂, _, h₂) = bind-done (admin lib d now p none) _ r h₁ in
      subst (Wrote (prune_call p limit) d) (done-injective (ap second h₂ ∙ h₀))
        ((replays_effect _), tt)

  -- Whatever a call that returns writes is one of the effects, and it raises the revision of the row that it is about.
  pub serve-Effect : (c : DirectoryCall) → serve lib lower now c d ≡ done d' → Wrote c d d'
  serve-Effect (bootstrap_call i s) h = bootstrap-Effect lib lower now d d' i s h
  serve-Effect (tenant_call p t active) h = tenant-Effect lib lower now d d' p t active h
  serve-Effect (enroll_platform_call p i s) h = enroll_admin-Effect lib lower now d d' p i s h
  serve-Effect (revoke_platform_call p i s) h = revoke_admin-Effect lib lower now d d' p i s h
  serve-Effect (enroll_member_call p t i s r cs ts) h =
      enroll_member-Effect lib lower now d d' p t i s r cs ts h
  serve-Effect (enroll_agent_call p t a k cs ts) h =
      enroll_agent-Effect lib lower now d d' p t a k cs ts h
  serve-Effect (revoke_agent_call p t a) h = revoke_agent-Effect lib lower now d d' p t a h
  serve-Effect (revoke_member_call p t i s) h = revoke_member-Effect lib lower now d d' p t i s h
  serve-Effect (grant_call g p u a cs ts until start) h = grant-Effect g p u a cs ts until start h
  serve-Effect (revoke_delegation_call p t g) h = revoke_delegation-Effect p t g h
  serve-Effect (request_call t a n body sig del) h = request-Effect t a n body sig del h
  serve-Effect (prune_call p limit) h = prune-Effect p limit h
