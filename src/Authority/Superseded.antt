-- ===== src/Authority/Superseded.antt =====
-- A principal whose enrollment was changed or revoked (src/governance/authority.py) is denied from
-- then on, whatever is enrolled later.
use agentbridge.Base.{ℕ, String, ◌≡◌, ◌≢◌, true, false, some, List, string_eq, nat_eq, pair_eq}
use agentbridge.Authority.Outcome.{done, bind-done}
use agentbridge.Authority.Tables.{Directory, Principal, Primitives, triple_eq}
use agentbridge.Authority.Current.{verify_seal, kind_current, current, is_agent_kind}
use agentbridge.Authority.Delegate.{is_member_kind}
use agentbridge.Authority.Calls.{
  DirectoryCall, tenant_call, enroll_platform_call, revoke_platform_call, enroll_member_call,
  enroll_agent_call, revoke_agent_call, revoke_member_call, revoke_delegation_call, serve,
  serve_all,
}
use agentbridge.Authority.Served.{serve-Effect}
use agentbridge.Authority.Effects.{Bumps}
use agentbridge.Authority.Grows.{Grows, serve_all-Grows}
use agentbridge.Authority.Held.{
  gone, is_platform_kind, is_delegated_kind, tenant-at, agent-at, member-at, platform-at,
  delegation-at,
}

-- The calls that change what the principal was minted from: its tenant, its membership, its agent, its
-- delegation or its platform enrollment.
unfoldable pub Supersedes : DirectoryCall → Principal → Type 0
Supersedes (tenant_call _ t _) p = (is_platform_kind p.kind ≡ false) × (p.tenant_id ≡ some t)
Supersedes (enroll_platform_call _ i s) p =
    (is_platform_kind p.kind ≡ true) × (i ≡ p.issuer) × (s ≡ p.subject)
Supersedes (revoke_platform_call _ i s) p =
    (is_platform_kind p.kind ≡ true) × (i ≡ p.issuer) × (s ≡ p.subject)
Supersedes (enroll_member_call _ t i s _ _ _) p =
    (is_member_kind p.kind ≡ true) × (p.tenant_id ≡ some t) × (i ≡ p.issuer) × (s ≡ p.subject)
Supersedes (revoke_member_call _ t i s) p =
    (is_member_kind p.kind ≡ true) × (p.tenant_id ≡ some t) × (i ≡ p.issuer) × (s ≡ p.subject)
Supersedes (enroll_agent_call _ t a _ _ _) p =
    (is_agent_kind p.kind ≡ true) × (p.tenant_id ≡ some t) × (p.agent_id ≡ some a)
Supersedes (revoke_agent_call _ t a) p =
    (is_agent_kind p.kind ≡ true) × (p.tenant_id ≡ some t) × (p.agent_id ≡ some a)
Supersedes (revoke_delegation_call _ t g) p =
    (is_delegated_kind p.kind ≡ true) × (p.tenant_id ≡ some t) × (p.delegation_id ≡ some g)
Supersedes _ p = ⊥

module _ (lib : Primitives) (p : Principal) where
  current-kind :
      (d : Directory) (now : ℕ)
      → current lib d now p ≡ done tt
      → kind_current lib d now p p.kind ≡ done tt
  unfolding current
  current-kind d now h = let (u, e, h₁) = bind-done (verify_seal lib now p) _ tt h in h₁

  -- The three states: before the call, after it, and much later.
  clash :
      (c : DirectoryCall) (a b e : Directory) (t₀ t₁ : ℕ)
      → Supersedes c p
      → Bumps c a b
      → Grows b e
      → kind_current lib a t₀ p p.kind ≡ done tt
      → kind_current lib e t₁ p p.kind ≡ done tt
      → ⊥
  unfolding Supersedes
  clash (tenant_call _ t _) a b e t₀ t₁ s bump g h₀ h₁ =
      gone _ t p.tenant_revision a.tenants b.tenants e.tenants
        (tenant-at lib a t₀ p p.kind t s.0 s.1 h₀) bump g.tenants_kept
        (tenant-at lib e t₁ p p.kind t s.0 s.1 h₁)
  clash (enroll_agent_call _ t n _ _ _) a b e t₀ t₁ s bump g h₀ h₁ =
      gone _ (t, n) p.agent_revision a.agents b.agents e.agents
        (agent-at lib a t₀ p p.kind t n s.0 s.1 s.2 h₀) bump g.agents_kept
        (agent-at lib e t₁ p p.kind t n s.0 s.1 s.2 h₁)
  clash (revoke_agent_call _ t n) a b e t₀ t₁ s bump g h₀ h₁ =
      gone _ (t, n) p.agent_revision a.agents b.agents e.agents
        (agent-at lib a t₀ p p.kind t n s.0 s.1 s.2 h₀) bump g.agents_kept
        (agent-at lib e t₁ p p.kind t n s.0 s.1 s.2 h₁)
  clash (revoke_delegation_call _ t n) a b e t₀ t₁ s bump g h₀ h₁ =
      gone _ (t, n) p.delegation_revision a.delegations b.delegations e.delegations
        (delegation-at lib a t₀ p p.kind t n s.0 s.1 s.2 h₀) bump g.delegations_kept
        (delegation-at lib e t₁ p p.kind t n s.0 s.1 s.2 h₁)
  clash (enroll_member_call _ t i n _ _ _) a b e t₀ t₁ s bump g h₀ h₁ =
      gone _ _ p.revision a.members b.members e.members (member-at lib a t₀ p p.kind t s.0 s.1 h₀)
        (rw (s.2, s.3) at bump) g.members_kept (member-at lib e t₁ p p.kind t s.0 s.1 h₁)
  clash (revoke_member_call _ t i n) a b e t₀ t₁ s bump g h₀ h₁ =
      gone _ _ p.revision a.members b.members e.members (member-at lib a t₀ p p.kind t s.0 s.1 h₀)
        (rw (s.2, s.3) at bump) g.members_kept (member-at lib e t₁ p p.kind t s.0 s.1 h₁)
  clash (enroll_platform_call _ i n) a b e t₀ t₁ s bump g h₀ h₁ =
      gone _ _ p.revision a.platform_admins b.platform_admins e.platform_admins
        (platform-at lib a t₀ p p.kind s.0 h₀) (rw (s.1, s.2) at bump) g.admins_kept
        (platform-at lib e t₁ p p.kind s.0 h₁)
  clash (revoke_platform_call _ i n) a b e t₀ t₁ s bump g h₀ h₁ =
      gone _ _ p.revision a.platform_admins b.platform_admins e.platform_admins
        (platform-at lib a t₀ p p.kind s.0 h₀) (rw (s.1, s.2) at bump) g.admins_kept
        (platform-at lib e t₁ p p.kind s.0 h₁)
  clash _ a b e t₀ t₁ s bump g h₀ h₁ = s

  -- A principal that was current when a call that is about its tenant, its membership, its agent, its
  -- delegation or its platform enrollment returned is not current at any later time, whatever calls
  -- follow, be it a revocation or a new enrollment.
  pub superseded-is_denied :
      (lower : String → String) (c : DirectoryCall) (now before later : ℕ) (d d' : Directory)
      (cs : List (ℕ × DirectoryCall))
      → Supersedes c p
      → current lib d before p ≡ done tt
      → serve lib lower now c d ≡ done d'
      → current lib (serve_all lib lower cs d') later p ≢ done tt
  superseded-is_denied lower c now before later d d' cs s h served again =
      clash c d d' (serve_all lib lower cs d') before later s
        (serve-Effect lib lower now d d' c served).1 (serve_all-Grows lib lower cs d')
        (current-kind d before h) (current-kind _ later again)
