-- ===== src/Authority/Held.antt =====
-- What a principal that is current says of the tables of src/governance/authority.py.
use agentbridge.Base.{
  ℕ, suc, ◌≤◌, String, ◌≡◌, Bool, true, false, not, ◌||◌, Option, none, some, ◌==◌, Eq, string_eq,
  nat_eq, pair_eq, arith, subst,
}
use agentbridge.Base.Dict.{Dict, lookup}
use agentbridge.Authority.Outcome.{done, bind-done, deny_if}
use agentbridge.Authority.Tables.{
  Kind, platform_admin, machine, delegated_human, unsupported, member, TenantRow, PlatformRow,
  MemberRow, AgentRow, DelegationRow, Directory, Principal, Primitives, triple_eq,
}
use agentbridge.Authority.Current.{
  select_tenant, select_member, select, tenant_of, platform_of, member_of, agent_of, grant_of,
  tenant_current, kind_current, is_agent_kind,
}
use agentbridge.Authority.Delegate.{is_member_kind}
use agentbridge.Authority.Effects.{IsNewer, Bumped, available-found}
use agentbridge.Authority.Grants.{grant_of-found, select-some}
use agentbridge.Authority.Grows.{Kept}

-- The table holds the row of the key under this very revision.
abbrev pub AtRevision : {K V : Type 0} ⦃e : Eq K⦄ → (V → ℕ) → K → ℕ → Dict K V → Type 0
AtRevision {V = V} revision k n rows = (row : V) × (lookup k rows ≡ some row) × (revision row ≡ n)

pub newer-lt :
    {V : Type 0} (revision : V → ℕ) (new old : V) (o : Option V)
    → IsNewer revision new o
    → o ≡ some old
    → suc (revision old) ≤ revision new
newer-lt revision new old none n h = absurd (ground (arith, h))
newer-lt revision new old (some v) n h = ground (arith, n, h)

-- A revision that was replaced does not come back.
pub gone :
    {K V : Type 0} ⦃e : Eq K⦄ (revision : V → ℕ) (k : K) (n : ℕ) (a b c : Dict K V)
    → AtRevision revision k n a
    → Bumped revision k a b
    → Kept revision b c
    → AtRevision revision k n c
    → ⊥
gone revision k n a b c (row, h, r) (new, f, newer) kept (last, g, s) =
    let (later, f₁, le) = kept.at k new f in
    let lt = newer-lt revision new row _ newer h in ground (arith, h, f₁, g, le, lt, r, s)

same-revision : (a b : ℕ) (u : Unit {0}) → deny_if (not (a == b)) ≡ done u → a ≡ b
same-revision a b u h = ground (arith, h)

second-revision : (x : Bool) (a b : ℕ) (u : Unit {0}) → deny_if (x || not (a == b)) ≡ done u → a ≡ b
second-revision x a b u h = ground (arith, h)

abbrev pub is_platform_kind : Kind → Bool
is_platform_kind platform_admin = true
is_platform_kind _ = false

abbrev pub is_delegated_kind : Kind → Bool
is_delegated_kind delegated_human = true
is_delegated_kind _ = false

-- What a principal that holds says of the tables.
module _ (lib : Primitives) (d : Directory) (now : ℕ) (p : Principal) where
  tenant_current-at :
      (t : String)
      → p.tenant_id ≡ some t
      → tenant_current lib d p ≡ done tt
      → AtRevision (λ (r : TenantRow). r.revision) t p.tenant_revision d.tenants
  unfolding tenant_of
  tenant_current-at t e h =
      let (row, e₁, e₂) = bind-done (tenant_of d p.tenant_id) _ tt h in
      let found = available-found _ (select_tenant p.tenant_id d.tenants) row e₁ in
      (row, subst (λ o. select_tenant o d.tenants ≡ some row) e found.0, same-revision _ _ tt e₂)

  pub agent-at :
      (k : Kind) (t a : String)
      → is_agent_kind k ≡ true
      → p.tenant_id ≡ some t
      → p.agent_id ≡ some a
      → kind_current lib d now p k ≡ done tt
      → AtRevision (λ (r : AgentRow). r.revision) (t, a) p.agent_revision d.agents
  unfolding agent_of
  agent-at platform_admin t a k e f h = absurd (ground (arith, k))
  agent-at unsupported t a k e f h = absurd (ground (arith, k))
  agent-at (member r) t a k e f h = absurd (ground (arith, k))
  agent-at machine t a k e f h =
      let (u, e₁, h₁) = bind-done (tenant_current lib d p) _ tt h in
      let (row, e₂, h₂) = bind-done (agent_of d p.tenant_id p.agent_id) _ tt h₁ in
      let found = available-found _ (select p.tenant_id p.agent_id d.agents) row e₂ in
      (row, select-some _ _ t a d.agents row e f found.0, same-revision _ _ tt h₂)
  agent-at delegated_human t a k e f h =
      let (u, e₁, h₁) = bind-done (tenant_current lib d p) _ tt h in
      let (row, e₂, h₂) = bind-done (agent_of d p.tenant_id p.agent_id) _ tt h₁ in
      let (v, e₃, h₃) = bind-done (deny_if (not (row.revision == p.agent_revision))) _ tt h₂ in
      let found = available-found _ (select p.tenant_id p.agent_id d.agents) row e₂ in
      (row, select-some _ _ t a d.agents row e f found.0, same-revision _ _ tt e₃)

  pub tenant-at :
      (k : Kind) (t : String)
      → is_platform_kind k ≡ false
      → p.tenant_id ≡ some t
      → kind_current lib d now p k ≡ done tt
      → AtRevision (λ (r : TenantRow). r.revision) t p.tenant_revision d.tenants
  tenant-at platform_admin t k e h = absurd (ground (arith, k))
  tenant-at unsupported t k e h =
      let (u, e₁, h₁) = bind-done (tenant_current lib d p) _ tt h in tenant_current-at t e e₁
  tenant-at (member r) t k e h =
      let (u, e₁, h₁) = bind-done (tenant_current lib d p) _ tt h in tenant_current-at t e e₁
  tenant-at machine t k e h =
      let (u, e₁, h₁) = bind-done (tenant_current lib d p) _ tt h in tenant_current-at t e e₁
  tenant-at delegated_human t k e h =
      let (u, e₁, h₁) = bind-done (tenant_current lib d p) _ tt h in tenant_current-at t e e₁

  pub member-at :
      (k : Kind) (t : String)
      → is_member_kind k ≡ true
      → p.tenant_id ≡ some t
      → kind_current lib d now p k ≡ done tt
      → AtRevision (λ (r : MemberRow). r.revision) (t, (p.issuer, p.subject)) p.revision d.members
  unfolding member_of
  member-at platform_admin t k e h = absurd (ground (arith, k))
  member-at unsupported t k e h = absurd (ground (arith, k))
  member-at machine t k e h = absurd (ground (arith, k))
  member-at delegated_human t k e h = absurd (ground (arith, k))
  member-at (member r) t k e h =
      let (u, e₁, h₁) = bind-done (tenant_current lib d p) _ tt h in
      let (row, e₂, h₂) = bind-done (member_of d p.tenant_id p.issuer p.subject) _ tt h₁ in
      let found =
        available-found _ (select_member p.tenant_id p.issuer p.subject d.members) row e₂ in
      (
        row,
        subst (λ o. select_member o p.issuer p.subject d.members ≡ some row) e found.0,
        second-revision _ _ _ tt h₂,
      )

  pub platform-at :
      (k : Kind)
      → is_platform_kind k ≡ true
      → kind_current lib d now p k ≡ done tt
      → AtRevision
          (λ (r : PlatformRow). r.revision)
          (p.issuer, p.subject)
          p.revision
          d.platform_admins
  unfolding platform_of
  platform-at unsupported k h = absurd (ground (arith, k))
  platform-at machine k h = absurd (ground (arith, k))
  platform-at delegated_human k h = absurd (ground (arith, k))
  platform-at (member r) k h = absurd (ground (arith, k))
  platform-at platform_admin k h =
      let (row, e₂, h₂) = bind-done (platform_of d p.issuer p.subject) _ tt h in
      let found = available-found _ (lookup (p.issuer, p.subject) d.platform_admins) row e₂ in
      (row, found.0, second-revision _ _ _ tt h₂)

  pub delegation-at :
      (k : Kind) (t g : String)
      → is_delegated_kind k ≡ true
      → p.tenant_id ≡ some t
      → p.delegation_id ≡ some g
      → kind_current lib d now p k ≡ done tt
      → AtRevision (λ (r : DelegationRow). r.revision) (t, g) p.delegation_revision d.delegations
  unfolding grant_of
  delegation-at platform_admin t g k e f h = absurd (ground (arith, k))
  delegation-at unsupported t g k e f h = absurd (ground (arith, k))
  delegation-at (member r) t g k e f h = absurd (ground (arith, k))
  delegation-at machine t g k e f h = absurd (ground (arith, k))
  delegation-at delegated_human t g k e f h =
      let (u, e₁, h₁) = bind-done (tenant_current lib d p) _ tt h in
      let (row, e₂, h₂) = bind-done (agent_of d p.tenant_id p.agent_id) _ tt h₁ in
      let (v, e₃, h₃) = bind-done (deny_if (not (row.revision == p.agent_revision))) _ tt h₂ in
      let (grant, e₄, h₄) =
        bind-done (grant_of d now p.tenant_id p.delegation_id p.agent_id row) _ tt h₃ in
      let found = grant_of-found d now p.tenant_id p.delegation_id p.agent_id row grant e₄ in
      (grant, select-some _ _ t g d.delegations grant e f found.0, same-revision _ _ tt h₄)
