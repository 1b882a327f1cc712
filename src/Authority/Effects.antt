-- ===== src/Authority/Effects.antt =====
-- What a call of src/governance/authority.py that returns has written.
use agentbridge.Base.{
  ℕ, suc, ◌+◌, ◌≤◌, String, ◌≡◌, Bool, true, false, not, ◌&&◌, ◌||◌, Option, none, some, Eq,
  string_eq, pair_eq, arith, leb,
}
use agentbridge.Base.Dict.{Dict, lookup, insert, lookup-insert_same}
use agentbridge.Authority.Outcome.{Outcome, done, available, deny_if}
use agentbridge.Authority.Tables.{
  TenantRow, PlatformRow, MemberRow, AgentRow, DelegationRow, Directory, Triple, triple_eq,
}
use agentbridge.Authority.Enroll.{next_revision, active_admins, is_empty_table}
use agentbridge.Authority.Delegate.{subset, user_tenant, ended_row}
use agentbridge.Authority.Calls.{
  DirectoryCall, tenant_call, enroll_platform_call, revoke_platform_call, enroll_member_call,
  enroll_agent_call, revoke_agent_call, revoke_member_call, revoke_delegation_call,
}

-- The row that an upsert or an update writes has a higher revision than the one it replaces.
abbrev pub IsNewer : {V : Type 0} → (V → ℕ) → V → Option V → Type 0
IsNewer revision new none = Unit
IsNewer revision new (some old) = suc (revision old) ≤ revision new

-- The row of a key was written with a higher revision.
abbrev pub Bumped : {K V : Type 0} ⦃e : Eq K⦄ → (V → ℕ) → K → Dict K V → Dict K V → Type 0
Bumped {V = V} revision k rows rows' =
    (new : V) × (lookup k rows' ≡ some new) × IsNewer revision new (lookup k rows)

pub data Effect (d : Directory) : Directory → Type 0 where
  bootstrap_effect :
      (k : String × String)
      → is_empty_table d.platform_admins ≡ true
      → Effect d (record d {
        platform_admins = insert k (record { revision = 1; active = true }) d.platform_admins;
      })
  tenant_effect :
      (t : String) (new : TenantRow)
      → IsNewer (λ r. r.revision) new (lookup t d.tenants)
      → Effect d (record d { tenants = insert t new d.tenants })
  enroll_admin_effect :
      (k : String × String) (new : PlatformRow)
      → IsNewer (λ r. r.revision) new (lookup k d.platform_admins)
      → new.active ≡ true
      → Effect d (record d { platform_admins = insert k new d.platform_admins })
  revoke_admin_effect :
      (k : String × String) (new : PlatformRow)
      → IsNewer (λ r. r.revision) new (lookup k d.platform_admins)
      → leb (active_admins d.platform_admins) 1 ≡ false
      → Effect d (record d { platform_admins = insert k new d.platform_admins })
  member_effect :
      (k : Triple) (new : MemberRow)
      → IsNewer (λ r. r.revision) new (lookup k d.members)
      → Effect d (record d { members = insert k new d.members })
  agent_effect :
      (k : String × String) (new : AgentRow)
      → IsNewer (λ r. r.revision) new (lookup k d.agents)
      → Effect d (record d { agents = insert k new d.agents })
  grant_effect :
      (t g : String) (new : DelegationRow) (agent : AgentRow)
      → lookup (t, g) d.delegations ≡ none
      → lookup (t, new.agent_id) d.agents ≡ some agent
      → new.agent_revision ≡ agent.revision
      → subset new.capabilities agent.capabilities ≡ true
      → subset new.targets agent.targets ≡ true
      → Effect d (record d { delegations = insert (t, g) new d.delegations })
  end_effect :
      (k : String × String) (old : DelegationRow)
      → lookup k d.delegations ≡ some old
      → Effect d (record d { delegations = insert k (ended_row old) d.delegations })
  replays_effect : (rows : Dict Triple ℕ) → Effect d (record d { replays = rows })

pub available-found :
    {V : Type 0} (active : V → Bool) (o : Option V) (row : V)
    → available active o ≡ done row
    → (o ≡ some row) × (active row ≡ true)
available-found active none row h = absurd (ground (arith, h))
available-found active (some r) row h = ground (arith, h)

pub done-injective : {a b : Directory} → ◌≡◌ {A = Outcome Directory} (done a) (done b) → a ≡ b
done-injective h = cc

pub next-IsNewer :
    {V : Type 0} (revision : V → ℕ) (new : V) (o : Option V)
    → revision new ≡ next_revision revision o
    → IsNewer revision new o
next-IsNewer revision new none h = tt
next-IsNewer revision new (some old) h = omega (arith, h)

pub found-IsNewer :
    {V : Type 0} (revision : V → ℕ) (new old : V) (o : Option V)
    → o ≡ some old
    → revision new ≡ revision old + 1
    → IsNewer revision new o
found-IsNewer revision new old o e h = rw e (omega (arith, h))

pub tenant-some : (o : Option String) (t : String) → user_tenant o ≡ done t → o ≡ some t
tenant-some none t h = absurd (ground (arith, h))
tenant-some (some u) t h = ground (arith, h)

pub scoped :
    (x p q r s : Bool) (u : Unit {0})
    → deny_if (x || not (p && q) || not (r && s)) ≡ done u
    → (q ≡ true) × (s ≡ true)
scoped x p q r s u h = ground (arith, h)

pub insert-Bumped :
    {K V : Type 0} ⦃e : Eq K⦄ (revision : V → ℕ) (k : K) (new : V) (rows : Dict K V)
    → IsNewer revision new (lookup k rows)
    → Bumped revision k rows (insert k new rows)
insert-Bumped revision k new rows n = (new, lookup-insert_same k new rows, n)

-- Which row a call writes with a higher revision.
abbrev pub Bumps : DirectoryCall → Directory → Directory → Type 0
Bumps (tenant_call p t active) d d' = Bumped (λ (r : TenantRow). r.revision) t d.tenants d'.tenants
Bumps (enroll_platform_call p i s) d d' =
    Bumped (λ (r : PlatformRow). r.revision) (i, s) d.platform_admins d'.platform_admins
Bumps (revoke_platform_call p i s) d d' =
    Bumped (λ (r : PlatformRow). r.revision) (i, s) d.platform_admins d'.platform_admins
Bumps (enroll_member_call p t i s r cs ts) d d' =
    Bumped (λ (r : MemberRow). r.revision) (t, (i, s)) d.members d'.members
Bumps (revoke_member_call p t i s) d d' =
    Bumped (λ (r : MemberRow). r.revision) (t, (i, s)) d.members d'.members
Bumps (enroll_agent_call p t a k cs ts) d d' =
    Bumped (λ (r : AgentRow). r.revision) (t, a) d.agents d'.agents
Bumps (revoke_agent_call p t a) d d' =
    Bumped (λ (r : AgentRow). r.revision) (t, a) d.agents d'.agents
Bumps (revoke_delegation_call p t g) d d' =
    Bumped (λ (r : DelegationRow). r.revision) (t, g) d.delegations d'.delegations
Bumps _ d d' = Unit

abbrev pub Wrote : DirectoryCall → Directory → Directory → Type 0
Wrote c d d' = Effect d d' × Bumps c d d'
