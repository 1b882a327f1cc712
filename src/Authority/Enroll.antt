-- ===== src/Authority/Enroll.antt =====
-- Enrollment and revocation in src/governance/authority.py. A call returns the tables that its
-- transaction commits; a call that is refused rolls back, and leaves the tables as they were.
use agentbridge.Base.{
  ℕ, suc, ◌+◌, String, Bool, true, false, not, ◌&&◌, Option, none, some, List, [], ◌∷◌, string_eq,
  pair_eq, leb, if◌then◌else◌,
}
use agentbridge.Base.Dict.{Dict, lookup, insert}
use agentbridge.Authority.Outcome.{Outcome, done, deny_if, invalid_if, ◌>>=◌, ◌>>◌}
use agentbridge.Authority.Tables.{
  Role, TenantRow, PlatformRow, MemberRow, AgentRow, Directory, Principal, Primitives, triple_eq,
}
use agentbridge.Authority.Text.{is_identifier, is_subject, scopes, is_hex}
use agentbridge.Authority.Current.{tenant_of, platform_of, member_of, agent_of, admin}

-- The revision after an `INSERT … ON CONFLICT DO UPDATE SET revision=revision+1`.
abbrev pub next_revision : {V : Type 0} → (V → ℕ) → Option V → ℕ
next_revision revision none = 1
next_revision revision (some old) = revision old + 1

-- The rows that the upserts write over what is there, and those of a revocation.
abbrev pub set_tenant_row : Bool → Option TenantRow → TenantRow
set_tenant_row active old = record {
  revision = next_revision (λ r. r.revision) old;
  active = active;
}

abbrev pub enrolled_admin : Option PlatformRow → PlatformRow
enrolled_admin old = record { revision = next_revision (λ r. r.revision) old; active = true }

abbrev pub enrolled_member : Role → List String → List String → Option MemberRow → MemberRow
enrolled_member role capabilities targets old = record {
  role = role;
  revision = next_revision (λ r. r.revision) old;
  active = true;
  capabilities = capabilities;
  targets = targets;
}

abbrev pub enrolled_agent : String → List String → List String → Option AgentRow → AgentRow
enrolled_agent key capabilities targets old = record {
  public_key_hex = key;
  revision = next_revision (λ r. r.revision) old;
  active = true;
  capabilities = capabilities;
  targets = targets;
}

abbrev pub revoked_admin : PlatformRow → PlatformRow
revoked_admin row = record { revision = row.revision + 1; active = false }

abbrev pub revoked_agent : AgentRow → AgentRow
revoked_agent row = record row { revision = row.revision + 1; active = false }

abbrev pub revoked_member : MemberRow → MemberRow
revoked_member row = record row { revision = row.revision + 1; active = false }

abbrev pub active_admins : Dict (String × String) PlatformRow → ℕ
active_admins [] = 0
active_admins ((_, row) ∷ rows) =
    let rest = active_admins rows in if row.active then suc rest else rest

abbrev pub is_empty_table : {K V : Type 0} → Dict K V → Bool
is_empty_table [] = true
is_empty_table (_ ∷ _) = false

module _ (lib : Primitives) where
  -- `bootstrap_platform_admin`
  unfoldable pub bootstrap_platform_admin : String → String → Directory → Outcome Directory
  bootstrap_platform_admin issuer subject d = do
    invalid_if (not (lib.trusted issuer))
    invalid_if (not (is_subject subject))
    deny_if (not (is_empty_table d.platform_admins))
    done (record d {
      platform_admins =
          insert (issuer, subject) (record { revision = 1; active = true }) d.platform_admins;
    })

  -- `set_tenant`
  unfoldable pub set_tenant : ℕ → Principal → String → Bool → Directory → Outcome Directory
  set_tenant now actor tenant_id active d = do
    invalid_if (not (is_identifier tenant_id))
    admin lib d now actor none
    done (record d {
      tenants = insert tenant_id (set_tenant_row active (lookup tenant_id d.tenants)) d.tenants;
    })

  -- `enroll_platform_admin`
  unfoldable pub enroll_platform_admin :
      ℕ → Principal → String → String → Directory → Outcome Directory
  enroll_platform_admin now actor issuer subject d = do
    invalid_if (not (lib.trusted issuer))
    invalid_if (not (is_subject subject))
    admin lib d now actor none
    done (record d {
      platform_admins =
          insert (issuer, subject) (enrolled_admin (lookup (issuer, subject) d.platform_admins))
            d.platform_admins;
    })

  -- `revoke_platform_admin`
  unfoldable pub revoke_platform_admin :
      ℕ → Principal → String → String → Directory → Outcome Directory
  revoke_platform_admin now actor issuer subject d = do
    admin lib d now actor none
    row ← platform_of d issuer subject
    deny_if (leb (active_admins d.platform_admins) 1)
    done (record d {
      platform_admins = insert (issuer, subject) (revoked_admin row) d.platform_admins;
    })

  -- `enroll_member`
  unfoldable pub enroll_member :
      ℕ
      → Principal
      → String
      → String
      → String
      → Role
      → List String
      → List String
      → Directory
      → Outcome Directory
  enroll_member now actor tenant_id issuer subject role capabilities targets d = do
    invalid_if (not (is_identifier tenant_id))
    invalid_if (not (is_subject subject))
    invalid_if (not (lib.trusted issuer))
    abilities ← scopes capabilities
    places ← scopes targets
    admin lib d now actor (some tenant_id)
    tenant ← tenant_of d (some tenant_id)
    done (record d {
      members =
          insert (tenant_id, (issuer, subject))
            (enrolled_member role abilities places
              (lookup (tenant_id, (issuer, subject)) d.members))
            d.members;
    })

  -- `enroll_agent`; `lower` is `str.lower` of the key.
  unfoldable pub enroll_agent :
      (String → String)
      → ℕ
      → Principal
      → String
      → String
      → String
      → List String
      → List String
      → Directory
      → Outcome Directory
  enroll_agent lower now actor tenant_id agent_id key capabilities targets d = do
    invalid_if (not (is_identifier tenant_id))
    invalid_if (not (is_identifier agent_id))
    invalid_if (not (is_hex 64 key && lib.loads_key key))
    abilities ← scopes capabilities
    places ← scopes targets
    admin lib d now actor (some tenant_id)
    tenant ← tenant_of d (some tenant_id)
    done (record d {
      agents =
          insert (tenant_id, agent_id)
            (enrolled_agent (lower key) abilities places (lookup (tenant_id, agent_id) d.agents))
            d.agents;
    })

  -- `revoke_agent`
  unfoldable pub revoke_agent : ℕ → Principal → String → String → Directory → Outcome Directory
  revoke_agent now actor tenant_id agent_id d = do
    admin lib d now actor (some tenant_id)
    row ← agent_of d (some tenant_id) (some agent_id)
    done (record d { agents = insert (tenant_id, agent_id) (revoked_agent row) d.agents })

  -- `revoke_member`
  unfoldable pub revoke_member :
      ℕ → Principal → String → String → String → Directory → Outcome Directory
  revoke_member now actor tenant_id issuer subject d = do
    admin lib d now actor (some tenant_id)
    row ← member_of d (some tenant_id) issuer subject
    done (record d {
      members = insert (tenant_id, (issuer, subject)) (revoked_member row) d.members;
    })
