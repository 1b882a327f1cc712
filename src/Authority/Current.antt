-- ===== src/Authority/Current.antt =====
-- Whether a principal still holds: `_verify_seal`, the reads of the tables and `_current` of
-- src/governance/authority.py. An operation reads the clock once here.
use agentbridge.Base.{
  ℕ, String, Bool, true, false, not, ◌&&◌, ◌||◌, Option, none, some, List, ◌==◌, string_eq, nat_eq,
  pair_eq, leb, ltb, is_some, contains,
}
use agentbridge.Base.Dict.{Dict, lookup}
use agentbridge.Authority.Outcome.{Outcome, done, denied, available, deny_if, ◌>>=◌, ◌>>◌}
use agentbridge.Authority.Tables.{
  Role, tenant_admin, tenant_operator, tenant_viewer, Kind, platform_admin, machine,
  delegated_human, unsupported, member, TenantRow, PlatformRow, MemberRow, AgentRow, DelegationRow,
  Directory, Principal, Primitives, triple_eq,
}

abbrev pub same_role : Role → Role → Bool
same_role tenant_admin tenant_admin = true
same_role tenant_operator tenant_operator = true
same_role tenant_viewer tenant_viewer = true
same_role _ _ = false

-- `WHERE a=? AND b=?`: nothing equals `NULL`.
abbrev pub select :
    {V : Type 0} → Option String → Option String → Dict (String × String) V → Option V
select (some a) (some b) rows = lookup (a, b) rows
select _ _ rows = none

abbrev pub select_tenant : Option String → Dict String TenantRow → Option TenantRow
select_tenant (some t) rows = lookup t rows
select_tenant none rows = none

abbrev pub select_member :
    Option String → String → String → Dict (String × (String × String)) MemberRow → Option MemberRow
select_member (some t) issuer subject rows = lookup (t, (issuer, subject)) rows
select_member none issuer subject rows = none

-- `_tenant`, `_platform`, `_member` and `_agent`
unfoldable pub tenant_of : Directory → Option String → Outcome TenantRow
tenant_of d tenant_id = available (λ r. r.active) (select_tenant tenant_id d.tenants)

unfoldable pub platform_of : Directory → String → String → Outcome PlatformRow
platform_of d issuer subject =
    available (λ r. r.active) (lookup (issuer, subject) d.platform_admins)

unfoldable pub member_of : Directory → Option String → String → String → Outcome MemberRow
member_of d tenant_id issuer subject =
    available (λ r. r.active) (select_member tenant_id issuer subject d.members)

unfoldable pub agent_of : Directory → Option String → Option String → Outcome AgentRow
agent_of d tenant_id agent_id = available (λ r. r.active) (select tenant_id agent_id d.agents)

-- The revision of the grantor, who must still administer.
abbrev pub member_grantor : Outcome MemberRow → Outcome ℕ
member_grantor m = do row ← m; deny_if (not (same_role row.role tenant_admin)); done row.revision

abbrev pub grantor_revision : Directory → Option String → DelegationRow → Kind → Outcome ℕ
grantor_revision d tenant_id row platform_admin = do
  admin ← platform_of d row.grantor_issuer row.grantor_subject
  done admin.revision
grantor_revision d tenant_id row _ =
    member_grantor (member_of d tenant_id row.grantor_issuer row.grantor_subject)

abbrev pub is_open : ℕ → DelegationRow → Bool
is_open now row = row.active && leb row.not_before now && ltb now row.expires_at

-- `_grant`
unfoldable pub grant_of :
    Directory → ℕ → Option String → Option String → Option String → AgentRow → Outcome DelegationRow
grant_of d now tenant_id grant_id agent_id agent = do
  row ← available (is_open now) (select tenant_id grant_id d.delegations)
  deny_if (
      not (elim agent_id [ none ↦ false | some a ↦ row.agent_id == a ])
      || not (row.agent_revision == agent.revision))
  tenant ← tenant_of d tenant_id
  deny_if (not (row.tenant_revision == tenant.revision))
  user ← member_of d tenant_id row.user_issuer row.user_subject
  grantor ← grantor_revision d tenant_id row row.grantor_kind
  deny_if (not (user.revision == row.user_revision) || not (grantor == row.grantor_revision))
  done row

abbrev pub is_agent_kind : Kind → Bool
is_agent_kind machine = true
is_agent_kind delegated_human = true
is_agent_kind _ = false

module _ (lib : Primitives) where
  -- `_seal`: the digest of every field but the proof.
  abbrev pub seal : Principal → String
  seal p = lib.digest (record p { proof = "" })

  -- `_mint`
  abbrev pub mint : Principal → Principal
  mint p = record p { proof = seal p }

  -- `_verify_seal`
  unfoldable pub verify_seal : ℕ → Principal → Outcome (Unit {0})
  verify_seal now p = deny_if (not (p.proof == seal p && ltb now p.valid_until))

  abbrev pub delegation_current : Directory → ℕ → Principal → AgentRow → Outcome (Unit {0})
  delegation_current d now p agent = do
    row ← grant_of d now p.tenant_id p.delegation_id p.agent_id agent
    deny_if (not (row.revision == p.delegation_revision))

  abbrev pub tenant_current : Directory → Principal → Outcome (Unit {0})
  tenant_current d p = do
    tenant ← tenant_of d p.tenant_id
    deny_if (not (tenant.revision == p.tenant_revision))

  -- The branches of `_current`.
  abbrev pub kind_current : Directory → ℕ → Principal → Kind → Outcome (Unit {0})
  kind_current d now p platform_admin = do
    row ← platform_of d p.issuer p.subject
    deny_if (is_some p.tenant_id || not (row.revision == p.revision))
  kind_current d now p (member role) = do
    tenant_current d p
    row ← member_of d p.tenant_id p.issuer p.subject
    deny_if (not (same_role row.role role) || not (row.revision == p.revision))
  kind_current d now p machine = do
    tenant_current d p
    row ← agent_of d p.tenant_id p.agent_id
    deny_if (not (row.revision == p.agent_revision))
  kind_current d now p delegated_human = do
    tenant_current d p
    row ← agent_of d p.tenant_id p.agent_id
    deny_if (not (row.revision == p.agent_revision))
    delegation_current d now p row
  kind_current d now p unsupported = do tenant_current d p; denied

  -- `_current`
  unfoldable pub current : Directory → ℕ → Principal → Outcome (Unit {0})
  unfolding verify_seal
  current d now p = do verify_seal now p; kind_current d now p p.kind

  -- `assert_request`
  unfoldable pub assert_request : Directory → ℕ → Principal → String → String → Outcome Principal
  assert_request d now p body nonce = do
    current d now p
    deny_if (
        not (is_agent_kind p.kind)
        || not (p.request_body_sha256 == lib.sha256 body)
        || not (p.request_nonce == nonce))
    done p

  abbrev pub outside : Option String → List String → Bool
  outside none targets = false
  outside (some t) targets = not (contains t targets)

  -- `authorize`
  unfoldable pub authorize : Directory → ℕ → Principal → String → Option String → Outcome Principal
  authorize d now p capability target_id = do
    current d now p
    deny_if (
        not (is_agent_kind p.kind)
        || not (contains capability p.capabilities)
        || outside target_id p.targets)
    done p

  abbrev pub tenant_administrator : Principal → Option String → Kind → Outcome (Unit {0})
  tenant_administrator p tenant_id platform_admin = done tt
  tenant_administrator p (some t) (member tenant_admin) =
      deny_if (not (elim p.tenant_id [ none ↦ false | some u ↦ u == t ]))
  tenant_administrator p _ _ = denied

  -- `_admin`
  unfoldable pub admin : Directory → ℕ → Principal → Option String → Outcome (Unit {0})
  unfolding current
  admin d now p tenant_id = do current d now p; tenant_administrator p tenant_id p.kind
