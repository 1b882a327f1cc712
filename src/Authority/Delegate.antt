-- ===== src/Authority/Delegate.antt =====
-- Delegations of src/governance/authority.py.
use agentbridge.Base.{
  ℕ, ◌+◌, String, Bool, true, false, not, ◌&&◌, ◌||◌, Option, none, some, List, [], ◌∷◌, string_eq,
  pair_eq, leb, ltb, contains, if◌then◌else◌,
}
use agentbridge.Base.Dict.{lookup, insert, has}
use agentbridge.Authority.Outcome.{
  Outcome, done, denied, integrity, deny_if, invalid_if, ◌>>=◌, ◌>>◌,
}
use agentbridge.Authority.Tables.{
  Kind, member, AgentRow, DelegationRow, Directory, Principal, Primitives,
}
use agentbridge.Authority.Text.{is_identifier, scopes}
use agentbridge.Authority.Current.{agent_of, verify_seal, current, admin}

abbrev pub is_member_kind : Kind → Bool
is_member_kind (member _) = true
is_member_kind _ = false

-- `set(a) <= set(b)`
abbrev pub subset : List String → List String → Bool
subset [] b = true
subset (x ∷ xs) b = contains x b && subset xs b

-- `set(a) <= set(b) & set(c)`
abbrev pub within : List String → List String → List String → Bool
within a b c = subset a b && subset a c

abbrev pub is_empty_list : List String → Bool
is_empty_list [] = true
is_empty_list (_ ∷ _) = false

-- `now <= not_before < expires_at <= min(user.valid_until, now + 3600)`
abbrev pub is_lifetime : ℕ → ℕ → ℕ → ℕ → Bool
is_lifetime now not_before expires_at valid_until =
    leb now not_before
    && ltb not_before expires_at
    && leb expires_at valid_until
    && leb expires_at (now + 3600)

abbrev pub from_or : ℕ → Option ℕ → ℕ
from_or now none = now
from_or now (some t) = t

-- The `INSERT`: a grant id that is taken raises.
abbrev pub insert_delegation : String → String → DelegationRow → Directory → Outcome Directory
insert_delegation tenant_id grant row d =
    if has (tenant_id, grant) d.delegations
    then integrity
    else done (record d { delegations = insert (tenant_id, grant) row d.delegations })

abbrev pub ended_row : DelegationRow → DelegationRow
ended_row row = record row { revision = row.revision + 1; active = false }

abbrev pub user_tenant : Option String → Outcome String
user_tenant (some t) = done t
user_tenant none = denied

module _ (lib : Primitives) where
  abbrev pub delegation_row :
      Principal → Principal → String → AgentRow → List String → List String → ℕ → ℕ → DelegationRow
  delegation_row actor user agent_id agent capabilities targets not_before expires_at = record {
    agent_id = agent_id;
    agent_revision = agent.revision;
    user_issuer = user.issuer;
    user_subject = user.subject;
    user_revision = user.revision;
    grantor_issuer = actor.issuer;
    grantor_subject = actor.subject;
    grantor_kind = actor.kind;
    grantor_revision = actor.revision;
    capabilities = capabilities;
    targets = targets;
    not_before = not_before;
    expires_at = expires_at;
    tenant_revision = user.tenant_revision;
    revision = 1;
    active = true;
  }

  -- `grant_delegation`; `grant` is the fresh `uuid4().hex`.
  unfoldable pub grant_delegation :
      ℕ
      → String
      → Principal
      → Principal
      → String
      → List String
      → List String
      → ℕ
      → Option ℕ
      → Directory
      → Outcome Directory
  unfolding verify_seal
  grant_delegation now grant actor user agent_id capabilities targets expires_at start d = do
    verify_seal lib now user
    deny_if (not (is_member_kind user.kind))
    tenant_id ← user_tenant user.tenant_id
    abilities ← scopes capabilities
    places ← scopes targets
    invalid_if (not (is_lifetime now (from_or now start) expires_at user.valid_until))
    admin lib d now actor user.tenant_id
    current lib d now user
    invalid_if (not (is_identifier agent_id))
    agent ← agent_of d user.tenant_id (some agent_id)
    deny_if (
        is_empty_list abilities
        || not (within abilities user.capabilities agent.capabilities)
        || not (within places user.targets agent.targets))
    insert_delegation tenant_id grant
        (delegation_row actor user agent_id agent abilities places (from_or now start) expires_at) d

  abbrev pub end_delegation : String → String → Directory → Option DelegationRow → Outcome Directory
  end_delegation tenant_id grant d none = denied
  end_delegation tenant_id grant d (some row) =
      done (record d { delegations = insert (tenant_id, grant) (ended_row row) d.delegations })

  -- `revoke_delegation`
  unfoldable pub revoke_delegation : ℕ → Principal → String → String → Directory → Outcome Directory
  revoke_delegation now actor tenant_id grant d = do
    admin lib d now actor (some tenant_id)
    end_delegation tenant_id grant d (lookup (tenant_id, grant) d.delegations)
