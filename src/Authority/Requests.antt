-- ===== src/Authority/Requests.antt =====
-- Signed requests and operator tokens in src/governance/authority.py.
use Prim.Native.String.{count}
use agentbridge.Base.{
  ℕ, ◌+◌, String, Bool, true, not, ◌||◌, Option, none, some, string_eq, leb, ltb, if◌then◌else◌,
}
use agentbridge.Base.Dict.{insert, has}
use agentbridge.Authority.Outcome.{Outcome, done, denied, invalid, deny_if, invalid_if, ◌>>=◌, ◌>>◌}
use agentbridge.Authority.Tables.{
  machine, delegated_human, TenantRow, AgentRow, DelegationRow, Directory, Principal, Primitives,
  triple_eq,
}
use agentbridge.Authority.Text.{is_identifier, is_hex}
use agentbridge.Authority.Current.{tenant_of, agent_of, grant_of, mint}
use agentbridge.Guards.Replay.{out_of_window}

abbrev pub min : ℕ → ℕ → ℕ
min a b = if leb a b then a else b

abbrev pub optional_identifier : Option String → Bool
optional_identifier none = true
optional_identifier (some s) = is_identifier s

-- `canonical_tenant_payload`
unfoldable pub canonical_tenant_payload :
    Primitives → String → String → String → String → Option String → Outcome String
canonical_tenant_payload lib tenant_id agent_id nonce body delegation_id = do
  invalid_if (not (is_identifier tenant_id))
  invalid_if (not (is_identifier agent_id))
  invalid_if (not (optional_identifier delegation_id))
  done (
      lib.encode (record {
        tenant_id = tenant_id;
        agent_id = agent_id;
        delegation_id = delegation_id;
        nonce = nonce;
        body_sha256 = lib.sha256 body;
      }))

-- `except (ValueError, TypeError, OverflowError): raise AuthorityDenied`
abbrev pub or_denied {ℓ} : {A : Type ℓ} → Outcome A → Outcome A
or_denied invalid = denied
or_denied m = m

abbrev pub stamped : Option ℕ → Outcome ℕ
stamped none = invalid
stamped (some t) = done t

module _ (lib : Primitives) where
  abbrev pub machine_principal :
      TenantRow → String → String → AgentRow → ℕ → String → String → Principal
  machine_principal tenant tenant_id agent_id agent until body_sha256 nonce = mint lib (record {
    tenant_id = some tenant_id;
    subject = agent_id;
    issuer = "urn:agentbridge:enrollment";
    kind = machine;
    revision = agent.revision;
    tenant_revision = tenant.revision;
    agent_id = some agent_id;
    agent_revision = agent.revision;
    delegation_id = none;
    delegation_revision = 0;
    user_revision = 0;
    grantor_revision = 0;
    valid_until = until;
    capabilities = agent.capabilities;
    targets = agent.targets;
    request_body_sha256 = body_sha256;
    request_nonce = nonce;
    proof = "";
  })

  abbrev pub delegated_principal :
      TenantRow
      → String
      → String
      → AgentRow
      → String
      → DelegationRow
      → ℕ
      → String
      → String
      → Principal
  delegated_principal tenant tenant_id agent_id agent grant_id grant until body_sha256 nonce =
      mint lib (record {
        tenant_id = some tenant_id;
        subject = grant.user_subject;
        issuer = grant.user_issuer;
        kind = delegated_human;
        revision = agent.revision;
        tenant_revision = tenant.revision;
        agent_id = some agent_id;
        agent_revision = agent.revision;
        delegation_id = some grant_id;
        delegation_revision = grant.revision;
        user_revision = grant.user_revision;
        grantor_revision = grant.grantor_revision;
        valid_until = min grant.expires_at until;
        capabilities = grant.capabilities;
        targets = grant.targets;
        request_body_sha256 = body_sha256;
        request_nonce = nonce;
        proof = "";
      })

  -- `_agent_principal`, with the grant read where one is named
  unfoldable pub agent_principal :
      Directory
      → ℕ
      → TenantRow
      → String
      → String
      → AgentRow
      → Option String
      → ℕ
      → String
      → String
      → Outcome Principal
  agent_principal d now tenant tenant_id agent_id agent none until body_sha256 nonce =
      done (machine_principal tenant tenant_id agent_id agent until body_sha256 nonce)
  agent_principal d now tenant tenant_id agent_id agent (some grant_id) until body_sha256 nonce = do
    grant ← grant_of d now (some tenant_id) (some grant_id) (some agent_id) agent
    done
        (delegated_principal tenant tenant_id agent_id agent grant_id grant until body_sha256 nonce)

  -- The tests of a request before its transaction: the payload that is signed, and its time.
  unfoldable pub checked_request :
      ℕ → String → String → String → String → String → Option String → Outcome (String × ℕ)
  checked_request now tenant_id agent_id nonce body signature delegation_id = do
    invalid_if (ltb 1048576 (count body) || ltb 256 (count nonce) || not (is_hex 128 signature))
    payload ← canonical_tenant_payload lib tenant_id agent_id nonce body delegation_id
    time ← stamped (lib.stamp nonce)
    invalid_if (out_of_window 300 now time)
    done (payload, time)

  -- `authenticate_agent`: the principal and the tables after the claim of the nonce
  unfoldable pub authenticate_agent :
      ℕ
      → String
      → String
      → String
      → String
      → String
      → Option String
      → Directory
      → Outcome (Principal × Directory)
  authenticate_agent now tenant_id agent_id nonce body signature delegation_id d = do
    checked ← or_denied (checked_request now tenant_id agent_id nonce body signature delegation_id)
    tenant ← tenant_of d (some tenant_id)
    agent ← agent_of d (some tenant_id) (some agent_id)
    deny_if (not (lib.verify agent.public_key_hex signature checked.0))
    p ←
        agent_principal d now tenant tenant_id agent_id agent delegation_id (checked.1 + 300)
          (lib.sha256 body) nonce
    deny_if (has (tenant_id, (agent_id, nonce)) d.replays)
    done (p, record d { replays = insert (tenant_id, (agent_id, nonce)) now d.replays })
