-- ===== src/Authority/Operators.antt =====
-- Operator tokens, the list of agents and the retention of nonces in src/governance/authority.py.
use Prim.Native.Nat.{Ordering}
use Prim.Native.String.{count, compare}
use agentbridge.Base.{
  ℕ, ◌+◌, String, Bool, true, false, not, ◌&&◌, ◌||◌, Option, none, some, List, [], ◌∷◌, ◌==◌,
  string_eq, leb, ltb, length, if◌then◌else◌, contains, take, filter, map, sort_by,
}
use agentbridge.Base.Dict.{Dict}
use agentbridge.Authority.Outcome.{Outcome, done, denied, deny_if, invalid_if, ◌>>=◌, ◌>>◌}
use agentbridge.Authority.Tables.{
  platform_admin, member, AgentRow, Directory, Principal, Primitives, Triple, triple_eq,
}
use agentbridge.Authority.Text.{is_identifier, is_subject}
use agentbridge.Authority.Current.{tenant_of, platform_of, member_of, mint, admin}

-- The claims of a verified token: `exp` is `none` where it is no finite number.
pub data TenantClaim : Type 0 where
  absent null_claim other_claim : TenantClaim
  text_claim : String → TenantClaim

pub record Claims : Type 0 where
  pub sub : Option String
  pub exp : Option ℕ
  pub iss : Option String
  pub tenant : TenantClaim

abbrev pub says : Option String → String → Bool
says none s = false
says (some t) s = t == s

-- `"tenant_id" in claims and claims["tenant_id"] != tenant_id`
abbrev pub conflicts : TenantClaim → Option String → Bool
conflicts absent tenant_id = false
conflicts null_claim none = false
conflicts (text_claim s) (some t) = not (s == t)
conflicts _ _ = true

-- The subject and the expiry of claims that pass, or `AuthorityDenied`.
abbrev pub accepted_claims :
    ℕ → String → Option String → Claims → Option String → Option ℕ → Option (String × ℕ)
accepted_claims now issuer tenant_id claims (some s) (some until) =
    if is_subject s
      && ltb now until
      && says claims.iss issuer
      && not (conflicts claims.tenant tenant_id)
      && elim tenant_id [ none ↦ true | some x ↦ is_identifier x ]
    then some (s, until)
    else none
accepted_claims now issuer tenant_id claims _ _ = none

abbrev pub or_deny {ℓ} : {A : Type ℓ} → Option A → Outcome A
or_deny none = denied
or_deny (some a) = done a

abbrev pub option_bind {ℓ κ} : {A : Type ℓ} {B : Type κ} → Option A → (A → Option B) → Option B
option_bind none f = none
option_bind (some a) f = f a

module _ (lib : Primitives) (verify_token : String → String → Option Claims) where
  abbrev pub operator_principal :
      Directory → String → String → ℕ → Option String → Outcome Principal
  operator_principal d issuer subject until none = do
    row ← platform_of d issuer subject
    done (
        mint lib (record {
          tenant_id = none;
          subject = subject;
          issuer = issuer;
          kind = platform_admin;
          revision = row.revision;
          tenant_revision = 0;
          agent_id = none;
          agent_revision = 0;
          delegation_id = none;
          delegation_revision = 0;
          user_revision = 0;
          grantor_revision = 0;
          valid_until = until;
          capabilities = [];
          targets = [];
          request_body_sha256 = "";
          request_nonce = "";
          proof = "";
        }))
  operator_principal d issuer subject until (some tenant_id) = do
    tenant ← tenant_of d (some tenant_id)
    row ← member_of d (some tenant_id) issuer subject
    done (
        mint lib (record {
          tenant_id = some tenant_id;
          subject = subject;
          issuer = issuer;
          kind = member row.role;
          revision = row.revision;
          tenant_revision = tenant.revision;
          agent_id = none;
          agent_revision = 0;
          delegation_id = none;
          delegation_revision = 0;
          user_revision = 0;
          grantor_revision = 0;
          valid_until = until;
          capabilities = row.capabilities;
          targets = row.targets;
          request_body_sha256 = "";
          request_nonce = "";
          proof = "";
        }))

  -- `authenticate_operator`
  unfoldable pub authenticate_operator :
      ℕ → String → String → Option String → Directory → Outcome Principal
  authenticate_operator now issuer token tenant_id d = do
    deny_if (not (lib.trusted issuer) || not (leb 1 (count token) && leb (count token) 16384))
    who ← or_deny (
        option_bind (verify_token issuer token)
          (λ c. accepted_claims now issuer tenant_id c c.sub c.exp))
    operator_principal d issuer who.0 who.1 tenant_id

module _ (lib : Primitives) where
  -- `ORDER BY agent_id`
  abbrev pub put_agent : String × AgentRow → List (String × AgentRow) → List (String × AgentRow)
  put_agent a [] = a ∷ []
  put_agent a (b ∷ bs) =
      let rest = put_agent a bs in
      elim (compare a.0 b.0) [ Ordering.gt ↦ b ∷ rest | _ ↦ a ∷ b ∷ bs ]

  abbrev pub agents_of : String → Dict (String × String) AgentRow → List (String × AgentRow)
  agents_of tenant_id [] = []
  agents_of tenant_id (((t, a), row) ∷ rows) =
      let rest = agents_of tenant_id rows in
      if t == tenant_id then put_agent (a, row) rest else rest

  -- `list_agents`
  unfoldable pub list_agents :
      ℕ → Principal → String → Directory → Outcome (List (String × AgentRow))
  list_agents now actor tenant_id d = do
    admin lib d now actor (some tenant_id)
    tenant ← tenant_of d (some tenant_id)
    done (agents_of tenant_id d.agents)

  -- `DELETE … WHERE at < now - 600 ORDER BY at LIMIT limit`
  abbrev pub old_replays : ℕ → ℕ → Dict Triple ℕ → List Triple
  old_replays now limit rows =
      map (λ r. r.0) (take limit (sort_by (λ r. r.1) (filter (λ r. ltb (r.1 + 600) now) rows)))

  -- `prune_replays`: how many rows went, and the tables
  unfoldable pub prune_replays : ℕ → Principal → ℕ → Directory → Outcome (ℕ × Directory)
  prune_replays now actor limit d = do
    invalid_if (not (leb 1 limit && leb limit 10000))
    admin lib d now actor none
    let old = old_replays now limit d.replays
    done (length old, record d { replays = filter (λ r. not (contains r.0 old)) d.replays })
