-- ===== src/Authority/Calls.antt =====
-- The calls of src/governance/authority.py that write, in any order, by any caller.
use agentbridge.Base.{ℕ, String, Bool, Option, List, [], ◌∷◌}
use agentbridge.Authority.Outcome.{Outcome, done, ◌>>=◌}
use agentbridge.Authority.Tables.{Role, Directory, Principal, Primitives}
use agentbridge.Authority.Enroll.{
  bootstrap_platform_admin, set_tenant, enroll_platform_admin, revoke_platform_admin, enroll_member,
  enroll_agent, revoke_agent, revoke_member,
}
use agentbridge.Authority.Delegate.{grant_delegation, revoke_delegation}
use agentbridge.Authority.Requests.{authenticate_agent}
use agentbridge.Authority.Operators.{prune_replays}

pub data DirectoryCall : Type 0 where
  bootstrap_call : String → String → DirectoryCall
  tenant_call : Principal → String → Bool → DirectoryCall
  enroll_platform_call revoke_platform_call : Principal → String → String → DirectoryCall
  enroll_member_call :
      Principal → String → String → String → Role → List String → List String → DirectoryCall
  enroll_agent_call :
      Principal → String → String → String → List String → List String → DirectoryCall
  revoke_agent_call : Principal → String → String → DirectoryCall
  revoke_member_call : Principal → String → String → String → DirectoryCall
  grant_call :
      String
      → Principal
      → Principal
      → String
      → List String
      → List String
      → ℕ
      → Option ℕ
      → DirectoryCall
  revoke_delegation_call : Principal → String → String → DirectoryCall
  request_call : String → String → String → String → String → Option String → DirectoryCall
  prune_call : Principal → ℕ → DirectoryCall

-- The tables before anyone is enrolled.
abbrev pub empty_directory : Directory
empty_directory = record {
  tenants = [];
  platform_admins = [];
  members = [];
  agents = [];
  delegations = [];
  replays = [];
}

abbrev pub second {ℓ} : {A : Type ℓ} → Outcome (A × Directory) → Outcome Directory
second m = m >>= λ r. done r.1

module _ (lib : Primitives) (lower : String → String) where
  abbrev pub serve : ℕ → DirectoryCall → Directory → Outcome Directory
  serve now (bootstrap_call i s) d = bootstrap_platform_admin lib i s d
  serve now (tenant_call p t active) d = set_tenant lib now p t active d
  serve now (enroll_platform_call p i s) d = enroll_platform_admin lib now p i s d
  serve now (revoke_platform_call p i s) d = revoke_platform_admin lib now p i s d
  serve now (enroll_member_call p t i s r cs ts) d = enroll_member lib now p t i s r cs ts d
  serve now (enroll_agent_call p t a k cs ts) d = enroll_agent lib lower now p t a k cs ts d
  serve now (revoke_agent_call p t a) d = revoke_agent lib now p t a d
  serve now (revoke_member_call p t i s) d = revoke_member lib now p t i s d
  serve now (grant_call g p u a cs ts until start) d =
      grant_delegation lib now g p u a cs ts until start d
  serve now (revoke_delegation_call p t g) d = revoke_delegation lib now p t g d
  serve now (request_call t a n body sig del) d =
      second (authenticate_agent lib now t a n body sig del d)
  serve now (prune_call p limit) d = second (prune_replays lib now p limit d)

  -- What a transaction leaves: a call that is refused rolls back.
  abbrev pub committed : Directory → Outcome Directory → Directory
  committed d (done e) = e
  committed d _ = d

  unfoldable pub serve_all : List (ℕ × DirectoryCall) → Directory → Directory
  serve_all [] d = d
  serve_all ((now, c) ∷ cs) d = serve_all cs (committed d (serve now c d))
