-- ===== src/Checks/Enrolled.antt =====
-- The authority directory at concrete inputs.
use agentbridge.Base.{
  ℕ, String, true, false, none, some, List, [], ◌∷◌, ◌≡◌, ◌≢◌, refl, arith, pair_eq,
}
use agentbridge.Base.Dict.{lookup, insert}
use agentbridge.Authority.Outcome.{done}
use agentbridge.Authority.Tables.{
  platform_admin, machine, TenantRow, PlatformRow, AgentRow, Directory, Principal, Primitives,
}
use agentbridge.Authority.Text.{is_identifier, is_subject, scopes, is_hex}
use agentbridge.Authority.Current.{tenant_of, platform_of, agent_of, verify_seal, current, admin}
use agentbridge.Authority.Enroll.{bootstrap_platform_admin, set_tenant, enroll_agent, revoke_agent}
use agentbridge.Authority.Requests.{
  authenticate_agent, checked_request, canonical_tenant_payload, agent_principal,
}
use agentbridge.Authority.Calls.{
  DirectoryCall, bootstrap_call, tenant_call, enroll_agent_call, revoke_agent_call, serve_all,
  empty_directory,
}
use agentbridge.Authority.Superseded.{Supersedes, superseded-is_denied}
use agentbridge.Authority.Admins.{HasAdmin, serve_all-HasAdmin}
use agentbridge.Authority.Reach.{StaysWithin, authenticate_agent-StaysWithin}

abbrev pub lib : Primitives
lib = record {
  digest = λ p. "mac";
  sha256 = λ s. "hash";
  encode = λ q. "json";
  verify = λ k s m. true;
  loads_key = λ k. true;
  stamp = λ n. some 1000;
  trusted = λ i. true;
}

abbrev lower : String → String
lower s = s

abbrev pub root : Principal
root = record {
  tenant_id = none;
  subject = "root";
  issuer = "https://id";
  kind = platform_admin;
  revision = 1;
  tenant_revision = 0;
  agent_id = none;
  agent_revision = 0;
  delegation_id = none;
  delegation_revision = 0;
  user_revision = 0;
  grantor_revision = 0;
  valid_until = 5000;
  capabilities = [];
  targets = [];
  request_body_sha256 = "";
  request_nonce = "";
  proof = "mac";
}

abbrev pub bot : Principal
bot = record root {
  tenant_id = some "acme";
  kind = machine;
  tenant_revision = 1;
  agent_id = some "bot";
  agent_revision = 1;
  capabilities = "pay" ∷ [];
}

abbrev admin_row : PlatformRow
admin_row = record { revision = 1; active = true }

abbrev tenant_row : TenantRow
tenant_row = record { revision = 1; active = true }

abbrev bot_row : AgentRow
bot_row = record {
  public_key_hex = "aa";
  revision = 1;
  active = true;
  capabilities = "pay" ∷ [];
  targets = [];
}

abbrev pub enrolled : Directory
enrolled = record {
  tenants = ("acme", tenant_row) ∷ [];
  platform_admins = (("https://id", "root"), admin_row) ∷ [];
  members = [];
  agents = (("acme", "bot"), bot_row) ∷ [];
  delegations = [];
  replays = [];
}

abbrev revoked_row : AgentRow
revoked_row = record bot_row { revision = 2; active = false }

abbrev without_bot : Directory
without_bot = record enrolled { agents = (("acme", "bot"), revoked_row) ∷ [] }

superseded-is_denied_example : current lib (serve_all lib lower [] without_bot) 1010 bot ≢ done tt
unfolding Supersedes current verify_seal admin tenant_of platform_of agent_of revoke_agent lookup
    insert
superseded-is_denied_example =
    superseded-is_denied lib bot lower (revoke_agent_call root "acme" "bot") 1001 1000 1010 enrolled
      without_bot [] (refl, refl, refl) refl refl

serve_all-HasAdmin_example :
    HasAdmin (serve_all lib lower ((1001, revoke_agent_call root "acme" "bot") ∷ []) enrolled)
serve_all-HasAdmin_example =
    serve_all-HasAdmin lib lower ((1001, revoke_agent_call root "acme" "bot") ∷ []) enrolled
      (omega arith)

-- The bootstrap, a tenant, an agent, and then the agent's request.
abbrev key : String
key = "00000000000000000000000000000000aaaaaaaaaaaaaaaaaaaaaaaaaaaaaaaa"

abbrev history : List (ℕ × DirectoryCall)
history =
    (1000, bootstrap_call "https://id" "root")
    ∷ (1001, tenant_call root "acme" true)
    ∷ (1002, enroll_agent_call root "acme" "bot" key ("pay" ∷ []) [])
    ∷ []

abbrev signature : String
signature =
    "00000000000000000000000000000000000000000000000000000000000000000000000000000000000000000000000000000000000000000000000000000000"

abbrev asked : Principal
asked = record {
  tenant_id = some "acme";
  subject = "bot";
  issuer = "urn:agentbridge:enrollment";
  kind = machine;
  revision = 1;
  tenant_revision = 1;
  agent_id = some "bot";
  agent_revision = 1;
  delegation_id = none;
  delegation_revision = 0;
  user_revision = 0;
  grantor_revision = 0;
  valid_until = 1300;
  capabilities = "pay" ∷ [];
  targets = [];
  request_body_sha256 = "hash";
  request_nonce = "n";
  proof = "mac";
}

abbrev after_request : Directory
after_request = record enrolled {
  agents = (("acme", "bot"), record bot_row { public_key_hex = key }) ∷ [];
  replays = (("acme", ("bot", "n")), 1003) ∷ [];
}

authenticate_agent-StaysWithin_example :
    (agent : AgentRow) × (lookup
        ("acme", "bot")
        (serve_all lib lower history empty_directory).agents
      ≡ some agent)
    × (agent.active ≡ true)
    × StaysWithin asked agent
unfolding serve_all bootstrap_platform_admin set_tenant enroll_agent scopes is_identifier is_subject
    is_hex admin current verify_seal tenant_of platform_of agent_of authenticate_agent
    checked_request canonical_tenant_payload agent_principal lookup insert
authenticate_agent-StaysWithin_example =
    authenticate_agent-StaysWithin lib lower history 1003 "acme" "bot" "n" "body" signature none
      asked after_request refl
