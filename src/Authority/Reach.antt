-- ===== src/Authority/Reach.antt =====
-- The scopes of a principal that src/governance/authority.py mints for a signed request.
use agentbridge.Base.{
  ℕ, ◌+◌, String, ◌≡◌, true, not, Option, none, some, List, [], ◌∷◌, string_eq, pair_eq, arith,
  contains, subst,
}
use text.Mathlib.TextEquality.{eq_iff}
use agentbridge.Base.Dict.{lookup, has}
use agentbridge.Authority.Outcome.{Outcome, done, bind-done, deny_if}
use agentbridge.Authority.Tables.{TenantRow, AgentRow, Directory, Principal, Primitives, triple_eq}
use agentbridge.Authority.Current.{tenant_of, agent_of, grant_of}
use agentbridge.Authority.Delegate.{subset}
use agentbridge.Authority.Requests.{or_denied, checked_request, agent_principal, authenticate_agent}
use agentbridge.Authority.Calls.{DirectoryCall, serve_all, empty_directory}
use agentbridge.Authority.Effects.{available-found}
use agentbridge.Authority.Grants.{grant_of-found}
use agentbridge.Authority.Scopes.{AreWithin, AreWithin-nothing, serve_all-AreWithin}

subset-contains :
    (c : String) (xs ys : List String)
    → subset xs ys ≡ true
    → contains c xs ≡ true
    → contains c ys ≡ true
subset-contains c [] ys h m = absurd (ground (arith, m))
subset-contains c (x ∷ xs) ys h m = ground (arith, h, m, eq_iff x c, subset-contains c xs ys)

-- The principal asks for no more than the row allows.
abbrev pub StaysWithin : Principal → AgentRow → Type 0
StaysWithin p agent =
    ((c : String) → contains c p.capabilities ≡ true → contains c agent.capabilities ≡ true)
    × ((c : String) → contains c p.targets ≡ true → contains c agent.targets ≡ true)

minted : {a b : Principal} → ◌≡◌ {A = Outcome Principal} (done a) (done b) → a ≡ b
minted h = cc

module _ (lib : Primitives) (d : Directory) (w : AreWithin d) where
  agent_principal-StaysWithin :
      (now : ℕ) (tenant : TenantRow) (t a : String) (agent : AgentRow) (del : Option String)
      (until : ℕ) (body n : String) (p : Principal)
      → lookup (t, a) d.agents ≡ some agent
      → agent_principal lib d now tenant t a agent del until body n ≡ done p
      → StaysWithin p agent
  unfolding agent_principal
  agent_principal-StaysWithin now tenant t a agent none until body n p e h =
      subst (λ q. StaysWithin q agent) (minted h) (λ c m. m, λ c m. m)
  agent_principal-StaysWithin now tenant t a agent (some g) until body n p e h =
      let (grant, e₁, h₁) = bind-done (grant_of d now (some t) (some g) (some a) agent) _ p h in
      let (found, _, named, fresh) =
        grant_of-found d now (some t) (some g) (some a) agent grant e₁ in
      let (row, e₂, within) = w.at t g grant found in
      let same : row ≡ agent = ground (arith, e, e₂, named) in
      let fits = (rw same at within.1) fresh in
      subst (λ q. StaysWithin q agent) (minted h₁)
        (λ c m. subset-contains c _ _ fits.0 m, λ c m. subset-contains c _ _ fits.1 m)

-- Whatever was enrolled, granted and revoked before, a request that is authenticated gives a principal
-- whose capabilities and targets are among those of the agent's present row, which is active, also
-- where the request names a delegation.
pub authenticate_agent-StaysWithin :
    (lib : Primitives) (lower : String → String) (cs : List (ℕ × DirectoryCall)) (now : ℕ)
    (t a n body signature : String) (del : Option String) (p : Principal) (d' : Directory)
    → authenticate_agent lib now t a n body signature del (serve_all lib lower cs empty_directory)
      ≡ done (p, d')
    → (agent : AgentRow) × (lookup (t, a) (serve_all lib lower cs empty_directory).agents
        ≡ some agent)
      × (agent.active ≡ true)
      × StaysWithin p agent
unfolding authenticate_agent agent_of
authenticate_agent-StaysWithin lib lower cs now t a n body signature del p d' h =
    let d = serve_all lib lower cs empty_directory in
    let w = serve_all-AreWithin lib lower cs empty_directory AreWithin-nothing in
    let (checked, _, h₁) =
      bind-done (or_denied (checked_request lib now t a n body signature del)) _ (p, d') h in
    let (tenant, _, h₂) = bind-done (tenant_of d (some t)) _ (p, d') h₁ in
    let (agent, e, h₃) = bind-done (agent_of d (some t) (some a)) _ (p, d') h₂ in
    let (u₄, _, h₄) =
      bind-done (deny_if (not (lib.verify agent.public_key_hex signature checked.0))) _ (p, d')
        h₃ in
    let (q, e₅, h₅) =
      bind-done
        (agent_principal lib d now tenant t a agent del (checked.1 + 300) (lib.sha256 body) n) _
        (p, d') h₄ in
    let (u₆, _, h₆) = bind-done (deny_if (has (t, (a, n)) d.replays)) _ (p, d') h₅ in
    let found = available-found _ (lookup (t, a) d.agents) agent e in
    let same : q ≡ p = cc h₆ in
    (
      agent,
      found.0,
      found.1,
      subst (λ r. StaysWithin r agent) same
          (agent_principal-StaysWithin lib d w now tenant t a agent del _ _ n q found.0 e₅),
    )
