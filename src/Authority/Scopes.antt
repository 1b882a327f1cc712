-- ===== src/Authority/Scopes.antt =====
-- What a delegation of src/governance/authority.py can reach.
use agentbridge.Base.{
  ℕ, suc, ◌≤◌, String, ◌≡◌, refl, true, Option, some, List, [], ◌∷◌, ◌==◌, string_eq, pair_eq,
  pair_beq, pair_beq_iff, ap, arith, Bool-cases, inl, inr, subst,
}
use agentbridge.Base.Dict.{lookup, insert, lookup-insert}
use agentbridge.Authority.Outcome.{Outcome, done, denied, invalid, integrity}
use agentbridge.Authority.Tables.{AgentRow, DelegationRow, Directory, Primitives, triple_eq}
use agentbridge.Authority.Delegate.{subset, ended_row}
use agentbridge.Authority.Calls.{DirectoryCall, serve, committed, serve_all, empty_directory}
use agentbridge.Authority.Served.{serve-Effect}
use agentbridge.Authority.Effects.{
  IsNewer, Effect, bootstrap_effect, tenant_effect, enroll_admin_effect, revoke_admin_effect,
  member_effect, agent_effect, grant_effect, end_effect, replays_effect,
}
use agentbridge.Authority.Held.{newer-lt}

-- A delegation made under the present revision of its agent stays within the agent's scopes.
abbrev pub IsWithin : DelegationRow → AgentRow → Type 0
IsWithin row agent =
    (row.agent_revision ≤ agent.revision)
    × (row.agent_revision ≡ agent.revision
        → (subset row.capabilities agent.capabilities ≡ true)
          × (subset row.targets agent.targets ≡ true))

abbrev pub HasAgent : Directory → String → DelegationRow → Type 0
HasAgent d t row =
    (agent : AgentRow) × (lookup (t, row.agent_id) d.agents ≡ some agent) × IsWithin row agent

pub record AreWithin (d : Directory) : Type 0 where
  pub at :
      (t g : String) (row : DelegationRow)
      → lookup (t, g) d.delegations ≡ some row
      → HasAgent d t row

-- A newer agent row leaves the delegation behind.
stale :
    (row : DelegationRow) (agent new : AgentRow)
    → IsWithin row agent
    → suc agent.revision ≤ new.revision
    → IsWithin row new
stale row agent new (le, fits) lt = (omega (arith, le, lt), λ e. absurd (omega (arith, e, le, lt)))

agent-written :
    (k : String × String) (new : AgentRow) (d : Directory)
    → IsNewer (λ (r : AgentRow). r.revision) new (lookup k d.agents)
    → AreWithin d
    → AreWithin (record d { agents = insert k new d.agents })
agent-written k new d n w = record {
  at = λ t g row h.
      let (agent, e, within) = w.at t g row h in
      elim (Bool-cases (k == (t, row.agent_id))) [
        | inl same ↦
            let there : lookup k d.agents ≡ some agent =
              ground (arith, pair_beq_iff k (t, row.agent_id), same, e) in
            (
              new,
              rw (lookup-insert k (t, row.agent_id) new d.agents, same) refl,
              stale row agent new within (newer-lt _ new agent _ n there),
            )
        | inr other ↦ (agent, rw (lookup-insert k (t, row.agent_id) new d.agents, other) e, within)
      ];
}

row-written : (a b : DelegationRow) → ◌≡◌ {A = Option DelegationRow} (some a) (some b) → a ≡ b
row-written a b h = cc

delegation-written :
    (t g : String) (new : DelegationRow) (d : Directory)
    → HasAgent d t new
    → AreWithin d
    → AreWithin (record d { delegations = insert (t, g) new d.delegations })
delegation-written t g new d fits w = record {
  at = λ t' g' row h.
      let written = lookup-insert (t, g) (t', g') new d.delegations in
      elim (Bool-cases (pair_beq (t, g) (t', g'))) [
        | inl same ↦
            let there : ◌≡◌ {A = Option DelegationRow} (some new) (some row) =
              ground (arith, written, same, h) in
            let key = (pair_beq_iff (t, g) (t', g')).0 same in
            subst (λ u. HasAgent d u row) (ap (λ q. q.0) key)
              (subst (HasAgent d t) (row-written new row there) fits)
        | inr other ↦ w.at t' g' row (ground (arith, written, other, h))
      ];
}

Effect-AreWithin : (d d' : Directory) → Effect d d' → AreWithin d → AreWithin d'
Effect-AreWithin d _ (bootstrap_effect k _) w = record { at = w.at }
Effect-AreWithin d _ (enroll_admin_effect k new _ _) w = record { at = w.at }
Effect-AreWithin d _ (revoke_admin_effect k new _ _) w = record { at = w.at }
Effect-AreWithin d _ (tenant_effect t new n) w = record { at = w.at }
Effect-AreWithin d _ (member_effect k new n) w = record { at = w.at }
Effect-AreWithin d _ (replays_effect rows) w = record { at = w.at }
Effect-AreWithin d _ (agent_effect k new n) w = agent-written k new d n w
Effect-AreWithin d _ (grant_effect t g new agent free e same abilities places) w =
    delegation-written t g new d (agent, e, (omega (arith, same), λ _. (abilities, places))) w
Effect-AreWithin d _ (end_effect k old h) w =
    delegation-written k.0 k.1 (ended_row old) d (w.at k.0 k.1 old h) w

pub AreWithin-nothing : AreWithin empty_directory
unfolding lookup
AreWithin-nothing = record { at = λ t g row h. absurd (ground (arith, h)) }

module _ (lib : Primitives) (lower : String → String) where
  committed-AreWithin :
      (now : ℕ) (c : DirectoryCall) (d : Directory)
      → AreWithin d
      → AreWithin (committed lib lower d (serve lib lower now c d))
  committed-AreWithin now c d w = go (serve lib lower now c d) refl
    where
      go :
          (o : Outcome Directory)
          → serve lib lower now c d ≡ o
          → AreWithin (committed lib lower d o)
      go (done e) s = Effect-AreWithin d e (serve-Effect lib lower now d e c s).0 w
      go denied s = w
      go invalid s = w
      go integrity s = w

  pub serve_all-AreWithin :
      (cs : List (ℕ × DirectoryCall)) (d : Directory)
      → AreWithin d
      → AreWithin (serve_all lib lower cs d)
  unfolding serve_all
  serve_all-AreWithin [] d w = w
  serve_all-AreWithin ((now, c) ∷ cs) d w = serve_all-AreWithin cs _ (committed-AreWithin now c d w)
