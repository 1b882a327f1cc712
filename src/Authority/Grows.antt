-- ===== src/Authority/Grows.antt =====
-- No call of src/governance/authority.py removes a row of its five enrollment tables or lowers a
-- revision.
use agentbridge.Base.{
  ℕ, ◌≤◌, String, ◌≡◌, refl, true, Option, none, some, List, [], ◌∷◌, ◌==◌, Eq, string_eq, pair_eq,
  arith, Bool-cases, inl, inr,
}
use agentbridge.Base.Dict.{Dict, lookup, insert, lookup-insert}
use agentbridge.Authority.Outcome.{Outcome, done, denied, invalid, integrity}
use agentbridge.Authority.Tables.{
  TenantRow, PlatformRow, MemberRow, AgentRow, DelegationRow, Directory, Primitives, Triple,
  triple_eq,
}
use agentbridge.Authority.Enroll.{is_empty_table}
use agentbridge.Authority.Calls.{DirectoryCall, serve, committed, serve_all}
use agentbridge.Authority.Served.{serve-Effect}
use agentbridge.Authority.Effects.{
  IsNewer, Effect, bootstrap_effect, tenant_effect, enroll_admin_effect, revoke_admin_effect,
  member_effect, agent_effect, grant_effect, end_effect, replays_effect,
}

-- Every row is kept, under a revision that is no lower.
pub record Kept {K V : Type 0} ⦃e : Eq K⦄ (revision : V → ℕ) (d d' : Dict K V) : Type 0 where
  pub at :
      (k : K) (row : V)
      → lookup k d ≡ some row
      → (row' : V) × (lookup k d' ≡ some row') × (revision row ≤ revision row')

newer-le :
    {V : Type 0} (revision : V → ℕ) (new : V) (o : Option V) (old : V)
    → IsNewer revision new o
    → o ≡ some old
    → revision old ≤ revision new
newer-le revision new none old n h = absurd (ground (arith, h))
newer-le revision new (some v) old n h = ground (arith, n, h)

module _ {K V : Type 0} ⦃e : Eq K⦄ (revision : V → ℕ) where
  pub Kept-refl : (d : Dict K V) → Kept revision d d
  Kept-refl d = record { at = λ k row h. (row, h, omega arith) }

  pub Kept-trans : (a b c : Dict K V) → Kept revision a b → Kept revision b c → Kept revision a c
  Kept-trans a b c p q = record {
    at = λ k row h.
        let (row₁, h₁, le₁) = p.at k row h in
        let (row₂, h₂, le₂) = q.at k row₁ h₁ in (row₂, h₂, omega (arith, le₁, le₂));
  }

  pub Kept-insert :
      (k : K) (new : V) (d : Dict K V)
      → ((old : V) → lookup k d ≡ some old → revision old ≤ revision new)
      → Kept revision d (insert k new d)
  Kept-insert k new d grows = record {
    at = λ j row h. elim (Bool-cases (k == j)) [
      | inl same ↦ (
        new,
        rw (lookup-insert k j new d, same) refl,
        ground (arith, e.beq_iff k j, grows row, h, same),
      )
      | inr other ↦ (row, rw (lookup-insert k j new d, other) h, omega arith)
    ];
  }

  pub Kept-newer :
      (k : K) (new : V) (d : Dict K V)
      → IsNewer revision new (lookup k d)
      → Kept revision d (insert k new d)
  Kept-newer k new d n = Kept-insert k new d (λ old h. newer-le revision new (lookup k d) old n h)

pub record Grows (d d' : Directory) : Type 0 where
  pub tenants_kept : Kept (λ (r : TenantRow). r.revision) d.tenants d'.tenants
  pub admins_kept : Kept (λ (r : PlatformRow). r.revision) d.platform_admins d'.platform_admins
  pub members_kept : Kept (λ (r : MemberRow). r.revision) d.members d'.members
  pub agents_kept : Kept (λ (r : AgentRow). r.revision) d.agents d'.agents
  pub delegations_kept : Kept (λ (r : DelegationRow). r.revision) d.delegations d'.delegations

pub Grows-refl : (d : Directory) → Grows d d
Grows-refl d = record {
  tenants_kept = Kept-refl _ d.tenants;
  admins_kept = Kept-refl _ d.platform_admins;
  members_kept = Kept-refl _ d.members;
  agents_kept = Kept-refl _ d.agents;
  delegations_kept = Kept-refl _ d.delegations;
}

pub Grows-trans : (a b c : Directory) → Grows a b → Grows b c → Grows a c
Grows-trans a b c p q = record {
  tenants_kept = Kept-trans _ a.tenants b.tenants c.tenants p.tenants_kept q.tenants_kept;
  admins_kept =
      Kept-trans _ a.platform_admins b.platform_admins c.platform_admins p.admins_kept
        q.admins_kept;
  members_kept = Kept-trans _ a.members b.members c.members p.members_kept q.members_kept;
  agents_kept = Kept-trans _ a.agents b.agents c.agents p.agents_kept q.agents_kept;
  delegations_kept =
      Kept-trans _ a.delegations b.delegations c.delegations p.delegations_kept q.delegations_kept;
}

module _ (d : Directory) where
  Grows-tenants :
      (rows : Dict String TenantRow)
      → Kept (λ (r : TenantRow). r.revision) d.tenants rows
      → Grows d (record d { tenants = rows })
  Grows-tenants rows kept =
      let g = Grows-refl d in
      record {
        tenants_kept = kept;
        admins_kept = g.admins_kept;
        members_kept = g.members_kept;
        agents_kept = g.agents_kept;
        delegations_kept = g.delegations_kept;
      }

  Grows-platform_admins :
      (rows : Dict (String × String) PlatformRow)
      → Kept (λ (r : PlatformRow). r.revision) d.platform_admins rows
      → Grows d (record d { platform_admins = rows })
  Grows-platform_admins rows kept =
      let g = Grows-refl d in
      record {
        tenants_kept = g.tenants_kept;
        admins_kept = kept;
        members_kept = g.members_kept;
        agents_kept = g.agents_kept;
        delegations_kept = g.delegations_kept;
      }

  Grows-members :
      (rows : Dict Triple MemberRow)
      → Kept (λ (r : MemberRow). r.revision) d.members rows
      → Grows d (record d { members = rows })
  Grows-members rows kept =
      let g = Grows-refl d in
      record {
        tenants_kept = g.tenants_kept;
        admins_kept = g.admins_kept;
        members_kept = kept;
        agents_kept = g.agents_kept;
        delegations_kept = g.delegations_kept;
      }

  Grows-agents :
      (rows : Dict (String × String) AgentRow)
      → Kept (λ (r : AgentRow). r.revision) d.agents rows
      → Grows d (record d { agents = rows })
  Grows-agents rows kept =
      let g = Grows-refl d in
      record {
        tenants_kept = g.tenants_kept;
        admins_kept = g.admins_kept;
        members_kept = g.members_kept;
        agents_kept = kept;
        delegations_kept = g.delegations_kept;
      }

  Grows-delegations :
      (rows : Dict (String × String) DelegationRow)
      → Kept (λ (r : DelegationRow). r.revision) d.delegations rows
      → Grows d (record d { delegations = rows })
  Grows-delegations rows kept =
      let g = Grows-refl d in
      record {
        tenants_kept = g.tenants_kept;
        admins_kept = g.admins_kept;
        members_kept = g.members_kept;
        agents_kept = g.agents_kept;
        delegations_kept = kept;
      }

empty-none :
    {V : Type 0} (rows : Dict (String × String) V) (k : String × String)
    → is_empty_table rows ≡ true
    → lookup k rows ≡ none
unfolding lookup
empty-none [] k h = refl
empty-none (r ∷ rows) k h = absurd (ground (arith, h))

pub Effect-Grows : (d d' : Directory) → Effect d d' → Grows d d'
Effect-Grows d _ (bootstrap_effect k h) = Grows-platform_admins d _ (
    Kept-insert _ k _ d.platform_admins
      (λ old e. absurd (ground (arith, e, empty-none d.platform_admins k h))))
Effect-Grows d _ (tenant_effect t new n) = Grows-tenants d _ (Kept-newer _ t new d.tenants n)
Effect-Grows d _ (enroll_admin_effect k new n _) =
    Grows-platform_admins d _ (Kept-newer _ k new d.platform_admins n)
Effect-Grows d _ (revoke_admin_effect k new n _) =
    Grows-platform_admins d _ (Kept-newer _ k new d.platform_admins n)
Effect-Grows d _ (member_effect k new n) = Grows-members d _ (Kept-newer _ k new d.members n)
Effect-Grows d _ (agent_effect k new n) = Grows-agents d _ (Kept-newer _ k new d.agents n)
Effect-Grows d _ (grant_effect t g new agent free _ _ _ _) =
    Grows-delegations d _
      (Kept-insert _ (t, g) new d.delegations (λ old e. absurd (ground (arith, e, free))))
Effect-Grows d _ (end_effect k old h) =
    Grows-delegations d _ (Kept-insert _ k _ d.delegations (λ row e. ground (arith, e, h)))
Effect-Grows d _ (replays_effect rows) =
    let g = Grows-refl d in
    record {
      tenants_kept = g.tenants_kept;
      admins_kept = g.admins_kept;
      members_kept = g.members_kept;
      agents_kept = g.agents_kept;
      delegations_kept = g.delegations_kept;
    }

module _ (lib : Primitives) (lower : String → String) where
  pub committed-Grows :
      (now : ℕ) (c : DirectoryCall) (d : Directory)
      → Grows d (committed lib lower d (serve lib lower now c d))
  committed-Grows now c d = go (serve lib lower now c d) refl
    where
      go : (o : Outcome Directory) → serve lib lower now c d ≡ o → Grows d (committed lib lower d o)
      go (done e) h = Effect-Grows d e (serve-Effect lib lower now d e c h).0
      go denied h = Grows-refl d
      go invalid h = Grows-refl d
      go integrity h = Grows-refl d

  pub serve_all-Grows :
      (cs : List (ℕ × DirectoryCall)) (d : Directory) → Grows d (serve_all lib lower cs d)
  unfolding serve_all
  serve_all-Grows [] d = Grows-refl d
  serve_all-Grows ((now, c) ∷ cs) d =
      let e = committed lib lower d (serve lib lower now c d) in
      Grows-trans d e (serve_all lib lower cs e) (committed-Grows now c d) (serve_all-Grows cs e)
