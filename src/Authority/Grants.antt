-- ===== src/Authority/Grants.antt =====
-- What `_grant` of src/governance/authority.py lets through.
use agentbridge.Base.{
  ℕ, String, ◌≡◌, Bool, true, false, not, ◌||◌, Option, none, some, ◌==◌, string_eq, nat_eq,
  pair_eq, arith, subst,
}
use text.Mathlib.TextEquality.{eq_iff}
use agentbridge.Base.Dict.{Dict, lookup}
use agentbridge.Authority.Outcome.{Outcome, done, bind-done, available, deny_if}
use agentbridge.Authority.Tables.{AgentRow, DelegationRow, Directory}
use agentbridge.Authority.Current.{
  select, tenant_of, member_of, grant_of, is_open, grantor_revision,
}
use agentbridge.Authority.Effects.{available-found}

pub select-some :
    {V : Type 0} (o q : Option String) (a b : String) (rows : Dict (String × String) V) (row : V)
    → o ≡ some a
    → q ≡ some b
    → select o q rows ≡ some row
    → lookup (a, b) rows ≡ some row
select-some none q a b rows row e f h = absurd (ground (arith, e))
select-some (some _) none a b rows row e f h = absurd (ground (arith, f))
select-some (some x) (some y) a b rows row e f h = ground (arith, e, f, h)

abbrev is_named : Option String → String → Bool
is_named agent_id name = elim agent_id [ none ↦ false | some a ↦ name == a ]

named-some : (o : Option String) (n : String) → is_named o n ≡ true → o ≡ some n
named-some none n h = absurd (ground (arith, h))
named-some (some a) n h = ground (arith, eq_iff n a, h)

both : (x y : Bool) (u : Unit {0}) → deny_if (not x || not y) ≡ done u → (x ≡ true) × (y ≡ true)
both x y u h = ground (arith, h)

nat-same : (a b : ℕ) → (a == b) ≡ true → a ≡ b
nat-same a b h = ground (arith, h)

done-row : (a b : DelegationRow) → ◌≡◌ {A = Outcome DelegationRow} (done a) (done b) → a ≡ b
done-row a b h = cc

-- A grant that holds is the open row of its key, made for this agent under its present revision.
pub grant_of-found :
    (d : Directory) (now : ℕ) (t g a : Option String) (agent : AgentRow) (row : DelegationRow)
    → grant_of d now t g a agent ≡ done row
    → (select t g d.delegations ≡ some row)
      × (is_open now row ≡ true)
      × (a ≡ some row.agent_id)
      × (row.agent_revision ≡ agent.revision)
unfolding grant_of
grant_of-found d now t g a agent row h =
    let (r, e₁, h₁) = bind-done (available (is_open now) (select t g d.delegations)) _ row h in
    let (u₂, e₂, h₂) =
      bind-done (deny_if (not (is_named a r.agent_id) || not (r.agent_revision == agent.revision)))
        _ row h₁ in
    let (tenant, _, h₃) = bind-done (tenant_of d t) _ row h₂ in
    let (u₄, _, h₄) = bind-done (deny_if (not (r.tenant_revision == tenant.revision))) _ row h₃ in
    let (user, _, h₅) = bind-done (member_of d t r.user_issuer r.user_subject) _ row h₄ in
    let (grantor, _, h₆) = bind-done (grantor_revision d t r r.grantor_kind) _ row h₅ in
    let (u₇, _, h₇) =
      bind-done
        (deny_if (not (user.revision == r.user_revision) || not (grantor == r.grantor_revision))) _
        row h₆ in
    let found = available-found (is_open now) (select t g d.delegations) r e₁ in
    let matched = both (is_named a r.agent_id) (r.agent_revision == agent.revision) u₂ e₂ in
    subst
      (λ x.
        (select t g d.delegations ≡ some x)
        × (is_open now x ≡ true)
        × (a ≡ some x.agent_id)
        × (x.agent_revision ≡ agent.revision))
      (done-row r row h₇)
      (
        found.0,
        found.1,
        named-some a r.agent_id matched.0,
        nat-same r.agent_revision agent.revision matched.1,
      )
