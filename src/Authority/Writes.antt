-- ===== src/Authority/Writes.antt =====
-- What the enrollments and revocations of src/governance/authority.py write.
use agentbridge.Base.{
  ℕ, String, ◌≡◌, refl, Bool, not, ◌&&◌, none, some, List, string_eq, pair_eq, arith, leb, subst,
}
use agentbridge.Base.Dict.{lookup}
use agentbridge.Authority.Outcome.{done, bind-done, deny_if, invalid_if}
use agentbridge.Authority.Tables.{Role, Directory, Principal, Primitives, triple_eq}
use agentbridge.Authority.Text.{scopes, is_identifier, is_subject, is_hex}
use agentbridge.Authority.Current.{tenant_of, platform_of, member_of, agent_of, admin}
use agentbridge.Authority.Enroll.{
  set_tenant_row, enrolled_admin, enrolled_member, enrolled_agent, revoked_admin, revoked_agent,
  revoked_member, active_admins, is_empty_table, bootstrap_platform_admin, set_tenant,
  enroll_platform_admin, revoke_platform_admin, enroll_member, enroll_agent, revoke_agent,
  revoke_member,
}
use agentbridge.Authority.Calls.{
  bootstrap_call, tenant_call, enroll_platform_call, revoke_platform_call, enroll_member_call,
  enroll_agent_call, revoke_agent_call, revoke_member_call,
}
use agentbridge.Authority.Effects.{
  bootstrap_effect, tenant_effect, enroll_admin_effect, revoke_admin_effect, member_effect,
  agent_effect, available-found, Wrote, done-injective, next-IsNewer, found-IsNewer, insert-Bumped,
}

module _ (lib : Primitives) (lower : String → String) (now : ℕ) (d d' : Directory) where
  pub bootstrap-Effect :
      (i s : String)
      → bootstrap_platform_admin lib i s d ≡ done d'
      → Wrote (bootstrap_call i s) d d'
  unfolding bootstrap_platform_admin
  bootstrap-Effect i s h =
      let (u, e₁, e₂) = bind-done (invalid_if (not (lib.trusted i))) _ d' h in
      let (v, e₃, e₄) = bind-done (invalid_if (not (is_subject s))) _ d' e₂ in
      let (z, e₅, e₆) = bind-done (deny_if (not (is_empty_table d.platform_admins))) _ d' e₄ in
      subst (Wrote (bootstrap_call i s) d) (done-injective e₆)
        ((bootstrap_effect (i, s) (ground (arith, e₅))), tt)

  pub tenant-Effect :
      (p : Principal) (t : String) (active : Bool)
      → set_tenant lib now p t active d ≡ done d'
      → Wrote (tenant_call p t active) d d'
  unfolding set_tenant
  tenant-Effect p t active h =
      let (u, e₁, e₂) = bind-done (invalid_if (not (is_identifier t))) _ d' h in
      let (v, e₃, e₄) = bind-done (admin lib d now p none) _ d' e₂ in
      let newer =
        (next-IsNewer _ (set_tenant_row active (lookup t d.tenants)) (lookup t d.tenants) refl) in
      subst (Wrote (tenant_call p t active) d) (done-injective e₄)
        ((tenant_effect t _ newer), insert-Bumped _ t _ d.tenants newer)

  pub enroll_admin-Effect :
      (p : Principal) (i s : String)
      → enroll_platform_admin lib now p i s d ≡ done d'
      → Wrote (enroll_platform_call p i s) d d'
  unfolding enroll_platform_admin
  enroll_admin-Effect p i s h =
      let (u, e₁, e₂) = bind-done (invalid_if (not (lib.trusted i))) _ d' h in
      let (v, e₃, e₄) = bind-done (invalid_if (not (is_subject s))) _ d' e₂ in
      let (z, e₅, e₆) = bind-done (admin lib d now p none) _ d' e₄ in
      let newer =
        (next-IsNewer _ (enrolled_admin (lookup (i, s) d.platform_admins))
          (lookup (i, s) d.platform_admins) refl) in
      subst (Wrote (enroll_platform_call p i s) d) (done-injective e₆) (
        (enroll_admin_effect (i, s) _ newer refl),
        insert-Bumped _ (i, s) _ d.platform_admins newer,
      )

  pub revoke_admin-Effect :
      (p : Principal) (i s : String)
      → revoke_platform_admin lib now p i s d ≡ done d'
      → Wrote (revoke_platform_call p i s) d d'
  unfolding revoke_platform_admin platform_of
  revoke_admin-Effect p i s h =
      let (u, e₁, e₂) = bind-done (admin lib d now p none) _ d' h in
      let (row, e₃, e₄) = bind-done (platform_of d i s) _ d' e₂ in
      let (z, e₅, e₆) = bind-done (deny_if (leb (active_admins d.platform_admins) 1)) _ d' e₄ in
      let found = available-found _ (lookup (i, s) d.platform_admins) row e₃ in
      let newer = (found-IsNewer _ (revoked_admin row) row _ found.0 refl) in
      subst (Wrote (revoke_platform_call p i s) d) (done-injective e₆) (
        (revoke_admin_effect (i, s) _ newer (ground (arith, e₅))),
        insert-Bumped _ (i, s) _ d.platform_admins newer,
      )

  pub revoke_agent-Effect :
      (p : Principal) (t a : String)
      → revoke_agent lib now p t a d ≡ done d'
      → Wrote (revoke_agent_call p t a) d d'
  unfolding revoke_agent agent_of
  revoke_agent-Effect p t a h =
      let (u, e₁, e₂) = bind-done (admin lib d now p (some t)) _ d' h in
      let (row, e₃, e₄) = bind-done (agent_of d (some t) (some a)) _ d' e₂ in
      let found = available-found _ (lookup (t, a) d.agents) row e₃ in
      let newer = (found-IsNewer _ (revoked_agent row) row _ found.0 refl) in
      subst (Wrote (revoke_agent_call p t a) d) (done-injective e₄)
        ((agent_effect (t, a) _ newer), insert-Bumped _ (t, a) _ d.agents newer)

  pub revoke_member-Effect :
      (p : Principal) (t i s : String)
      → revoke_member lib now p t i s d ≡ done d'
      → Wrote (revoke_member_call p t i s) d d'
  unfolding revoke_member member_of
  revoke_member-Effect p t i s h =
      let (u, e₁, e₂) = bind-done (admin lib d now p (some t)) _ d' h in
      let (row, e₃, e₄) = bind-done (member_of d (some t) i s) _ d' e₂ in
      let found = available-found _ (lookup (t, (i, s)) d.members) row e₃ in
      let newer = (found-IsNewer _ (revoked_member row) row _ found.0 refl) in
      subst (Wrote (revoke_member_call p t i s) d) (done-injective e₄)
        ((member_effect (t, (i, s)) _ newer), insert-Bumped _ (t, (i, s)) _ d.members newer)

  pub enroll_member-Effect :
      (p : Principal) (t i s : String) (r : Role) (cs ts : List String)
      → enroll_member lib now p t i s r cs ts d ≡ done d'
      → Wrote (enroll_member_call p t i s r cs ts) d d'
  unfolding enroll_member
  enroll_member-Effect p t i s r cs ts h =
      let (u₁, _, h₁) = bind-done (invalid_if (not (is_identifier t))) _ d' h in
      let (u₂, _, h₂) = bind-done (invalid_if (not (is_subject s))) _ d' h₁ in
      let (u₃, _, h₃) = bind-done (invalid_if (not (lib.trusted i))) _ d' h₂ in
      let (abilities, _, h₄) = bind-done (scopes cs) _ d' h₃ in
      let (places, _, h₅) = bind-done (scopes ts) _ d' h₄ in
      let (u₆, _, h₆) = bind-done (admin lib d now p (some t)) _ d' h₅ in
      let (row, _, h₇) = bind-done (tenant_of d (some t)) _ d' h₆ in
      let old = lookup (t, (i, s)) d.members in
      let newer = (next-IsNewer _ (enrolled_member r abilities places old) old refl) in
      subst (Wrote (enroll_member_call p t i s r cs ts) d) (done-injective h₇)
        ((member_effect (t, (i, s)) _ newer), insert-Bumped _ (t, (i, s)) _ d.members newer)

  pub enroll_agent-Effect :
      (p : Principal) (t a k : String) (cs ts : List String)
      → enroll_agent lib lower now p t a k cs ts d ≡ done d'
      → Wrote (enroll_agent_call p t a k cs ts) d d'
  unfolding enroll_agent
  enroll_agent-Effect p t a k cs ts h =
      let (u₁, _, h₁) = bind-done (invalid_if (not (is_identifier t))) _ d' h in
      let (u₂, _, h₂) = bind-done (invalid_if (not (is_identifier a))) _ d' h₁ in
      let (u₃, _, h₃) = bind-done (invalid_if (not (is_hex 64 k && lib.loads_key k))) _ d' h₂ in
      let (abilities, _, h₄) = bind-done (scopes cs) _ d' h₃ in
      let (places, _, h₅) = bind-done (scopes ts) _ d' h₄ in
      let (u₆, _, h₆) = bind-done (admin lib d now p (some t)) _ d' h₅ in
      let (row, _, h₇) = bind-done (tenant_of d (some t)) _ d' h₆ in
      let old = lookup (t, a) d.agents in
      let newer = (next-IsNewer _ (enrolled_agent (lower k) abilities places old) old refl) in
      subst (Wrote (enroll_agent_call p t a k cs ts) d) (done-injective h₇)
        ((agent_effect (t, a) _ newer), insert-Bumped _ (t, a) _ d.agents newer)
