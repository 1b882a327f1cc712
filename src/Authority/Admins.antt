-- ===== src/Authority/Admins.antt =====
-- The platform administrators of src/governance/authority.py.
use agentbridge.Base.{ℕ, suc, ◌≤◌, String, ◌≡◌, refl, true, List, [], ◌∷◌, pair_eq, arith}
use agentbridge.Base.Dict.{Dict, insert}
use agentbridge.Authority.Outcome.{Outcome, done, denied, invalid, integrity}
use agentbridge.Authority.Tables.{PlatformRow, Directory, Primitives}
use agentbridge.Authority.Enroll.{active_admins}
use agentbridge.Authority.Calls.{DirectoryCall, serve, committed, serve_all}
use agentbridge.Authority.Served.{serve-Effect}
use agentbridge.Authority.Effects.{
  Effect, bootstrap_effect, tenant_effect, enroll_admin_effect, revoke_admin_effect, member_effect,
  agent_effect, grant_effect, end_effect, replays_effect,
}

abbrev pub HasAdmin : Directory → Type 0
HasAdmin d = 1 ≤ active_admins d.platform_admins

insert-active :
    (k : String × String) (new : PlatformRow) (rows : Dict (String × String) PlatformRow)
    → new.active ≡ true
    → 1 ≤ active_admins (insert k new rows)
unfolding insert
insert-active k new [] h = rw h (omega arith)
insert-active k new ((j, row) ∷ rows) h = ground (arith, insert-active k new rows h, h)

insert-loses_one :
    (k : String × String) (new : PlatformRow) (rows : Dict (String × String) PlatformRow)
    → active_admins rows ≤ suc (active_admins (insert k new rows))
unfolding insert
insert-loses_one k new [] = omega arith
insert-loses_one k new ((j, row) ∷ rows) = ground (arith, insert-loses_one k new rows)

Effect-HasAdmin : (d d' : Directory) → Effect d d' → HasAdmin d → HasAdmin d'
Effect-HasAdmin d _ (bootstrap_effect k _) h = insert-active k _ d.platform_admins refl
Effect-HasAdmin d _ (enroll_admin_effect k new _ e) h = insert-active k new d.platform_admins e
Effect-HasAdmin d _ (revoke_admin_effect k new _ e) h =
    let less = insert-loses_one k new d.platform_admins in ground (arith, less, e)
Effect-HasAdmin d _ (tenant_effect t new n) h = h
Effect-HasAdmin d _ (member_effect k new n) h = h
Effect-HasAdmin d _ (agent_effect k new n) h = h
Effect-HasAdmin d _ (grant_effect _ _ _ _ _ _ _ _ _) h = h
Effect-HasAdmin d _ (end_effect k old _) h = h
Effect-HasAdmin d _ (replays_effect rows) h = h

module _ (lib : Primitives) (lower : String → String) where
  committed-HasAdmin :
      (now : ℕ) (c : DirectoryCall) (d : Directory)
      → HasAdmin d
      → HasAdmin (committed lib lower d (serve lib lower now c d))
  committed-HasAdmin now c d h = go (serve lib lower now c d) refl
    where
      go :
          (o : Outcome Directory) → serve lib lower now c d ≡ o → HasAdmin (committed lib lower d o)
      go (done e) s = Effect-HasAdmin d e (serve-Effect lib lower now d e c s).0 h
      go denied s = h
      go invalid s = h
      go integrity s = h

  -- Once there is an active platform administrator there is one after any sequence of calls.
  pub serve_all-HasAdmin :
      (cs : List (ℕ × DirectoryCall)) (d : Directory)
      → HasAdmin d
      → HasAdmin (serve_all lib lower cs d)
  unfolding serve_all
  serve_all-HasAdmin [] d h = h
  serve_all-HasAdmin ((now, c) ∷ cs) d h = serve_all-HasAdmin cs _ (committed-HasAdmin now c d h)
