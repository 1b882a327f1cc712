-- ===== src/Policy/Identity.antt =====
-- The registry of src/governance/identity.py over the `identities` table. The check of a signature
-- under a public key is Ed25519 of a library, and a parameter: key, message, signature.
use agentbridge.Base.{
  String, Bool, true, false, not, ◌&&◌, ◌≡◌, ◌≢◌, refl, Option, none, some, string_eq, arith, inl,
  inr, Option-cases,
}
use agentbridge.Base.Dict.{lookup, insert, lookup-insert}
use agentbridge.Store.{IdentityRow, World}
use agentbridge.Store.Exec.{Exec, pure, gets, modify, ◌>>=◌, ◌>>◌}
use text.Mathlib.TextEquality.{eq_iff}
use text.Mathlib.TextPositions.{eq_refl}

-- `upsert_identity` of the store
unfoldable pub upsert_identity : String → String → Bool → Exec (Unit {0})
upsert_identity agent_id public_key_hex revoked = modify (λ db. record db {
  identities =
      insert agent_id (record { public_key_hex = public_key_hex; revoked = revoked }) db.identities;
})

unfoldable pub register : String → String → Exec (Unit {0})
unfolding upsert_identity
register agent_id public_key_hex = upsert_identity agent_id public_key_hex false

abbrev revoke_row : String → Option IdentityRow → Exec Bool
revoke_row agent_id none = pure false
revoke_row agent_id (some row) = upsert_identity agent_id row.public_key_hex true >> pure true

unfoldable pub revoke : String → Exec Bool
unfolding upsert_identity
revoke agent_id = do row ← gets (λ w. lookup agent_id w.identities); revoke_row agent_id row

abbrev pub is_live : Option IdentityRow → Bool
is_live none = false
is_live (some row) = not row.revoked

unfoldable pub is_registered : String → World → Bool
is_registered agent_id w = is_live (lookup agent_id w.identities)

abbrev pub verify_row :
    (String → String → String → Bool) → String → String → Option IdentityRow → Bool
verify_row verify message signature none = false
verify_row verify message signature (some row) =
    not row.revoked && verify row.public_key_hex message signature

unfoldable pub verify_signature :
    (String → String → String → Bool) → String → String → String → World → Bool
verify_signature verify agent_id message signature w =
    verify_row verify message signature (lookup agent_id w.identities)

module _ (verify : String → String → String → Bool) (agent_id : String) (w : World) where
  -- After a revocation, whatever it returns, the agent is not registered and no message verifies
  -- under its key, whatever Ed25519 says; the rows of other agents stay.
  pub revoke_lem :
      (message signature : String)
      → (is_registered agent_id (revoke agent_id w).1 ≡ false)
        × (verify_signature verify agent_id message signature (revoke agent_id w).1 ≡ false)
        × ((other : String)
            → agent_id ≢ other
            → lookup other (revoke agent_id w).1.identities ≡ lookup other w.identities)
  unfolding revoke is_registered verify_signature
  revoke_lem message signature = elim (Option-cases (lookup agent_id w.identities)) [
    | inl e ↦ rw e (rw e (ground arith, ground arith, λ other ne. refl))
    | inr (row, e) ↦ rw e (
      rw lookup-insert (rw eq_refl),
      rw lookup-insert (rw eq_refl),
      λ other ne. rw lookup-insert (ground (arith, eq_iff agent_id other)),
    )
  ]
