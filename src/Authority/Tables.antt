-- ===== src/Authority/Tables.antt =====
-- The tables of src/governance/authority.py and its `Principal`. Times are whole seconds.
use agentbridge.Base.{
  ℕ, String, Bool, true, ◌&&◌, Option, List, ◌≡◌, ◌↔◌, Eq, ◌==◌, string_eq, pair_eq, pair_beq,
  pair_beq_iff, arith,
}
use text.Mathlib.TextEquality.{eq_iff}
use agentbridge.Base.Dict.{Dict}

pub data Role : Type 0 where
  tenant_admin tenant_operator tenant_viewer : Role

-- The kinds that the directory knows; `unsupported` is any other text.
pub data Kind : Type 0 where
  platform_admin machine delegated_human unsupported : Kind
  member : Role → Kind

pub record TenantRow : Type 0 where
  pub revision : ℕ
  pub active : Bool

pub record PlatformRow : Type 0 where
  pub revision : ℕ
  pub active : Bool

pub record MemberRow : Type 0 where
  pub role : Role
  pub revision : ℕ
  pub active : Bool
  pub capabilities : List String
  pub targets : List String

pub record AgentRow : Type 0 where
  pub public_key_hex : String
  pub revision : ℕ
  pub active : Bool
  pub capabilities : List String
  pub targets : List String

pub record DelegationRow : Type 0 where
  pub agent_id : String
  pub agent_revision : ℕ
  pub user_issuer : String
  pub user_subject : String
  pub user_revision : ℕ
  pub grantor_issuer : String
  pub grantor_subject : String
  pub grantor_kind : Kind
  pub grantor_revision : ℕ
  pub capabilities : List String
  pub targets : List String
  pub not_before : ℕ
  pub expires_at : ℕ
  pub tenant_revision : ℕ
  pub revision : ℕ
  pub active : Bool

-- The key of a table whose primary key has three text columns.
abbrev pub Triple : Type 0
Triple = String × (String × String)

abbrev pub triple_beq : Triple → Triple → Bool
triple_beq (a, p) (b, q) = a == b && pair_beq p q

pub triple_beq_iff : (p q : Triple) → (triple_beq p q ≡ true) ↔ (p ≡ q)
triple_beq_iff (a, p) (b, q) = ground (arith, eq_iff a b, pair_beq_iff p q)

instance abbrev pub triple_eq : Eq Triple
triple_eq = record { beq = triple_beq; beq_iff = triple_beq_iff }

pub record Directory : Type 0 where
  pub tenants : Dict String TenantRow
  pub platform_admins : Dict (String × String) PlatformRow
  pub members : Dict Triple MemberRow
  pub agents : Dict (String × String) AgentRow
  pub delegations : Dict (String × String) DelegationRow
  pub replays : Dict Triple ℕ

pub record Principal : Type 0 where
  pub tenant_id : Option String
  pub subject : String
  pub issuer : String
  pub kind : Kind
  pub revision : ℕ
  pub tenant_revision : ℕ
  pub agent_id : Option String
  pub agent_revision : ℕ
  pub delegation_id : Option String
  pub delegation_revision : ℕ
  pub user_revision : ℕ
  pub grantor_revision : ℕ
  pub valid_until : ℕ
  pub capabilities : List String
  pub targets : List String
  pub request_body_sha256 : String
  pub request_nonce : String
  pub proof : String

-- The fields of the signed payload, `canonical_tenant_payload`.
pub record RequestPayload : Type 0 where
  pub tenant_id : String
  pub agent_id : String
  pub delegation_id : Option String
  pub nonce : String
  pub body_sha256 : String

-- What the directory calls of other libraries: the keyed digest of a principal, the digest of a body,
-- the JSON of a payload, Ed25519 on a key and a signature in hexadecimal, whether a key can be loaded,
-- and the number in front of a nonce's colon, `none` where it is no finite number or fewer than 16
-- characters follow.
pub record Primitives : Type 0 where
  pub digest : Principal → String
  pub sha256 : String → String
  pub encode : RequestPayload → String
  pub verify : String → String → String → Bool
  pub loads_key : String → Bool
  pub stamp : String → Option ℕ
  pub trusted : String → Bool
