-- ===== src/Store/Exec.antt =====
-- Methods that change the database and may raise. What was written before a raise stays written,
-- unless an enclosing `sql_atomic` rolls it back.
use agentbridge.Base.{ℕ, String, Option, Bool, true, false, ◌≡◌, ◌⊎◌, refl, inl, inr}
use agentbridge.Store.Rows.{OperationState, Db, World}

-- The reason strings, with what they quote.
pub data Reason : Type 0 where
  ok_reason reserved_reason authorized policy_ok no_reason grant_consumed dispatch_allowed : Reason
  spend_cap_exceeded : ℕ → ℕ → ℕ → ℕ → Reason
  rate_cap_exceeded : ℕ → Reason
  approval_required_for unknown_identity denied_by_policy not_in_allowlist : String → Reason
  not_permitted : String → String → Reason
  signature_failed allowlist_missing allowlist_invalid outside_window proof_required
        operation_id_required :
      Reason
  cost_exceeds_cap approval_above : ℕ → ℕ → Reason
  route_blocked : String → String → Reason

pub record Decision : Type 0 where
  pub allowed : Bool
  pub reason : Reason
  pub needs_approval : Bool
  pub approval_required : Bool

pub data Conflict : Type 0 where
  key_reused operation_missing not_unresolved already_bound not_pending : Conflict
  token_attached already_settled exact_token_required reservation_missing cost_mismatch : Conflict
  existing_operation : OperationState → Conflict

pub data Error : Type 0 where
  value_error runtime_error permission_error sql_error key_error config_error : Error
  lifecycle_rejected lifecycle_capacity : Error
  operation_conflict : Conflict → Error
  admission_rejected : Decision → Error
  governance_error : Decision → Option String → Error

pub data Result {ℓ} (A : Type ℓ) : Type ℓ where
  ok : A → Result A
  err : Error → Result A

abbrev pub Exec {ℓ} : Type ℓ → Type ℓ
Exec A = World → Result A × World

module _ {ℓ} {A : Type ℓ} where
  abbrev pub pure : A → Exec A
  pure a w = (ok a, w)

  abbrev pub raise : Error → Exec A
  raise e w = (err e, w)

  abbrev pub gets : (World → A) → Exec A
  gets f w = (ok (f w), w)

abbrev pub continue {ℓ κ} :
    {A : Type ℓ} {B : Type κ} → Result A × World → (A → Exec B) → Result B × World
continue (ok a, w) f = f a w
continue (err e, w) f = (err e, w)

infixl 5 ◌>>=◌ ◌>>◌
abbrev pub ◌>>=◌ {ℓ κ} : {A : Type ℓ} {B : Type κ} → Exec A → (A → Exec B) → Exec B
◌>>=◌ m f w = continue (m w) f

abbrev pub ◌>>◌ {ℓ κ} : {A : Type ℓ} {B : Type κ} → Exec A → Exec B → Exec B
m >> k = m >>= λ _. k

abbrev pub raise_if : Bool → Error → Exec (Unit {0})
raise_if true e w = (err e, w)
raise_if false e w = (ok tt, w)

abbrev pub modify : (Db → Db) → Exec (Unit {0})
modify f w = (ok tt, record w { db = f w.db })

-- The tables as they were, and what the process holds as it is now.
abbrev pub rolled_back {ℓ} : {A : Type ℓ} → Db → Result A × World → Result A × World
rolled_back before (ok a, w) = (ok a, w)
rolled_back before (err e, w) = (err e, record w { db = before })

-- `sql_atomic`: commit, or roll back and raise again. A nested block is a savepoint.
abbrev pub sql_atomic {ℓ} : {A : Type ℓ} → Exec A → Exec A
sql_atomic m w = rolled_back w.db (m w)

pub Result-cases {ℓ} :
    {A : Type ℓ} (r : Result A) → ((a : A) × (r ≡ ok a)) ⊎ ((e : Error) × (r ≡ err e))
Result-cases (ok a) = inl (a, refl)
Result-cases (err e) = inr (e, refl)
