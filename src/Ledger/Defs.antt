-- ===== src/Ledger/Defs.antt =====
-- src/governance/operation_ledger.py: a durable record of each consequential operation, written
-- before the effect. One connection; a table is keyed by its primary key.
use Prim.Native.String.{count}
use agentbridge.Base.{
  ℕ, String, Bool, true, false, not, ◌&&◌, ◌||◌, Option, none, some, [], ◌∷◌, ◌==◌, string_eq,
  pair_eq, leb, if◌then◌else◌,
}
use agentbridge.Base.Dict.{Dict, lookup, insert, has}
use agentbridge.Store.{BudgetState, OperationRow, OperationState, unknown}
use agentbridge.Store.Exec.{
  Exec, value_error, sql_error, operation_conflict, key_reused, existing_operation,
  operation_missing, not_unresolved, already_bound, not_pending, token_attached, pure, raise, gets,
  raise_if, modify, sql_atomic, ◌>>=◌, ◌>>◌,
}

-- `isinstance(x, str) and x and len(x) <= 256`
abbrev pub is_bounded : String → Bool
is_bounded x = not (x == "") && leb (count x) 256

-- The dictionary `authority_binding`: the two fields that are tested, and its canonical JSON.
pub record Binding : Type 0 where
  pub tenant_id : Option String
  pub agent_id : Option String
  pub json : String

abbrev pub same_text : Option String → Option String → Bool
same_text none none = true
same_text (some a) (some b) = a == b
same_text _ _ = false

abbrev pub bad_token : Option String → Bool
bad_token none = false
bad_token (some t) = t == ""

abbrev pub bad_binding : Option String → String → Option Binding → Bool
bad_binding tenant agent_id none = false
bad_binding tenant agent_id (some b) =
    not (same_text b.tenant_id tenant) || not (same_text b.agent_id (some agent_id))

-- A known operation is never claimed again, whatever its state.
abbrev pub refuse_existing : String → Option OperationRow → Exec (Unit {0})
refuse_existing fingerprint none = pure tt
refuse_existing fingerprint (some row) =
    if row.fingerprint == fingerprint
    then raise (operation_conflict (existing_operation row.state))
    else raise (operation_conflict key_reused)

-- The three `INSERT` statements; a primary key that is taken is an error of SQL.
abbrev pub insert_operation : String → String → OperationRow → Exec (Unit {0})
insert_operation agent_id operation_id row = do
  taken ← gets (λ w. has (agent_id, operation_id) w.agent_operations)
  raise_if taken sql_error
  modify (λ db. record db {
    agent_operations = insert (agent_id, operation_id) row db.agent_operations;
  })

abbrev pub insert_reservation : String → String → Option String → Exec (Unit {0})
insert_reservation agent_id operation_id none = pure tt
insert_reservation agent_id operation_id (some token) = do
  taken ← gets (λ w. has (agent_id, operation_id) w.operation_reservations)
  raise_if taken sql_error
  modify (λ db. record db {
    operation_reservations = insert (agent_id, operation_id) token db.operation_reservations;
  })

-- The table exists only in a tenant's store.
abbrev pub insert_authority : String → String → Option Binding → Exec (Unit {0})
insert_authority agent_id operation_id none = pure tt
insert_authority agent_id operation_id (some b) = do
  taken ←
      gets (λ w. has (agent_id, operation_id) w.operation_authority || same_text w.tenant_id none)
  raise_if taken sql_error
  modify (λ db. record db {
    operation_authority = insert (agent_id, operation_id) b.json db.operation_authority;
  })

-- What `claim` does inside its transaction.
unfoldable pub claim_body :
    String
    → String
    → String
    → Option String
    → Option Binding
    → Exec (Unit {0})
    → ℕ
    → Exec (Unit {0})
claim_body agent_id operation_id fingerprint token binding before_insert stamp = do
  row ← gets (λ w. lookup (agent_id, operation_id) w.agent_operations)
  refuse_existing fingerprint row
  before_insert
  insert_operation agent_id operation_id
      (record { fingerprint = fingerprint; state = unknown; updated = stamp })
  insert_reservation agent_id operation_id token
  insert_authority agent_id operation_id binding

-- `before_insert` is `pure tt` for no hook; `stamp` is the clock.
unfoldable pub claim :
    String
    → String
    → String
    → Option String
    → Option Binding
    → Exec (Unit {0})
    → ℕ
    → Exec (Unit {0})
claim agent_id operation_id fingerprint token binding before_insert stamp = do
  raise_if (not (is_bounded agent_id && is_bounded operation_id && is_bounded fingerprint))
      value_error
  raise_if (bad_token token) value_error
  tenant ← gets (λ w. w.tenant_id)
  raise_if (bad_binding tenant agent_id binding) value_error
  sql_atomic (claim_body agent_id operation_id fingerprint token binding before_insert stamp)

abbrev pub is_unknown : Option OperationRow → Bool
is_unknown none = false
is_unknown (some row) = elim row.state [ unknown ↦ true | _ ↦ false ]

-- `SELECT 1 FROM operation_reservations WHERE agent_id=? AND token=?`
unfoldable pub is_attached : String → String → Dict (String × String) String → Bool
is_attached agent_id token [] = false
is_attached agent_id token (((a, o), t) ∷ rows) =
    (a == agent_id && t == token) || is_attached agent_id token rows

-- `token in state.get("reserved", {})`
abbrev pub holds : String → Option BudgetState → Bool
holds token none = false
holds token (some s) = has token s.reserved

unfoldable pub attach_reservation : String → String → String → Exec (Unit {0})
attach_reservation agent_id operation_id token = do
  raise_if (not (is_bounded agent_id && is_bounded operation_id && is_bounded token)) value_error
  sql_atomic (do
    row ← gets (λ w. lookup (agent_id, operation_id) w.agent_operations)
    raise_if (not (is_unknown row)) (operation_conflict not_unresolved)
    bound ← gets (λ w. has (agent_id, operation_id) w.operation_reservations)
    raise_if bound (operation_conflict already_bound)
    budget ← gets (λ w. lookup agent_id w.budgets)
    raise_if (not (holds token budget)) (operation_conflict not_pending)
    attached ← gets (λ w. is_attached agent_id token w.operation_reservations)
    raise_if attached (operation_conflict token_attached)
    insert_reservation agent_id operation_id (some token))

-- The `UPDATE` of one row, and its row count.
abbrev pub set_state : String → String → OperationState → ℕ → Option OperationRow → Exec (Unit {0})
set_state agent_id operation_id state stamp none = raise (operation_conflict operation_missing)
set_state agent_id operation_id state stamp (some row) = modify (λ db. record db {
  agent_operations =
      insert (agent_id, operation_id) (record row { state = state; updated = stamp })
        db.agent_operations;
})

unfoldable pub finish : String → String → OperationState → ℕ → Exec (Unit {0})
finish agent_id operation_id state stamp = do
  row ← gets (λ w. lookup (agent_id, operation_id) w.agent_operations)
  set_state agent_id operation_id state stamp row

unfoldable pub get : String → String → Exec (Option OperationRow)
get agent_id operation_id = gets (λ w. lookup (agent_id, operation_id) w.agent_operations)

-- `none` is also the answer of a store that has no tenant.
unfoldable pub authority_binding : String → String → Exec (Option String)
authority_binding agent_id operation_id = do
  tenant ← gets (λ w. w.tenant_id)
  json ← gets (λ w. lookup (agent_id, operation_id) w.operation_authority)
  pure (elim tenant [ none ↦ none | some _ ↦ json ])
