-- ===== src/Quotas/Admit.antt =====
-- Policy and admission of src/governance/admission_quotas.py in one SQL store.
use agentbridge.Base.{
  ℕ, ◌+◌, String, Bool, true, false, not, ◌&&◌, ◌||◌, Option, none, some, length, ◌==◌, string_eq,
  pair_eq, leb, ltb, if◌then◌else◌,
}
use agentbridge.Base.Dict.{lookup, insert, has}
use agentbridge.Store.{QuotaLimits, QuotaRecord}
use agentbridge.Store.Exec.{
  Exec, value_error, permission_error, sql_error, pure, raise, gets, raise_if, modify, sql_atomic,
  ◌>>=◌, ◌>>◌,
}
use agentbridge.Budget.State.{RawCost, checked_cost}
use agentbridge.Ledger.Defs.{Binding, same_text, claim}
use agentbridge.Authority.Outcome.{Outcome, done, denied, invalid, integrity}
use agentbridge.Quotas.Owner.{OwnerMaterial, quota_owner}
use agentbridge.Authority.Tables.{Principal}
use agentbridge.Quotas.Usage.{Usage, usage}

abbrev pub in_range : ℕ → ℕ → Bool
in_range most n = leb 1 n && leb n most

-- `QuotaLimits.validated`
unfoldable pub is_valid : QuotaLimits → Bool
is_valid q =
    in_range 1000000 q.rate_limit
    && in_range 1000000 q.user_rate_limit
    && in_range 31536000 q.window_seconds
    && in_range 1000000 q.max_active
    && in_range 1000000 q.user_max_active
    && in_range 10000000 q.max_records

abbrev pub readable : Option QuotaLimits → Exec QuotaLimits
readable none = raise value_error
readable (some q) = if is_valid q then pure q else raise value_error

-- `_policy`: a policy that is missing, altered or out of bounds is `QuotaDenied`, a `ValueError`.
unfoldable pub policy : Exec QuotaLimits
policy = do stored ← gets (λ w. w.quota_policy); readable stored

-- `set_policy`; `audit` is its callback.
unfoldable pub set_policy : QuotaLimits → Exec (Unit {0}) → Exec (Unit {0})
unfolding policy
set_policy limits audit = do
  raise_if (not (is_valid limits)) value_error
  sql_atomic (do old ← policy; modify (λ db. record db { quota_policy = some limits }); audit)

-- The six comparisons, in their order.
unfoldable pub exceeds : QuotaLimits → Usage → ℕ → Bool
exceeds q u cost =
    ltb q.spend_limit (u.spend + cost)
    || ltb q.user_spend_limit (u.user_spend + cost)
    || ltb q.rate_limit (u.recent + 1)
    || ltb q.user_rate_limit (u.user_recent + 1)
    || ltb q.max_active (u.active + 1)
    || ltb q.user_max_active (u.user_active + 1)

-- An error of the authority module, raised in the store's code.
abbrev pub performed {ℓ} : {A : Type ℓ} → Outcome A → Exec A
performed (done a) = pure a
performed denied = raise permission_error
performed invalid = raise value_error
performed integrity = raise sql_error

module _ (sha256 : OwnerMaterial → String) where
  abbrev pub checked : Option ℕ → Exec ℕ
  checked none = raise value_error
  checked (some c) = pure c

  -- The `INSERT`: a primary key that is taken raises.
  abbrev pub insert_record : String × String → QuotaRecord → Exec (Unit {0})
  insert_record key row = do
    taken ← gets (λ w. has key w.quota_records)
    raise_if taken sql_error
    modify (λ db. record db { quota_records = insert key row db.quota_records })

  -- What follows once the owner is known.
  unfoldable pub admit_owner : String → String → String → String → ℕ → ℕ → Exec (Unit {0})
  unfolding policy
  admit_owner owner agent_id operation_id fingerprint cost now = do
    limits ← policy
    records ← gets (λ w. length w.quota_records)
    raise_if (leb limits.max_records records) value_error
    used ← gets (λ w. usage owner now limits.window_seconds w.db)
    raise_if (limits.enabled && exceeds limits used cost) value_error
    insert_record (agent_id, operation_id)
        (record { fingerprint = fingerprint; owner = owner; cost = cost; admitted = now })

  -- `_admit`; `now` is the database's clock.
  unfoldable pub admit : Principal → String → String → String → RawCost → ℕ → Exec (Unit {0})
  admit p agent_id operation_id fingerprint cost now = do
    tenant ← gets (λ w. w.tenant_id)
    raise_if (not (same_text p.tenant_id tenant) || not (same_text p.agent_id (some agent_id)))
        permission_error
    amount ← checked (checked_cost cost)
    owner ← performed (quota_owner sha256 p)
    admit_owner owner agent_id operation_id fingerprint amount now

-- The trigger `admission_quota_claim_guard_v1`: before an operation is inserted, unless a readable
-- policy is disabled, its record must be there.
abbrev pub needs_record : Option QuotaLimits → Bool
needs_record none = true
needs_record (some q) = q.enabled

abbrev pub matches : String → Option QuotaRecord → Bool
matches fingerprint none = false
matches fingerprint (some q) = q.fingerprint == fingerprint

unfoldable pub claim_guard : String → String → String → Exec (Unit {0})
claim_guard agent_id operation_id fingerprint = do
  stored ← gets (λ w. w.quota_policy)
  row ← gets (λ w. lookup (agent_id, operation_id) w.quota_records)
  raise_if (needs_record stored && not (matches fingerprint row)) sql_error

-- A claim in a store where the trigger is installed: `hook` is what the caller passes.
unfoldable pub guarded_claim :
    String
    → String
    → String
    → Option String
    → Option Binding
    → Exec (Unit {0})
    → ℕ
    → Exec (Unit {0})
unfolding claim claim_guard
guarded_claim agent_id operation_id fingerprint token binding hook stamp =
    claim agent_id operation_id fingerprint token binding
      (hook >> claim_guard agent_id operation_id fingerprint) stamp
