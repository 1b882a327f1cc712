-- ===== src/Quotas/Usage.antt =====
-- The usage that src/governance/admission_quotas.py reads from the tables. The joins are on the primary
-- key of both tables, so an operation has one record or none.
use agentbridge.Base.{
  ℕ, suc, ◌+◌, ◌-◌, String, Bool, true, false, ◌&&◌, ◌||◌, Option, none, some, [], ◌∷◌, ◌==◌,
  string_eq, pair_eq, ltb,
}
use agentbridge.Base.Dict.{Dict, lookup}
use agentbridge.Store.{
  BudgetState, OperationRow, OperationState, unknown, succeeded, failed, QuotaRecord, Db,
}
use agentbridge.Budget.State.{reserved_sum}

abbrev pub Operations : Type 0
Operations = Dict (String × String) OperationRow

abbrev pub Records : Type 0
Records = Dict (String × String) QuotaRecord

-- `state.get("spent", 0)` and the sum of `reserved`, over every budget
unfoldable pub exposure : Dict String BudgetState → ℕ
exposure [] = 0
exposure ((_, s) ∷ budgets) = s.spent + reserved_sum s + exposure budgets

abbrev pub is_unknown_state : OperationState → Bool
is_unknown_state unknown = true
is_unknown_state _ = false

abbrev pub is_charged : OperationState → Bool
is_charged unknown = true
is_charged succeeded = true
is_charged failed = false

abbrev pub count_if : Bool → ℕ → ℕ
count_if true n = suc n
count_if false n = n

-- A test of an operation and the record that is joined to it.
abbrev pub Joined : Type 0
Joined = OperationRow → Option QuotaRecord → Bool

-- `SUM(CASE WHEN … THEN 1 ELSE 0 END)`
unfoldable pub count_joined : Joined → Records → Operations → ℕ
count_joined test records [] = 0
count_joined test records ((k, o) ∷ ops) =
    let rest = count_joined test records ops in count_if (test o (lookup k records)) rest

-- `SUM(CASE WHEN … THEN q.cost ELSE 0 END)`
abbrev pub cost_of : Bool → Option QuotaRecord → ℕ
cost_of true (some q) = q.cost
cost_of _ _ = 0

unfoldable pub sum_joined : Joined → Records → Operations → ℕ
sum_joined test records [] = 0
sum_joined test records ((k, o) ∷ ops) =
    cost_of (test o (lookup k records)) (lookup k records) + sum_joined test records ops

abbrev pub has_record : Joined
has_record o none = false
has_record o (some _) = true

abbrev pub is_attributed : Joined
is_attributed o none = false
is_attributed o (some q) = is_charged o.state

abbrev pub is_owned : String → Joined
is_owned owner o none = false
is_owned owner o (some q) = q.owner == owner && is_charged o.state

abbrev pub is_active : Joined
is_active o none = false
is_active o (some q) = is_unknown_state o.state

abbrev pub is_owned_active : String → Joined
is_owned_active owner o none = false
is_owned_active owner o (some q) = q.owner == owner && is_unknown_state o.state

-- `q.admitted > now - window`
abbrev pub is_recent : ℕ → ℕ → Joined
is_recent now window o none = false
is_recent now window o (some q) = ltb now (q.admitted + window)

abbrev pub is_owned_recent : String → ℕ → ℕ → Joined
is_owned_recent owner now window o none = false
is_owned_recent owner now window o (some q) = q.owner == owner && ltb now (q.admitted + window)

-- An operation that no record attributes.
abbrev pub is_legacy_active : Joined
is_legacy_active o none = is_unknown_state o.state
is_legacy_active o (some q) = false

abbrev pub is_legacy_recent : ℕ → ℕ → Joined
is_legacy_recent now window o none = is_unknown_state o.state || ltb now (o.updated + window)
is_legacy_recent now window o (some q) = false

pub record Usage : Type 0 where
  pub spend : ℕ
  pub user_spend : ℕ
  pub unattributed_spend : ℕ
  pub active : ℕ
  pub user_active : ℕ
  pub recent : ℕ
  pub user_recent : ℕ
  pub records : ℕ

-- `_usage`
unfoldable pub usage : String → ℕ → ℕ → Db → Usage
usage owner now window db =
    let total = exposure db.budgets in
    let unattributed = total - sum_joined is_attributed db.quota_records db.agent_operations in
    let sum = λ (test : Joined). count_joined test db.quota_records db.agent_operations in
    record {
      spend = total;
      user_spend = sum_joined (is_owned owner) db.quota_records db.agent_operations + unattributed;
      unattributed_spend = unattributed;
      active = sum is_active + sum is_legacy_active;
      user_active = sum (is_owned_active owner) + sum is_legacy_active;
      recent = sum (is_recent now window) + sum (is_legacy_recent now window);
      user_recent = sum (is_owned_recent owner now window) + sum (is_legacy_recent now window);
      records = sum has_record;
    }
