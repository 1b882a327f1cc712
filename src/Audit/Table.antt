-- ===== src/Audit/Table.antt =====
-- The audit statements of `SqliteStore`, with the triggers of src/governance/audit_capacity.py. The
-- table is listed by its key `seq`. `size` is the number of UTF-8 bytes of an entry's JSON.
use agentbridge.Base.{
  ℕ, ◌+◌, String, Bool, true, false, not, ◌||◌, Option, none, some, List, [], ◌∷◌, ◌++◌, ◌==◌,
  nat_eq, ltb, if◌then◌else◌, length, filter, ◌-◌,
}
use agentbridge.Base.Dict.{Dict}
use agentbridge.Store.{AuditEntry, AuditPolicy, BudgetState, TaskRow, Db}
use agentbridge.Store.Exec.{
  Exec, permission_error, sql_error, pure, gets, raise_if, modify, sql_atomic, ◌>>=◌, ◌>>◌,
}

abbrev pub genesis : String
genesis = "0000000000000000000000000000000000000000000000000000000000000000"

-- `ORDER BY seq DESC LIMIT 1`
abbrev pub head_of : List AuditEntry → Option AuditEntry
head_of [] = none
head_of (e ∷ []) = some e
head_of (e ∷ f ∷ es) = head_of (f ∷ es)

abbrev pub has_seq : ℕ → List AuditEntry → Bool
has_seq n [] = false
has_seq n (e ∷ es) = (e.seq == n) || has_seq n es

abbrev pub invalid_policy : AuditPolicy → Bool
invalid_policy p =
    ltb p.max_records 1
    || ltb 1000000 p.max_records
    || ltb p.max_bytes 1
    || ltb 1073741824 p.max_bytes
    || ltb p.max_entry_bytes 1
    || ltb 65536 p.max_entry_bytes
    || ltb p.max_bytes p.max_entry_bytes

abbrev pub next_seq : Option AuditEntry → ℕ
next_seq none = 0
next_seq (some e) = e.seq + 1

abbrev pub next_prev : Option AuditEntry → String
next_prev none = genesis
next_prev (some e) = e.entry_hash

abbrev pub any_hold : Dict String Bool → Bool
any_hold [] = false
any_hold ((_, on) ∷ d) = on || any_hold d

abbrev pub any_open_task : Dict (String × String) TaskRow → Bool
any_open_task [] = false
any_open_task ((_, row) ∷ d) = not row.terminal || any_open_task d

abbrev pub is_nonempty {ℓ} : {A : Type ℓ} → List A → Bool
is_nonempty [] = false
is_nonempty (_ ∷ _) = true

abbrev pub any_pending : Dict String BudgetState → Bool
any_pending [] = false
any_pending ((_, s) ∷ d) = is_nonempty s.reserved || any_pending d

-- `retention_guard`
abbrev pub retention_blocked : Db → Bool
retention_blocked db =
    is_nonempty db.agent_operations
    || is_nonempty db.task_operation_links
    || any_open_task db.task_snapshots
    || any_pending db.budgets

abbrev pub beyond_head : ℕ → Option AuditEntry → Bool
beyond_head n none = false
beyond_head n (some e) = ltb e.seq n

unfoldable pub audit_count : Exec ℕ
audit_count = gets (λ w. length w.audit)

abbrev pub older : ℕ → List AuditEntry → List AuditEntry
older n es = filter (λ e. ltb e.seq n) es

abbrev pub newer : ℕ → List AuditEntry → List AuditEntry
newer n es = filter (λ e. not (ltb e.seq n)) es

module _ (size : AuditEntry → ℕ) where
  abbrev pub total_size : List AuditEntry → ℕ
  total_size [] = 0
  total_size (e ∷ es) = size e + total_size es

  -- The first write accounts the rows that are there.
  abbrev pub policy_or_default : List AuditEntry → Option AuditPolicy → AuditPolicy
  policy_or_default entries none = record {
    max_records = 100000;
    max_bytes = 67108864;
    max_entry_bytes = 16384;
    used_records = length entries;
    used_bytes = total_size entries;
  }
  policy_or_default entries (some p) = p

  abbrev pub charged : AuditEntry → AuditPolicy → AuditPolicy
  charged e p = record p { used_records = p.used_records + 1; used_bytes = p.used_bytes + size e }

  abbrev pub over_capacity : AuditEntry → AuditPolicy → Bool
  over_capacity e p =
      ltb p.max_records p.used_records
      || ltb p.max_bytes p.used_bytes
      || ltb p.max_entry_bytes (size e)

  -- `INSERT INTO audit` with its triggers: a taken key, an invalid policy and a full table abort.
  unfoldable pub insert_audit : AuditEntry → Exec (Unit {0})
  insert_audit entry = do
    taken ← gets (λ w. has_seq entry.seq w.audit)
    raise_if taken sql_error
    policy ← gets (λ w. policy_or_default w.audit w.audit_policy)
    raise_if (invalid_policy policy) sql_error
    raise_if (over_capacity entry (charged entry policy)) sql_error
    modify (λ db. record db {
      audit = db.audit ++ entry ∷ [];
      audit_policy = some (charged entry policy);
    })

  unfoldable pub append_audit_chained : (ℕ → String → AuditEntry) → Exec AuditEntry
  unfolding insert_audit
  append_audit_chained build = sql_atomic (do
    head ← gets (λ w. head_of w.audit)
    let entry = build (next_seq head) (next_prev head)
    insert_audit entry
    pure entry)

  -- `used_records` and `used_bytes` go down by what is deleted.
  abbrev pub refunded : List AuditEntry → Option AuditPolicy → Option AuditPolicy
  refunded gone none = none
  refunded gone (some p) = some (record p {
    used_records = p.used_records - length gone;
    used_bytes = p.used_bytes - total_size gone;
  })

  unfoldable pub truncate_audit_before : Bool → ℕ → Exec ℕ
  truncate_audit_before production n =
      raise_if production permission_error
      >> (if n == 0
          then pure 0
          else sql_atomic (do
            held ← gets (λ w. any_hold w.audit_holds)
            raise_if held permission_error
            blocked ← gets (λ w. retention_blocked w.db)
            raise_if blocked permission_error
            head ← gets (λ w. head_of w.audit)
            raise_if (beyond_head n head) permission_error
            gone ← gets (λ w. older n w.audit)
            modify (λ db. record db {
              audit = newer n db.audit;
              audit_policy = refunded gone db.audit_policy;
            })
            pure (length gone)))
