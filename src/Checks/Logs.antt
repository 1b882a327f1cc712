-- ===== src/Checks/Logs.antt =====
-- The audit log at concrete inputs.
use agentbridge.Base.{ℕ, String, ◌≡◌, ◌≢◌, ◌⊎◌, refl, true, false, some, [], ◌∷◌, ◌++◌}
use agentbridge.Store.{AuditEntry, World}
use agentbridge.Store.Exec.{ok}
use agentbridge.Audit.Table.{genesis, head_of, insert_audit}
use agentbridge.Audit.Log.{
  record_entry, Fields, by_seq, put_by_seq, verify_chain, verify_durable, truncate_before,
  check_sorted, check_links,
}
use agentbridge.Audit.Links.{Linked, record_all, verify_durable-record_all}
use agentbridge.Audit.Tamper.{Collision, verify_chain-head}
use agentbridge.Audit.Capacity.{IsCounted, Fits, insert_audit_lem}
use agentbridge.Audit.Retention.{IsSuffix, truncate-IsSuffix}
use agentbridge.Checks.Sample.{start, constant_hash, flat_size}

abbrev entry : ℕ → String → String → AuditEntry
entry n prev action = record {
  payload = record {
    seq = n;
    timestamp = 1000;
    actor = "ann";
    action = action;
    source_protocol = "a2a";
    target_protocol = "mcp";
    capability = "pay";
    decision = "allow";
    reason = "ok";
    cost = 7;
    prev_hash = prev;
  };
  entry_hash = action;
}

abbrev first : AuditEntry
first = entry 0 genesis "a"

abbrev second : AuditEntry
second = entry 1 "a" "b"

-- A store of an idle system with two entries.
abbrev idle : World
idle = record start {
  db = record start.db {
    audit = first ∷ second ∷ [];
    agent_operations = [];
    budgets = [];
    task_snapshots = [];
    audit_policy = some (record {
      max_records = 3;
      max_bytes = 2000;
      max_entry_bytes = 600;
      used_records = 2;
      used_bytes = 1000;
    });
  };
}

abbrev routed : Fields
routed = record {
  timestamp = 1001;
  actor = "ann";
  action = "c";
  source_protocol = "a2a";
  target_protocol = "mcp";
  capability = "pay";
  decision = "allow";
  reason = "ok";
  cost = 7;
}

idle-Linked : Linked constant_hash 0 genesis idle.audit
idle-Linked = (refl, refl, refl, (refl, refl, refl, tt))

verify_durable-record_all_example :
    verify_durable constant_hash true
      (record_all constant_hash flat_size (routed ∷ routed ∷ []) idle)
    ≡ true
verify_durable-record_all_example =
    verify_durable-record_all constant_hash flat_size (routed ∷ routed ∷ []) idle true idle-Linked

verify_chain-head_example :
    (by_seq (first ∷ second ∷ []) ≡ by_seq (second ∷ first ∷ []))
    ⊎ Collision constant_hash (first ∷ second ∷ []) (second ∷ first ∷ [])
unfolding verify_chain check_sorted check_links by_seq put_by_seq
verify_chain-head_example =
    verify_chain-head constant_hash (first ∷ second ∷ []) (second ∷ first ∷ []) refl refl refl refl

insert_audit_lem_example :
    IsCounted flat_size
      (insert_audit flat_size (entry 2 "b" "c") idle).1.audit
      (insert_audit flat_size (entry 2 "b" "c") idle).1.audit_policy
    × ((insert_audit flat_size (entry 2 "b" "c") idle).0 ≡ ok tt
        → ((insert_audit flat_size (entry 2 "b" "c") idle).1.audit
            ≡ idle.audit ++ entry 2 "b" "c" ∷ [])
          × Fits flat_size
              (insert_audit flat_size (entry 2 "b" "c") idle).1.audit
              (entry 2 "b" "c")
              (insert_audit flat_size (entry 2 "b" "c") idle).1.audit_policy)
    × ((insert_audit flat_size (entry 2 "b" "c") idle).0 ≢ ok tt
        → (insert_audit flat_size (entry 2 "b" "c") idle).1 ≡ idle)
insert_audit_lem_example = insert_audit_lem flat_size (entry 2 "b" "c") idle (refl, refl)

truncate-IsSuffix_example :
    IsSuffix constant_hash (truncate_before flat_size false 1 idle).1.audit
    × (head_of (truncate_before flat_size false 1 idle).1.audit ≡ head_of idle.audit)
    × (verify_chain constant_hash (truncate_before flat_size false 1 idle).1.audit false ≡ true)
    × (verify_chain constant_hash
          (record_entry constant_hash flat_size routed
            (truncate_before flat_size false 1 idle).1).1.audit
          false
        ≡ true)
truncate-IsSuffix_example =
    truncate-IsSuffix constant_hash flat_size false 1 idle routed (0, genesis, idle-Linked)
