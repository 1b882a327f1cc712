-- ===== src/Audit/Log.antt =====
-- `AuditLog` of src/governance/audit.py over a SQL store. `hash` is `compute_hash`: SHA-256 of the
-- canonical JSON of an entry's fields.
use agentbridge.Base.{
  ℕ, ◌+◌, String, Bool, true, false, not, ◌&&◌, ◌||◌, List, [], ◌∷◌, ◌==◌, nat_eq, string_eq, leb,
  if◌then◌else◌,
}
use agentbridge.Store.{AuditPayload, AuditEntry, World}
use agentbridge.Store.Exec.{Exec, permission_error, pure, gets, raise_if, ◌>>=◌, ◌>>◌}
use agentbridge.Audit.Table.{
  genesis, head_of, next_seq, next_prev, append_audit_chained, truncate_audit_before,
}

-- The fields that the caller of `record` gives, and the clock.
pub record Fields : Type 0 where
  pub timestamp : ℕ
  pub actor : String
  pub action : String
  pub source_protocol : String
  pub target_protocol : String
  pub capability : String
  pub decision : String
  pub reason : String
  pub cost : ℕ

-- `sorted(records, key=lambda r: r["seq"])`, which is stable
unfoldable pub put_by_seq : AuditEntry → List AuditEntry → List AuditEntry
put_by_seq a [] = a ∷ []
put_by_seq a (b ∷ es) = if leb a.seq b.seq then a ∷ b ∷ es else b ∷ put_by_seq a es

unfoldable pub by_seq : List AuditEntry → List AuditEntry
unfolding put_by_seq
by_seq [] = []
by_seq (e ∷ es) = put_by_seq e (by_seq es)

abbrev lowest : List AuditEntry → ℕ → ℕ
lowest [] n = n
lowest (e ∷ es) n = lowest es (if leb e.seq n then e.seq else n)

-- `_starts_at_genesis`
abbrev pub starts_at_genesis : List AuditEntry → Bool
starts_at_genesis [] = true
starts_at_genesis (e ∷ es) = lowest es e.seq == 0

module _ (hash : AuditPayload → String) where
  abbrev pub payload_of : Fields → ℕ → String → AuditPayload
  payload_of f seq prev = record {
    seq = seq;
    timestamp = f.timestamp;
    actor = f.actor;
    action = f.action;
    source_protocol = f.source_protocol;
    target_protocol = f.target_protocol;
    capability = f.capability;
    decision = f.decision;
    reason = f.reason;
    cost = f.cost;
    prev_hash = prev;
  }

  -- `build` of `record`
  abbrev pub build_entry : Fields → ℕ → String → AuditEntry
  build_entry f seq prev =
      let p = payload_of f seq prev in record { payload = p; entry_hash = hash p }

  unfoldable pub record_entry : (AuditEntry → ℕ) → Fields → Exec AuditEntry
  record_entry size f = append_audit_chained size (build_entry f)

  -- The loop of `verify_chain`; `next` is `prev_seq + 1`.
  unfoldable pub check_links : ℕ → String → List AuditEntry → Bool
  check_links next prev [] = true
  check_links next prev (e ∷ es) =
      let rest = check_links (e.seq + 1) e.entry_hash es in
      if not (e.seq == next) || not (e.prev_hash == prev)
      then false
      else if not (hash e.payload == e.entry_hash)
      then false
      else rest

  unfoldable pub check_sorted : Bool → List AuditEntry → Bool
  unfolding check_links
  check_sorted require_genesis [] = true
  check_sorted require_genesis (e ∷ es) =
      if require_genesis && (not (e.seq == 0) || not (e.prev_hash == genesis))
      then false
      else check_links e.seq e.prev_hash (e ∷ es)

  unfoldable pub verify_chain : List AuditEntry → Bool → Bool
  unfolding check_sorted
  verify_chain records require_genesis = check_sorted require_genesis (by_seq records)

  unfoldable pub verify_durable : Bool → World → Bool
  unfolding verify_chain
  verify_durable production w =
      if production
      then verify_chain w.audit true
      else verify_chain w.audit (starts_at_genesis w.audit)

-- `truncate_before` for a SQL store, whose log caches no entries. `production` is the test of
-- `AGENTBRIDGE_ENV`.
unfoldable pub truncate_before : (AuditEntry → ℕ) → Bool → ℕ → Exec ℕ
truncate_before size production n = do
  raise_if production permission_error
  held ← gets (λ w. w.legal_hold)
  if n == 0 then pure 0 else if held then pure 0 else truncate_audit_before size production n

-- The number of entries and the head hash that `checkpoint` signs.
unfoldable pub checkpoint_head : World → ℕ × String
checkpoint_head w = (next_seq (head_of w.audit), next_prev (head_of w.audit))
