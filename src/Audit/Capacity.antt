-- ===== src/Audit/Capacity.antt =====
-- The counters that the triggers of src/governance/audit_capacity.py keep.
use agentbridge.Base.{
  ℕ, ◌+◌, ◌≤◌, ◌≡◌, ◌≢◌, refl, Option, none, some, List, [], ◌∷◌, ◌++◌, arith, length,
  length-append,
}
use agentbridge.Store.{AuditEntry, AuditPolicy, World}
use agentbridge.Store.Exec.{ok}
use agentbridge.Audit.Table.{insert_audit, total_size, policy_or_default}

module _ (size : AuditEntry → ℕ) where
  -- The counters are those of the stored rows, and no stored row breaks the limits.
  abbrev pub IsCounted : List AuditEntry → Option AuditPolicy → Type 0
  IsCounted es none = Unit
  IsCounted es (some p) = (p.used_records ≡ length es) × (p.used_bytes ≡ total_size size es)

  total_size-append :
      (es fs : List AuditEntry)
      → total_size size (es ++ fs) ≡ total_size size es + total_size size fs
  total_size-append [] fs = omega arith
  total_size-append (e ∷ es) fs = omega (arith, total_size-append es fs)

  IsCounted-default :
      (es : List AuditEntry) (o : Option AuditPolicy)
      → IsCounted es o
      → IsCounted es (some (policy_or_default size es o))
  IsCounted-default es none h = (refl, refl)
  IsCounted-default es (some p) h = h

  -- What the limits say of a table and its newest entry.
  abbrev pub Fits : List AuditEntry → AuditEntry → Option AuditPolicy → Type 0
  Fits es e none = ⊥
  Fits es e (some p) =
      (length es ≤ p.max_records)
      × (total_size size es ≤ p.max_bytes)
      × (size e ≤ p.max_entry_bytes)

  -- An insert keeps the counters exact. One that returns has added its entry within all three limits;
  -- one that raises has changed nothing.
  pub insert_audit_lem :
      (e : AuditEntry) (w : World)
      → IsCounted w.audit w.audit_policy
      → IsCounted (insert_audit size e w).1.audit (insert_audit size e w).1.audit_policy
        × ((insert_audit size e w).0 ≡ ok tt
            → ((insert_audit size e w).1.audit ≡ w.audit ++ e ∷ [])
              × Fits (insert_audit size e w).1.audit e (insert_audit size e w).1.audit_policy)
        × ((insert_audit size e w).0 ≢ ok tt → (insert_audit size e w).1 ≡ w)
  unfolding insert_audit
  insert_audit_lem e w h = ground (
    arith,
    IsCounted-default w.audit w.audit_policy h,
    total_size-append w.audit (e ∷ []),
    length-append {0} w.audit (e ∷ []),
  )
