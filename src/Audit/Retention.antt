-- ===== src/Audit/Retention.antt =====
-- Truncation of the audit table (`truncate_before` of src/governance/audit.py and store.py).
use agentbridge.Base.{
  ℕ, suc, ◌≤◌, ◌<◌, String, ◌≡◌, ◌⊎◌, refl, Bool, true, false, List, [], ◌∷◌, ◌++◌, nat_eq, arith,
  inl, inr, ltb, Bool-cases, All,
}
use agentbridge.Store.{AuditPayload, AuditEntry, BudgetState, TaskRow, World}
use agentbridge.Store.Exec.{ok}
use agentbridge.Audit.Table.{
  genesis, head_of, truncate_audit_before, newer, beyond_head, retention_blocked, any_hold,
  any_open_task, any_pending, is_nonempty,
}
use agentbridge.Base.Dict.{Dict}
use agentbridge.Audit.Log.{Fields, record_entry, truncate_before, verify_chain}
use agentbridge.Audit.Links.{
  next_entry, snoc-Linked, snoc-Linked_suffix, record-audit, Linked, verify_chain-Linked,
}

module _ (hash : AuditPayload → String) where
  newer-all :
      (n m : ℕ) (prev : String) (es : List AuditEntry)
      → Linked hash n prev es
      → m ≤ n
      → newer m es ≡ es
  newer-all n m prev [] h le = refl
  newer-all n m prev (e ∷ es) h le = ground (arith, newer-all (suc n) m e.entry_hash es h.3)

  -- Some linked list, behind some hash.
  abbrev pub IsSuffix : List AuditEntry → Type 0
  IsSuffix es = (n : ℕ) × (prev : String) × Linked hash n prev es

  newer-IsSuffix :
      (n m : ℕ) (prev : String) (es : List AuditEntry)
      → Linked hash n prev es
      → IsSuffix (newer m es)
  newer-IsSuffix n m prev [] h = (n, prev, tt)
  newer-IsSuffix n m prev (e ∷ es) h = elim (Bool-cases (ltb e.seq m)) [
    | inl old ↦ rw old (newer-IsSuffix (suc n) m e.entry_hash es h.3)
    | inr new ↦ rw new (rw (newer-all (suc n) m e.entry_hash es h.3 (ground arith)) (n, prev, h))
  ]

  head_of-newer :
      (n m : ℕ) (prev : String) (es : List AuditEntry)
      → Linked hash n prev es
      → beyond_head m (head_of es) ≡ false
      → head_of (newer m es) ≡ head_of es
  head_of-newer n m prev [] h b = refl
  head_of-newer n m prev (e ∷ []) h b = ground arith
  head_of-newer n m prev (e ∷ f ∷ es) h b = ground (
    arith,
    head_of-newer (suc n) m e.entry_hash (f ∷ es) h.3 b,
    newer-all n m prev (e ∷ f ∷ es) h,
    newer-all (suc n) m e.entry_hash (f ∷ es) h.3,
  )

no_hold : (d : Dict String Bool) → any_hold d ≡ false → All (λ e. e.1 ≡ false) d
no_hold [] h = tt
no_hold ((k, on) ∷ d) h = (ground arith, no_hold d (ground arith))

nonempty-nil {ℓ} : {A : Type ℓ} (xs : List A) → is_nonempty xs ≡ false → xs ≡ []
nonempty-nil [] h = refl
nonempty-nil (x ∷ xs) h = cc

no_open_task :
    (d : Dict (String × String) TaskRow)
    → any_open_task d ≡ false
    → All (λ e. (e.1).terminal ≡ true) d
no_open_task [] h = tt
no_open_task ((k, row) ∷ d) h = (ground arith, no_open_task d (ground arith))

no_pending :
    (d : Dict String BudgetState) → any_pending d ≡ false → All (λ e. (e.1).reserved ≡ []) d
no_pending [] h = tt
no_pending ((k, s) ∷ d) h = (nonempty-nil s.reserved (ground arith), no_pending d (ground arith))

module _ (hash : AuditPayload → String) (size : AuditEntry → ℕ) (production : Bool) (m : ℕ)
    (w : World) where
  truncate-audit :
      ((truncate_before size production m w).1.audit ≡ w.audit)
      ⊎ (((truncate_before size production m w).1.audit ≡ newer m w.audit)
          × (beyond_head m (head_of w.audit) ≡ false))
  unfolding truncate_before truncate_audit_before
  truncate-audit = ground arith

  truncated :
      IsSuffix hash w.audit
      → IsSuffix hash (truncate_before size production m w).1.audit
        × (head_of (truncate_before size production m w).1.audit ≡ head_of w.audit)
        × (verify_chain hash (truncate_before size production m w).1.audit false ≡ true)
  truncated (n, prev, h) = elim truncate-audit [
    | inl e ↦ rw e ((n, prev, h), refl, (verify_chain-Linked hash n prev w.audit h).0)
    | inr (e, b) ↦
        let s = newer-IsSuffix hash n m prev w.audit h in
        rw e
          (s, head_of-newer hash n m prev w.audit h b, (verify_chain-Linked hash s.0 s.1 _ s.2).0)
  ]

  snoc-IsVerified :
      (f : Fields) (es : List AuditEntry)
      → IsSuffix hash es
      → verify_chain hash (es ++ next_entry hash f es ∷ []) false ≡ true
  snoc-IsVerified f [] (n, prev, h) =
      (verify_chain-Linked hash 0 genesis _ (snoc-Linked hash f [] tt)).0
  snoc-IsVerified f (e ∷ es) (n, prev, h) =
      (verify_chain-Linked hash n prev _ (snoc-Linked_suffix hash n prev f e es h)).0

  record-IsVerified :
      (f : Fields) (v : World)
      → IsSuffix hash v.audit
      → verify_chain hash (record_entry hash size f v).1.audit false ≡ true
  record-IsVerified f v (n, prev, h) = elim (record-audit hash size f v) [
    | inl e ↦ rw e (verify_chain-Linked hash n prev v.audit h).0
    | inr e ↦ rw e (snoc-IsVerified f v.audit (n, prev, h))
  ]

  -- A truncation of a linked table, whatever it returns, keeps the newest entry, and what is left
  -- is linked behind some hash: it verifies where genesis is not required, and still does once the
  -- next record, whatever it says, has been tried.
  pub truncate-IsSuffix :
      (f : Fields)
      → IsSuffix hash w.audit
      → IsSuffix hash (truncate_before size production m w).1.audit
        × (head_of (truncate_before size production m w).1.audit ≡ head_of w.audit)
        × (verify_chain hash (truncate_before size production m w).1.audit false ≡ true)
        × (verify_chain hash
              (record_entry hash size f (truncate_before size production m w).1).1.audit
              false
            ≡ true)
  truncate-IsSuffix f (n, prev, h) =
      let (s, kept, checked) = truncated (n, prev, h) in
      (s, kept, checked, record-IsVerified f (truncate_before size production m w).1 s)

  truncate_guards :
      (k : ℕ)
      → (truncate_before size production m w).0 ≡ ok k
      → 0 < k
      → (production ≡ false)
        × (w.legal_hold ≡ false)
        × (any_hold w.audit_holds ≡ false)
        × (retention_blocked w.db ≡ false)
  unfolding truncate_before truncate_audit_before
  truncate_guards k h pos = ground arith

  -- Entries are deleted only outside production, with no local and no durable legal hold, and only if
  -- no operation, no task link, no open task and no held reservation is left that they could explain.
  pub truncate_needs :
      (k : ℕ)
      → (truncate_before size production m w).0 ≡ ok k
      → 0 < k
      → (production ≡ false)
        × (w.legal_hold ≡ false)
        × All (λ e. e.1 ≡ false) w.audit_holds
        × (w.agent_operations ≡ [])
        × (w.task_operation_links ≡ [])
        × All (λ e. (e.1).terminal ≡ true) w.task_snapshots
        × All (λ e. (e.1).reserved ≡ []) w.budgets
  truncate_needs k h pos =
      let g = truncate_guards k h pos in
      (
        g.0,
        g.1,
        no_hold w.audit_holds g.2,
        nonempty-nil w.agent_operations (ground arith),
        nonempty-nil w.task_operation_links (ground arith),
        no_open_task w.task_snapshots (ground arith),
        no_pending w.budgets (ground arith),
      )
