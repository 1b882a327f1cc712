-- ===== src/Audit/Links.antt =====
-- Appending keeps the chain that `verify_chain` of src/governance/audit.py checks.
use agentbridge.Base.{
  ℕ, suc, ◌≤◌, String, ◌≡◌, ◌⊎◌, refl, Bool, true, false, List, [], ◌∷◌, ◌++◌, nat_eq, string_eq,
  if◌then◌else◌, arith, inl, inr,
}
use agentbridge.Store.{AuditPayload, AuditEntry, World}
use agentbridge.Audit.Table.{genesis, head_of, has_seq, next_seq, next_prev, append_audit_chained}
use agentbridge.Audit.Log.{
  Fields, build_entry, record_entry, check_links, by_seq, put_by_seq, verify_chain, verify_durable,
  starts_at_genesis,
}
use text.Mathlib.TextEquality.{eq_iff}

module _ (hash : AuditPayload → String) where
  -- Consecutive numbers from `n`, each entry naming the hash before it and carrying its own.
  abbrev pub Linked : ℕ → String → List AuditEntry → Type 0
  Linked n prev [] = Unit
  Linked n prev (e ∷ es) =
      (e.seq ≡ n)
      × (e.prev_hash ≡ prev)
      × (hash e.payload ≡ e.entry_hash)
      × Linked (suc n) e.entry_hash es

  pub Linked-check_links :
      (n : ℕ) (prev : String) (es : List AuditEntry)
      → Linked n prev es
      → check_links hash n prev es ≡ true
  unfolding check_links
  Linked-check_links n prev [] h = refl
  Linked-check_links n prev (e ∷ es) h = ground (
    arith,
    eq_iff e.prev_hash prev,
    eq_iff (hash e.payload) e.entry_hash,
    Linked-check_links (suc n) e.entry_hash es h.3,
  )

  pub check_links-Linked :
      (n : ℕ) (prev : String) (es : List AuditEntry)
      → check_links hash n prev es ≡ true
      → Linked n prev es
  unfolding check_links
  check_links-Linked n prev [] h = tt
  check_links-Linked n prev (e ∷ es) h = ground (
    arith,
    eq_iff e.prev_hash prev,
    eq_iff (hash e.payload) e.entry_hash,
    check_links-Linked (suc n) e.entry_hash es,
  )

  pub Linked-by_seq :
      (n : ℕ) (prev : String) (es : List AuditEntry) → Linked n prev es → by_seq es ≡ es
  unfolding by_seq put_by_seq
  Linked-by_seq n prev [] h = refl
  Linked-by_seq n prev (e ∷ []) h = refl
  Linked-by_seq n prev (e ∷ f ∷ es) h =
      rw (Linked-by_seq (suc n) e.entry_hash (f ∷ es) h.3) (ground arith)

  -- The number and the hash that follow a list.
  abbrev pub end_seq : ℕ → List AuditEntry → ℕ
  end_seq n [] = n
  end_seq n (e ∷ es) = end_seq (suc n) es

  abbrev pub end_hash : String → List AuditEntry → String
  end_hash prev [] = prev
  end_hash prev (e ∷ es) = end_hash e.entry_hash es

  Linked-snoc :
      (n : ℕ) (prev : String) (es : List AuditEntry) (f : Fields)
      → Linked n prev es
      → Linked n prev (es ++ build_entry hash f (end_seq n es) (end_hash prev es) ∷ [])
  Linked-snoc n prev [] f h = (refl, refl, refl, tt)
  Linked-snoc n prev (e ∷ es) f h = (h.0, h.1, h.2, Linked-snoc (suc n) e.entry_hash es f h.3)

  pub head_of-ends :
      (n : ℕ) (prev : String) (e : AuditEntry) (es : List AuditEntry)
      → Linked n prev (e ∷ es)
      → (next_seq (head_of (e ∷ es)) ≡ end_seq n (e ∷ es))
        × (next_prev (head_of (e ∷ es)) ≡ end_hash prev (e ∷ es))
  head_of-ends n prev e [] h = (omega arith, refl)
  head_of-ends n prev e (f ∷ es) h = head_of-ends (suc n) e.entry_hash f es h.3

  pub end_seq-ge : (n : ℕ) (es : List AuditEntry) → n ≤ end_seq n es
  end_seq-ge n [] = omega arith
  end_seq-ge n (e ∷ es) = omega (arith, end_seq-ge (suc n) es)

  -- No entry of a linked list has the number that comes next.
  has_seq-end :
      (n m : ℕ) (prev : String) (es : List AuditEntry)
      → Linked n prev es
      → end_seq n es ≤ m
      → has_seq m es ≡ false
  has_seq-end n m prev [] h le = refl
  has_seq-end n m prev (e ∷ es) h le =
      ground (arith, has_seq-end (suc n) m e.entry_hash es h.3 le, end_seq-ge (suc n) es)

  -- The entry that `record` builds on a table.
  abbrev pub next_entry : Fields → List AuditEntry → AuditEntry
  next_entry f es = build_entry hash f (next_seq (head_of es)) (next_prev (head_of es))

  pub snoc-Linked :
      (f : Fields) (es : List AuditEntry)
      → Linked 0 genesis es
      → Linked 0 genesis (es ++ next_entry f es ∷ [])
  snoc-Linked f [] h = (refl, refl, refl, tt)
  snoc-Linked f (e ∷ es) h =
      let ends = head_of-ends 0 genesis e es h in
      rw (ends.0, ends.1) (Linked-snoc 0 genesis (e ∷ es) f h)

  -- The same behind any first number, as after a truncation.
  pub snoc-Linked_suffix :
      (n : ℕ) (prev : String) (f : Fields) (e : AuditEntry) (es : List AuditEntry)
      → Linked n prev (e ∷ es)
      → Linked n prev (e ∷ es ++ next_entry f (e ∷ es) ∷ [])
  snoc-Linked_suffix n prev f e es h =
      let ends = head_of-ends n prev e es h in rw (ends.0, ends.1) (Linked-snoc n prev (e ∷ es) f h)

  pub verify_chain-Linked :
      (n : ℕ) (prev : String) (es : List AuditEntry)
      → Linked n prev es
      → (verify_chain hash es false ≡ true)
        × (n ≡ 0 → prev ≡ genesis → verify_chain hash es true ≡ true)
  unfolding verify_chain by_seq
  verify_chain-Linked n prev [] h = (refl, λ _ _. refl)
  verify_chain-Linked n prev (e ∷ es) h = rw (Linked-by_seq n prev (e ∷ es) h) (
    ground (arith, Linked-check_links n prev (e ∷ es) h, h.0, h.1),
    λ z g.
        ground (arith, Linked-check_links n prev (e ∷ es) h, h.0, h.1, eq_iff e.prev_hash genesis),
  )

  module _ (size : AuditEntry → ℕ) where
    -- A record that is refused writes nothing; one that returns appends its entry.
    pub record-audit :
        (f : Fields) (w : World)
        → ((record_entry hash size f w).1.audit ≡ w.audit)
          ⊎ ((record_entry hash size f w).1.audit ≡ w.audit ++ next_entry f w.audit ∷ [])
    unfolding record_entry append_audit_chained
    record-audit f w = ground arith

    pub record_all : List Fields → World → World
    record_all [] w = w
    record_all (f ∷ fs) w = record_all fs (record_entry hash size f w).1

    pub record_all-Linked :
        (fs : List Fields) (w : World)
        → Linked 0 genesis w.audit
        → Linked 0 genesis (record_all fs w).audit
    unfolding record_all
    record_all-Linked [] w h = h
    record_all-Linked (f ∷ fs) w h =
        record_all-Linked fs (record_entry hash size f w).1
          (elim (record-audit f w) [ inl e ↦ rw e h | inr e ↦ rw e (snoc-Linked f w.audit h) ])

    -- From a table that is linked from genesis, any records by any workers, those that the capacity
    -- triggers refuse included, leave one that verifies from genesis, in production and out of it.
    pub verify_durable-record_all :
        (fs : List Fields) (w : World) (production : Bool)
        → Linked 0 genesis w.audit
        → verify_durable hash production (record_all fs w) ≡ true
    unfolding verify_durable
    verify_durable-record_all fs w production h =
        let checked =
          verify_chain-Linked 0 genesis (record_all fs w).audit (record_all-Linked fs w h) in
        verified production (starts_at_genesis (record_all fs w).audit) checked
      where
        verified :
            (p b : Bool)
            → (verify_chain hash (record_all fs w).audit false ≡ true)
              × (◌≡◌ {A = ℕ} 0 0
                  → ◌≡◌ {A = String} genesis genesis
                  → verify_chain hash (record_all fs w).audit true ≡ true)
            → (if p
                then verify_chain hash (record_all fs w).audit true
                else verify_chain hash (record_all fs w).audit b)
              ≡ true
        verified true b h = h.1 refl refl
        verified false true h = h.1 refl refl
        verified false false h = h.0
