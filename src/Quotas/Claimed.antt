-- ===== src/Quotas/Claimed.antt =====
-- A claim with an admission of src/governance/admission_quotas.py as its hook, step by step.
use agentbridge.Base.{
  subst, sym, ap, ◌∙◌, ℕ, suc, ◌≤◌, String, ◌≡◌, refl, true, false, Option, none, some, string_eq,
  pair_eq, arith, length, Option-cases, inl, inr,
}
use agentbridge.Base.Dict.{lookup, insert, has}
use agentbridge.Store.{QuotaLimits, OperationRow, unknown, World}
use agentbridge.Store.Exec.{Exec, ok, ◌>>◌}
use agentbridge.Store.Atomic.{sql_atomic-ok, bind-ok}
use agentbridge.Budget.State.{RawCost, checked_cost}
use agentbridge.Ledger.Defs.{
  Binding, claim, claim_body, insert_reservation, insert_authority, insert_operation,
  refuse_existing,
}
use agentbridge.Authority.Tables.{Principal}
use agentbridge.Authority.Outcome.{done, Outcome-cases}
use agentbridge.Quotas.Owner.{quota_owner, OwnerMaterial}
use agentbridge.Quotas.Usage.{usage}
use agentbridge.Quotas.Admit.{policy, is_valid, admit_owner, admit, exceeds}

abbrev pub new_row : String → ℕ → OperationRow
new_row fingerprint stamp = record { fingerprint = fingerprint; state = unknown; updated = stamp }

-- A claim that returns ran its body to the end.
claim-ran :
    (a o f : String) (token : Option String) (binding : Option Binding) (hook : Exec (Unit {0}))
    (stamp : ℕ) (w : World)
    → (claim a o f token binding hook stamp w).0 ≡ ok tt
    → ((claim_body a o f token binding hook stamp w).0 ≡ ok tt)
      × (claim a o f token binding hook stamp w ≡ claim_body a o f token binding hook stamp w)
unfolding claim
claim-ran a o f token binding hook stamp w h =
    ground (arith, sql_atomic-ok (claim_body a o f token binding hook stamp) w tt)

-- The three `INSERT` statements of a claim.
inserts : String → String → OperationRow → Option String → Option Binding → Exec (Unit {0})
inserts a o new token binding = do
  insert_operation a o new
  insert_reservation a o token
  insert_authority a o binding

abbrev pub Inserted : String × String → OperationRow → World → World → Type 0
Inserted key new w w' =
    (w'.agent_operations ≡ insert key new w.agent_operations)
    × (w'.quota_records ≡ w.quota_records)
    × (w'.budgets ≡ w.budgets)

inserts-ok :
    (a o : String) (new : OperationRow) (token : Option String) (binding : Option Binding)
    (w : World)
    → (inserts a o new token binding w).0 ≡ ok tt
    → Inserted (a, o) new w (inserts a o new token binding w).1
unfolding inserts
inserts-ok a o new none none w h = ground arith
inserts-ok a o new none (some b) w h = ground arith
inserts-ok a o new (some t) none w h = ground arith
inserts-ok a o new (some t) (some b) w h = ground arith

refuse-ok :
    (f : String) (row : Option OperationRow) (w : World)
    → (refuse_existing f row w).0 ≡ ok tt
    → (row ≡ none) × ((refuse_existing f row w).1 ≡ w)
refuse-ok f none w h = (refl, refl)
refuse-ok f (some r) w h = absurd (ground (arith, h))

-- A claim that returns inserted a new operation after its hook, and changed no quota table itself.
pub claim-after_hook :
    (a o f : String) (token : Option String) (binding : Option Binding) (hook : Exec (Unit {0}))
    (stamp : ℕ) (w : World)
    → (claim a o f token binding hook stamp w).0 ≡ ok tt
    → (lookup (a, o) w.agent_operations ≡ none)
      × ((hook w).0 ≡ ok tt)
      × Inserted (a, o) (new_row f stamp) (hook w).1 (claim a o f token binding hook stamp w).1
unfolding claim_body inserts
claim-after_hook a o f token binding hook stamp w h =
    let rest = λ (u : Unit {0}). hook >> inserts a o (new_row f stamp) token binding in
    let (ran, same) = claim-ran a o f token binding hook stamp w h in
    let (u₁, e₁, h₁) =
      bind-ok (refuse_existing f (lookup (a, o) w.agent_operations)) rest w tt ran in
    let (free, still) = refuse-ok f (lookup (a, o) w.agent_operations) w e₁ in
    let after_refusal = same ∙ h₁ ∙ ap (rest tt) still in
    let (u₂, e₂, h₂) =
      bind-ok hook (λ _. inserts a o (new_row f stamp) token binding) w tt
        (ap (λ r. r.0) (sym after_refusal) ∙ h) in
    let whole = after_refusal ∙ h₂ in
    (
      free,
      e₂,
      subst (λ r. Inserted (a, o) (new_row f stamp) (hook w).1 r.1) (sym whole)
          (inserts-ok a o (new_row f stamp) token binding (hook w).1
            (ap (λ r. r.0) (sym whole) ∙ h)),
    )

module _ (sha256 : OwnerMaterial → String) (a o f : String) (now : ℕ) (w : World) where
  pub admit-owner :
      (p : Principal) (cost : RawCost)
      → (admit sha256 p a o f cost now w).0 ≡ ok tt
      → (owner : String) × (c : ℕ) × (checked_cost cost ≡ some c)
        × (quota_owner sha256 p ≡ done owner)
        × (admit sha256 p a o f cost now w ≡ admit_owner sha256 owner a o f c now w)
  unfolding admit
  admit-owner p cost h = elim (Option-cases (checked_cost cost)) [
    | inl e ↦ absurd (ground (arith, e, h))
    | inr (c, e) ↦ elim (Outcome-cases (quota_owner sha256 p)) [
      | inl (owner, e₁) ↦ (owner, c, e, e₁, ground (arith, e, e₁, h))
      | inr (inl e₁) ↦ absurd (ground (arith, e, e₁, h))
      | inr (inr (inl e₁)) ↦ absurd (ground (arith, e, e₁, h))
      | inr (inr (inr e₁)) ↦ absurd (ground (arith, e, e₁, h))
    ]
  ]

  pub admit_owner-ok :
      (q : QuotaLimits) (owner : String) (c : ℕ)
      → w.quota_policy ≡ some q
      → q.enabled ≡ true
      → (admit_owner sha256 owner a o f c now w).0 ≡ ok tt
      → (is_valid q ≡ true)
        × (exceeds q (usage owner now q.window_seconds w.db) c ≡ false)
        × (has (a, o) w.quota_records ≡ false)
        × (suc (length w.quota_records) ≤ q.max_records)
        × ((admit_owner sha256 owner a o f c now w).1.db ≡ record w.db {
          quota_records =
              insert
                (a, o)
                (record { fingerprint = f; owner = owner; cost = c; admitted = now })
                w.quota_records;
        })
  unfolding admit_owner policy
  admit_owner-ok q owner c stored on h = ground arith
