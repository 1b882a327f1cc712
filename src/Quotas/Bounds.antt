-- ===== src/Quotas/Bounds.antt =====
-- What holds after a claim that src/governance/admission_quotas.py admitted.
use agentbridge.Base.{
  sym, ap, ◌∙◌, ℕ, suc, ◌+◌, ◌≤◌, String, ◌≡◌, true, false, Option, none, some, [], ◌∷◌, string_eq,
  pair_eq, arith, length, Option-cases, inl, inr,
}
use text.Mathlib.TextEquality.{eq_iff}
use agentbridge.Base.Dict.{lookup-insert_same, lookup, insert, has}
use agentbridge.Store.{QuotaLimits, QuotaRecord, Db, World}
use agentbridge.Store.Exec.{Exec, ok, ◌>>◌}
use agentbridge.Store.Atomic.{bind-ok}
use agentbridge.Budget.State.{RawCost, checked_cost}
use agentbridge.Ledger.Defs.{Binding}
use agentbridge.Authority.Outcome.{done}
use agentbridge.Authority.Tables.{Principal}
use agentbridge.Quotas.Owner.{quota_owner, OwnerMaterial}
use agentbridge.Quotas.Usage.{
  Operations, Records, Joined, usage, exposure, count_joined, count_if, is_unknown_state, is_active,
  is_legacy_active, is_owned_active, is_recent, is_owned_recent, is_legacy_recent,
}
use agentbridge.Quotas.Admit.{is_valid, admit, exceeds, needs_record, claim_guard, guarded_claim}
use agentbridge.Quotas.Counts.{count_joined-insert, length-insert}
use agentbridge.Quotas.Claimed.{new_row, claim-after_hook, admit-owner, admit_owner-ok}

guard-world : (a o f : String) (w : World) → (claim_guard a o f w).1 ≡ w
unfolding claim_guard
guard-world a o f w = ground arith

-- How many operations of the store are unknown.
pub unknown_operations : Operations → ℕ
unknown_operations [] = 0
unknown_operations ((k, op) ∷ ops) =
    let rest = unknown_operations ops in count_if (is_unknown_state op.state) rest

count_active :
    (records : Records) (ops : Operations)
    → count_joined is_active records ops + count_joined is_legacy_active records ops
      ≡ unknown_operations ops
unfolding count_joined unknown_operations
count_active records [] = omega arith
count_active records ((k, op) ∷ ops) = elim (Option-cases (lookup k records)) [
  | inl e ↦ rw e (ground (arith, count_active records ops))
  | inr (q, e) ↦ rw e (ground (arith, count_active records ops))
]

-- What the caps bound: operations of which nothing is known yet, those of the owner with those that no
-- record attributes, and the recent ones.
abbrev pub WithinQuota : QuotaLimits → String → ℕ → Db → Type 0
WithinQuota q owner now db =
    let used = usage owner now q.window_seconds db in
    (unknown_operations db.agent_operations ≤ q.max_active)
    × (used.user_active ≤ q.user_max_active)
    × (used.recent ≤ q.rate_limit)
    × (used.user_recent ≤ q.user_rate_limit)
    × (length db.quota_records ≤ q.max_records)

count_after :
    (q : QuotaLimits) (owner : String) (c now stamp : ℕ) (k : String × String) (f : String)
    (db db' : Db)
    → is_valid q ≡ true
    → lookup k db.agent_operations ≡ none
    → has k db.quota_records ≡ false
    → suc (length db.quota_records) ≤ q.max_records
    → exceeds q (usage owner now q.window_seconds db) c ≡ false
    → db'.agent_operations ≡ insert k (new_row f stamp) db.agent_operations
    → db'.quota_records
      ≡ insert k
          (record { fingerprint = f; owner = owner; cost = c; admitted = now })
          db.quota_records
    → WithinQuota q owner now db'
unfolding usage exceeds is_valid
count_after q owner c now stamp k f db db' valid free unseen room fits ops' records' =
    let row : QuotaRecord = record { fingerprint = f; owner = owner; cost = c; admitted = now } in
    let count = λ (t : Joined).
      count_joined-insert t k (new_row f stamp) row db.quota_records db.agent_operations free in
    rw (ops', records')
      (
        ground (
          arith,
          fits,
          count is_active,
          count is_legacy_active,
          count_active (insert k row db.quota_records)
              (insert k (new_row f stamp) db.agent_operations),
        ),
        ground (
          arith,
          fits,
          count (is_owned_active owner),
          count is_legacy_active,
          eq_iff owner owner,
        ),
        ground (
          arith,
          fits,
          valid,
          count (is_recent now q.window_seconds),
          count (is_legacy_recent now q.window_seconds),
        ),
        ground (
          arith,
          fits,
          valid,
          count (is_owned_recent owner now q.window_seconds),
          count (is_legacy_recent now q.window_seconds),
          eq_iff owner owner,
        ),
        ground (arith, length-insert k row db.quota_records unseen, room),
      )

spend-fits :
    (q : QuotaLimits) (owner : String) (c now : ℕ) (db : Db)
    → exceeds q (usage owner now q.window_seconds db) c ≡ false
    → exposure db.budgets + c ≤ q.spend_limit
unfolding usage exceeds
spend-fits q owner c now db fits = ground (arith, fits)

-- A claim that an enabled quota admitted is recorded under `quota_owner` of the principal, with the cost
-- and the time, and keeps the tenant and this owner within the policy: with the new operation counted, the unknown operations of the store, those of the owner, the recent admissions of
-- both and the number of records are within their caps, and the spend that the budgets held before is at
-- most the limit less the cost.
pub guarded_claim-WithinQuota :
    (sha256 : OwnerMaterial → String) (a o f : String) (token : Option String)
    (binding : Option Binding) (p : Principal) (cost : RawCost) (now stamp : ℕ) (w : World)
    (q : QuotaLimits)
    → w.quota_policy ≡ some q
    → q.enabled ≡ true
    → (guarded_claim a o f token binding (admit sha256 p a o f cost now) stamp w).0 ≡ ok tt
    → (owner : String) × (c : ℕ) × (checked_cost cost ≡ some c)
      × (quota_owner sha256 p ≡ done owner)
      × (lookup
            (a, o)
            (guarded_claim a o f token binding
              (admit sha256 p a o f cost now)
              stamp
              w).1.quota_records
          ≡ some (record { fingerprint = f; owner = owner; cost = c; admitted = now }))
      × WithinQuota q owner now
          (guarded_claim a o f token binding (admit sha256 p a o f cost now) stamp w).1.db
      × (exposure w.budgets + c ≤ q.spend_limit)
unfolding guarded_claim
guarded_claim-WithinQuota sha256 a o f token binding p cost now stamp w q stored on h =
    let hook = admit sha256 p a o f cost now >> claim_guard a o f in
    let (free, hooked, written) = claim-after_hook a o f token binding hook stamp w h in
    let (u, e, h₁) = bind-ok (admit sha256 p a o f cost now) (λ _. claim_guard a o f) w tt hooked in
    let (owner, c, amount, owned, same) = admit-owner sha256 a o f now w p cost e in
    let admitted = ap (λ r. r.0) (sym same) ∙ e in
    let (valid, fits, unseen, room, left) =
      admit_owner-ok sha256 a o f now w q owner c stored on admitted in
    let reached = ap (λ r. r.1) h₁ ∙ guard-world a o f _ ∙ ap (λ r. r.1) same in
    let tables = ap (λ v. v.db) reached ∙ left in
    (
      owner,
      c,
      amount,
      owned,
      ap (lookup (a, o)) (written.1 ∙ ap (λ d. d.quota_records) tables)
          ∙ lookup-insert_same (a, o)
              (record { fingerprint = f; owner = owner; cost = c; admitted = now }) w.quota_records,
      count_after q owner c now stamp (a, o) f w.db _ valid free unseen room fits
          (written.0 ∙ ap (λ d. insert (a, o) (new_row f stamp) d.agent_operations) tables)
          (written.1 ∙ ap (λ d. d.quota_records) tables),
      spend-fits q owner c now w.db fits,
    )

guard-ok :
    (a o f : String) (w : World)
    → (claim_guard a o f w).0 ≡ ok tt
    → needs_record w.quota_policy ≡ true
    → (row : QuotaRecord) × (lookup (a, o) w.quota_records ≡ some row) × (row.fingerprint ≡ f)
unfolding claim_guard
guard-ok a o f w h needs = elim (Option-cases (lookup (a, o) w.quota_records)) [
  | inl e ↦ absurd (ground (arith, e, h, needs))
  | inr (row, e) ↦ (row, e, ground (arith, e, h, needs, eq_iff row.fingerprint f))
]

-- Under a policy that is missing or enabled no worker, whatever it does before its insert, claims an
-- operation that has no admission record of the same fingerprint.
pub guarded_claim-has_record :
    (a o f : String) (token : Option String) (binding : Option Binding) (hook : Exec (Unit {0}))
    (stamp : ℕ) (w : World)
    → needs_record (hook w).1.quota_policy ≡ true
    → (guarded_claim a o f token binding hook stamp w).0 ≡ ok tt
    → (row : QuotaRecord) × (lookup
          (a, o)
          (guarded_claim a o f token binding hook stamp w).1.quota_records
        ≡ some row)
      × (row.fingerprint ≡ f)
unfolding guarded_claim
guarded_claim-has_record a o f token binding hook stamp w needs h =
    let (free, hooked, written) =
      claim-after_hook a o f token binding (hook >> claim_guard a o f) stamp w h in
    let (u, e, h₁) = bind-ok hook (λ _. claim_guard a o f) w tt hooked in
    let (row, found, same) = guard-ok a o f (hook w).1 (ap (λ r. r.0) (sym h₁) ∙ hooked) needs in
    let reached = ap (λ r. r.1) h₁ ∙ guard-world a o f (hook w).1 in
    (row, ap (lookup (a, o)) (written.1 ∙ ap (λ v. v.quota_records) reached) ∙ found, same)
