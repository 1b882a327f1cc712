-- ===== src/Checks/Capped.antt =====
-- Admission quotas at concrete inputs.
use agentbridge.Base.{ℕ, ◌+◌, ◌≤◌, String, true, none, some, ◌≡◌, refl, pair_eq}
use agentbridge.Base.Dict.{lookup, insert}
use agentbridge.Store.{QuotaLimits, QuotaRecord, World}
use agentbridge.Store.Exec.{pure}
use agentbridge.Budget.State.{num, checked_cost}
use agentbridge.Ledger.Defs.{claim, claim_body}
use agentbridge.Authority.Outcome.{done}
use agentbridge.Authority.Tables.{Principal}
use agentbridge.Authority.Text.{is_identifier, is_subject}
use agentbridge.Quotas.Owner.{OwnerMaterial, quota_owner}
use agentbridge.Quotas.Usage.{exposure, usage, count_joined, sum_joined}
use agentbridge.Quotas.Admit.{
  is_valid, policy, exceeds, admit_owner, admit, claim_guard, guarded_claim,
}
use agentbridge.Quotas.Bounds.{WithinQuota, guarded_claim-WithinQuota, guarded_claim-has_record}
use agentbridge.Checks.Sample.{start}
use agentbridge.Checks.Enrolled.{bot}

abbrev limits : QuotaLimits
limits = record {
  enabled = true;
  spend_limit = 5000;
  user_spend_limit = 4000;
  rate_limit = 100;
  user_rate_limit = 50;
  window_seconds = 60;
  max_active = 5;
  user_max_active = 5;
  max_records = 100;
}

abbrev capped : World
capped = record start {
  db = record start.db { tenant_id = some "acme"; quota_policy = some limits };
}

abbrev digest : OwnerMaterial → String
digest m = "owner"

abbrev payer : Principal
payer = record bot { subject = "bot"; issuer = "urn:agentbridge:enrollment" }

guarded_claim-WithinQuota_example :
    (owner : String) × (c : ℕ) × (checked_cost (num 3) ≡ some c)
    × (quota_owner digest payer ≡ done owner)
    × (lookup
          ("bot", "op9")
          (guarded_claim "bot" "op9" "s9" none none
            (admit digest payer "bot" "op9" "s9" (num 3) 1000)
            1000
            capped).1.quota_records
        ≡ some (record { fingerprint = "s9"; owner = owner; cost = c; admitted = 1000 }))
    × WithinQuota limits owner 1000
        (guarded_claim "bot" "op9" "s9" none none
          (admit digest payer "bot" "op9" "s9" (num 3) 1000)
          1000
          capped).1.db
    × (exposure capped.budgets + c ≤ limits.spend_limit)
unfolding guarded_claim claim claim_body claim_guard admit quota_owner admit_owner policy is_valid
    exceeds usage exposure count_joined sum_joined checked_cost is_identifier is_subject lookup
    insert
guarded_claim-WithinQuota_example =
    guarded_claim-WithinQuota digest "bot" "op9" "s9" none none payer (num 3) 1000 1000 capped
      limits refl refl refl

abbrev admission : QuotaRecord
admission = record { fingerprint = "s9"; owner = "owner"; cost = 3; admitted = 990 }

abbrev with_record : World
with_record = record capped {
  db = record capped.db { quota_records = insert ("bot", "op9") admission capped.quota_records };
}

guarded_claim-has_record_example :
    (row : QuotaRecord) × (lookup
        ("bot", "op9")
        (guarded_claim "bot" "op9" "s9" none none (pure tt) 1000 with_record).1.quota_records
      ≡ some row)
    × (row.fingerprint ≡ "s9")
unfolding guarded_claim claim claim_body claim_guard lookup insert
guarded_claim-has_record_example =
    guarded_claim-has_record "bot" "op9" "s9" none none (pure tt) 1000 with_record refl refl
