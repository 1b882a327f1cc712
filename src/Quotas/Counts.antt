-- ===== src/Quotas/Counts.antt =====
-- The counts of src/governance/admission_quotas.py after an admission and its claim.
use agentbridge.Base.{
  ℕ, suc, String, ◌≡◌, refl, Bool, true, false, none, some, [], ◌∷◌, string_eq, pair_eq, pair_beq,
  pair_beq_iff, arith, Bool-cases, inl, inr, length,
}
use agentbridge.Base.Dict.{lookup, insert, has, lookup-insert, lookup-insert_same}
use agentbridge.Store.{OperationRow, QuotaRecord}
use agentbridge.Quotas.Usage.{Operations, Records, Joined, count_if, count_joined}

count_if_swap : (a b : Bool) (n : ℕ) → count_if a (count_if b n) ≡ count_if b (count_if a n)
count_if_swap true true n = refl
count_if_swap true false n = refl
count_if_swap false true n = refl
count_if_swap false false n = refl

-- A new operation with a new record is counted by its own test, and the others as before.
pub count_joined-insert :
    (test : Joined) (key : String × String) (new : OperationRow) (q : QuotaRecord)
    (records : Records) (ops : Operations)
    → lookup key ops ≡ none
    → count_joined test (insert key q records) (insert key new ops)
      ≡ count_if (test new (some q)) (count_joined test records ops)
unfolding count_joined insert lookup
count_joined-insert test key new q records [] h = rw (lookup-insert_same key q records) refl
count_joined-insert test key new q records ((k, o) ∷ ops) h = elim (Bool-cases (pair_beq k key)) [
  | inl same ↦ absurd (ground (arith, same, h))
  | inr other ↦
      let apart : pair_beq key k ≡ false =
        ground (arith, pair_beq_iff k key, pair_beq_iff key k, other) in
      let rest = count_joined-insert test key new q records ops (ground (arith, other, h)) in
      rw (other, lookup-insert key k q records, apart, rest)
        (count_if_swap (test o (lookup k records)) (test new (some q))
          (count_joined test records ops))
]

pub length-insert :
    (key : String × String) (q : QuotaRecord) (records : Records)
    → has key records ≡ false
    → length (insert key q records) ≡ suc (length records)
unfolding insert lookup
length-insert key q [] h = refl
length-insert key q ((k, r) ∷ records) h = ground (arith, h, length-insert key q records)
