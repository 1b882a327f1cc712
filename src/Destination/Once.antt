-- ===== src/Destination/Once.antt =====
-- An operation has its effect once (src/governance/fenced_sqlite_destination.py).
use agentbridge.Base.{
  ℕ, suc, ◌≤◌, String, ◌≡◌, refl, Bool, true, false, not, ◌&&◌, ◌||◌, Option, List, [], ◌∷◌,
  string_eq, pair_eq, pair_beq, pair_beq_iff, leb, if◌then◌else◌, ◌⊎◌, arith, Bool-cases,
  Option-cases, inl, inr,
}
use agentbridge.Base.Dict.{lookup, insert, has, lookup-insert}
use agentbridge.Destination.Target.{
  Receipt, EffectRow, Target, Reply, ok, timed_out, is_identifier, is_fenced, receipt_of, acquire,
  commit, TargetCall, acquire_call, commit_call, served,
}

module _ (queued : Bool) (sign : Receipt → Option String) where
  -- Whether a call recorded the effect of the operation: it returned a receipt, or it lost one.
  abbrev recorded_reply : Reply EffectRow → Bool
  recorded_reply (ok row) = true
  recorded_reply timed_out = true
  recorded_reply _ = false

  unfoldable pub took_effect : String × String → TargetCall → Target → Bool
  took_effect k (acquire_call s o ttl now) t = false
  took_effect k (commit_call s o e a op f lose now) t =
      pair_beq (a, op) k && recorded_reply (commit queued sign s o e a op f lose now t).0

  -- How many calls of a sequence record the effect of the operation.
  unfoldable pub effects_of : String × String → List TargetCall → Target → ℕ
  effects_of k [] t = 0
  effects_of k (c ∷ cs) t =
      let rest = effects_of k cs (served queued sign c t) in
      if took_effect k c t then suc rest else rest

  -- Whether one of the tests of `commit` stops it.
  abbrev refuses : String → String → ℕ → String → String → String → ℕ → Target → Bool
  refuses s o e a op f now t =
      queued
      || not (
          is_identifier s
          && is_identifier o
          && is_identifier a
          && is_identifier op
          && is_identifier f)
      || not (leb 1 e)
      || is_fenced o e now (lookup s t.fences)
      || has (a, op) t.effects

  -- A call of `commit` leaves everything as it was and reports no effect, or it found the operation new,
  -- under the epoch that holds, and recorded it.
  pub commit-cases :
      (s o : String) (e : ℕ) (a op f : String) (lose : Bool) (now : ℕ) (t : Target)
      → (((commit queued sign s o e a op f lose now t).1 ≡ t)
          × (recorded_reply (commit queued sign s o e a op f lose now t).0 ≡ false))
        ⊎ ((row : EffectRow) × (has (a, op) t.effects ≡ false)
            × (is_fenced o e now (lookup s t.fences) ≡ false)
            × ((commit queued sign s o e a op f lose now t).1
                ≡ record t { effects = insert (a, op) row t.effects })
            × (row.receipt ≡ receipt_of a op f))
  unfolding commit
  commit-cases s o e a op f lose now t = elim (Option-cases (sign (receipt_of a op f))) [
    | inl none_signed ↦ inl (ground (arith, none_signed), ground (arith, none_signed))
    | inr (hex, signed) ↦ elim (Bool-cases (refuses s o e a op f now t)) [
      | inl refused ↦ inl (ground (arith, refused, signed), ground (arith, refused, signed))
      | inr passed ↦ inr (
        record { receipt = receipt_of a op f; signature_hex = hex },
        ground (arith, passed),
        ground (arith, passed),
        ground (arith, passed, signed),
        refl,
      )
    ]
  ]

  has-kept :
      (k : String × String) (c : TargetCall) (t : Target)
      → has k t.effects ≡ true
      → (has k (served queued sign c t).effects ≡ true) × (took_effect k c t ≡ false)
  unfolding served acquire took_effect
  has-kept k (acquire_call s o ttl now) t h = ground (arith, h)
  has-kept k (commit_call s o e a op f lose now) t h = elim (commit-cases s o e a op f lose now t) [
    | inl (same, silent) ↦ (rw same h, ground (arith, silent))
    | inr (row, free, _, written, _) ↦ (
      rw written (ground (arith, h, lookup-insert (a, op) k row t.effects)),
      ground (arith, h, free, pair_beq_iff (a, op) k),
    )
  ]

  took-has :
      (k : String × String) (c : TargetCall) (t : Target)
      → took_effect k c t ≡ true
      → has k (served queued sign c t).effects ≡ true
  unfolding served took_effect
  took-has k (acquire_call s o ttl now) t h = absurd (ground (arith, h))
  took-has k (commit_call s o e a op f lose now) t h = elim (commit-cases s o e a op f lose now t) [
    | inl (same, silent) ↦ absurd (ground (arith, silent, h))
    | inr (row, free, _, written, _) ↦
        rw written (ground (arith, h, lookup-insert (a, op) k row t.effects))
  ]

  effects_of-zero :
      (k : String × String) (cs : List TargetCall) (t : Target)
      → has k t.effects ≡ true
      → effects_of k cs t ≡ 0
  unfolding effects_of
  effects_of-zero k [] t h = refl
  effects_of-zero k (c ∷ cs) t h =
      let (still, none_taken) = has-kept k c t h in
      rw none_taken (effects_of-zero k cs (served queued sign c t) still)

  -- Whatever is acquired and committed, with whatever epochs and whether acknowledgements are lost or not,
  -- at most one call records the effect of an operation.
  pub effects_of-le_one :
      (k : String × String) (cs : List TargetCall) (t : Target) → effects_of k cs t ≤ 1
  unfolding effects_of
  effects_of-le_one k [] t = omega arith
  effects_of-le_one k (c ∷ cs) t = elim (Bool-cases (took_effect k c t)) [
    | inl took ↦
        let rest = effects_of-zero k cs (served queued sign c t) (took-has k c t took) in
        rw took (omega (arith, rest))
    | inr idle ↦ rw idle (effects_of-le_one k cs (served queued sign c t))
  ]
