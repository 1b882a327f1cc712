-- ===== src/Guards/FencingEpoch.antt =====
-- A fencing epoch that was passed over never comes back (src/governance/pg_fencing.py).
use agentbridge.Base.{
  ℕ, ◌+◌, ◌≤◌, ◌<◌, String, ◌≡◌, ◌≢◌, true, Option, none, some, List, [], ◌∷◌, nat_eq, string_eq,
  arith, inl, inr, Option-cases,
}
use agentbridge.Base.Dict.{lookup, lookup-insert, lookup-insert_same}
use agentbridge.Guards.Fencing.{FenceRow, Fences, acquire, renew, check}
use text.Mathlib.TextEquality.{eq_iff}

-- The calls that write, with the clock that each sees.
pub data FenceCall : Type 0 where
  acquire_call : String → String → ℕ → ℕ → FenceCall
  renew_call : String → String → ℕ → ℕ → ℕ → FenceCall

abbrev pub fence_apply : FenceCall → Fences → Fences
fence_apply (acquire_call s o ttl now) d = (acquire s o ttl now d).1
fence_apply (renew_call s o e ttl now) d = (renew s o e ttl now d).1

pub fence_run : List FenceCall → Fences → Fences
fence_run [] d = d
fence_run (c ∷ cs) d = fence_run cs (fence_apply c d)

-- The epoch of a scope, 0 before the first.
abbrev epoch_in : Option FenceRow → ℕ
epoch_in none = 0
epoch_in (some row) = row.epoch

abbrev pub epoch_of : String → Fences → ℕ
epoch_of scope d = epoch_in (lookup scope d)

epoch-apply :
    (scope : String) (c : FenceCall) (d : Fences)
    → epoch_of scope d ≤ epoch_of scope (fence_apply c d)
unfolding acquire renew
epoch-apply scope (acquire_call s o ttl now) d = elim (Option-cases (lookup s d)) [
  | inl e ↦
      let seen = lookup-insert s scope (record { owner = o; epoch = 1; expires = now + ttl }) d in
      let same = eq_iff s scope in ground arith
  | inr (row, e) ↦
      let seen =
        lookup-insert s scope (record { owner = o; epoch = row.epoch + 1; expires = now + ttl })
          d in
      let same = eq_iff s scope in ground arith
]
epoch-apply scope (renew_call s o e ttl now) d = elim (Option-cases (lookup s d)) [
  | inl e ↦ ground arith
  | inr (row, e) ↦
      let seen = lookup-insert s scope (record row { expires = now + ttl }) d in
      let same = eq_iff s scope in ground arith
]

epoch-run :
    (scope : String) (cs : List FenceCall) (d : Fences)
    → epoch_of scope d ≤ epoch_of scope (fence_run cs d)
unfolding fence_run
epoch-run scope [] d = omega arith
epoch-run scope (c ∷ cs) d =
    omega (arith, epoch-apply scope c d, epoch-run scope cs (fence_apply c d))

acquire-epoch :
    (scope owner : String) (ttl now epoch : ℕ) (d : Fences)
    → (acquire scope owner ttl now d).0 ≡ some epoch
    → (epoch_of scope d < epoch) × (epoch_of scope (acquire scope owner ttl now d).1 ≡ epoch)
unfolding acquire
acquire-epoch scope owner ttl now epoch d won = elim (Option-cases (lookup scope d)) [
  | inl e ↦
      let seen =
        lookup-insert_same scope (record { owner = owner; epoch = 1; expires = now + ttl }) d in
      ground arith
  | inr (row, e) ↦
      let seen =
        lookup-insert_same scope
          (record { owner = owner; epoch = row.epoch + 1; expires = now + ttl }) d in
      ground arith
]

-- Only the epoch of the row passes.
check-epoch :
    (scope owner : String) (epoch now : ℕ) (d : Fences)
    → check scope owner epoch now d ≡ some true
    → epoch_of scope d ≡ epoch
unfolding check
check-epoch scope owner epoch now d passes = ground arith

-- A granted leadership has a later epoch than every one before it in its scope; and after it no token
-- of an epoch up to the previous one passes `check` again, for any owner, whatever is acquired and
-- renewed later and whatever the clocks say.
pub acquire-fences :
    (scope owner : String) (ttl now epoch : ℕ) (d : Fences) (cs : List FenceCall)
    → (acquire scope owner ttl now d).0 ≡ some epoch
    → (epoch_of scope d < epoch)
      × ((old : ℕ) (other : String) (later : ℕ)
          → old < epoch
          → check scope other old later (fence_run cs (acquire scope owner ttl now d).1)
            ≢ some true)
acquire-fences scope owner ttl now epoch d cs won =
    let granted = acquire-epoch scope owner ttl now epoch d won in
    (
      granted.0,
      λ old other later before passes.
          let kept = epoch-run scope cs (acquire scope owner ttl now d).1 in
          let shown =
            check-epoch scope other old later (fence_run cs (acquire scope owner ttl now d).1)
              passes in
          omega arith,
    )
