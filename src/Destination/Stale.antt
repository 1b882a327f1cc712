-- ===== src/Destination/Stale.antt =====
-- An owner that was overtaken has no more effects (src/governance/fenced_sqlite_destination.py).
use agentbridge.Base.{
  ℕ, ◌+◌, ◌≤◌, ◌<◌, String, ◌≡◌, ◌⊎◌, Bool, false, Option, some, List, [], ◌∷◌, ◌==◌, string_eq,
  nat_eq, pair_eq, arith, Bool-cases, inl, inr,
}
use text.Mathlib.TextEquality.{eq_iff}
use agentbridge.Base.Dict.{lookup, insert, lookup-insert, lookup-insert_same}
use agentbridge.Destination.Target.{
  FenceRow, Receipt, Target, ok, next_epoch, is_fenced, acquire, commit, TargetCall, acquire_call,
  commit_call, served, served_all,
}
use agentbridge.Destination.Once.{commit-cases}

-- The scope's epoch is at least `n`.
abbrev pub HasReached : String → ℕ → Target → Type 0
HasReached scope n t = (row : FenceRow) × (lookup scope t.fences ≡ some row) × (n ≤ row.epoch)

abbrev new_fence : String → ℕ → ℕ → Option FenceRow → FenceRow
new_fence owner ttl now old = record {
  owner = owner;
  epoch = next_epoch old;
  expires_seconds = now + ttl;
}

acquire-cases :
    (s o : String) (ttl now : ℕ) (t : Target)
    → ((acquire s o ttl now t).1 ≡ t)
      ⊎ ((acquire s o ttl now t).1
          ≡ record t { fences = insert s (new_fence o ttl now (lookup s t.fences)) t.fences })
unfolding acquire
acquire-cases s o ttl now t = ground arith

written-HasReached :
    (scope : String) (n : ℕ) (s o : String) (ttl now : ℕ) (t : Target)
    → HasReached scope n t
    → HasReached scope n
        (record t { fences = insert s (new_fence o ttl now (lookup s t.fences)) t.fences })
written-HasReached scope n s o ttl now t (row, e, le) =
    let new = new_fence o ttl now (lookup s t.fences) in
    let written = lookup-insert s scope new t.fences in
    elim (Bool-cases (s == scope)) [
      | inl same ↦ (new, ground (arith, written, same), ground (arith, eq_iff s scope, same, e, le))
      | inr other ↦ (row, ground (arith, written, other, e), le)
    ]

overtaken :
    (owner : String) (e now : ℕ) (row : FenceRow)
    → is_fenced owner e now (some row) ≡ false
    → e < row.epoch
    → ⊥
overtaken owner e now row h lt = ground (arith, h, lt)

module _ (queued : Bool) (sign : Receipt → Option String) where
  served-HasReached :
      (scope : String) (n : ℕ) (c : TargetCall) (t : Target)
      → HasReached scope n t
      → HasReached scope n (served queued sign c t)
  unfolding served
  served-HasReached scope n (acquire_call s o ttl now) t reached =
      elim (acquire-cases s o ttl now t) [
        | inl same ↦ rw same reached
        | inr written ↦ rw written (written-HasReached scope n s o ttl now t reached)
      ]
  served-HasReached scope n (commit_call s o e a op f lose now) t reached =
      elim (commit-cases queued sign s o e a op f lose now t) [
        | inl (same, _) ↦ rw same reached
        | inr (row, _, _, written, _) ↦ rw written reached
      ]

  served_all-HasReached :
      (scope : String) (n : ℕ) (cs : List TargetCall) (t : Target)
      → HasReached scope n t
      → HasReached scope n (served_all queued sign cs t)
  unfolding served_all
  served_all-HasReached scope n [] t reached = reached
  served_all-HasReached scope n (c ∷ cs) t reached =
      served_all-HasReached scope n cs (served queued sign c t)
        (served-HasReached scope n c t reached)

  acquired-HasReached :
      (scope owner : String) (ttl now n : ℕ) (t : Target)
      → (acquire scope owner ttl now t).0 ≡ ok n
      → HasReached scope n (acquire scope owner ttl now t).1
  unfolding acquire
  acquired-HasReached scope owner ttl now n t h =
      let new = new_fence owner ttl now (lookup scope t.fences) in
      (new, ground (arith, h, lookup-insert_same scope new t.fences), ground (arith, h))

  -- After an owner acquired a scope under an epoch, a commit under a smaller epoch changes nothing at the
  -- destination, whatever calls come in between.
  pub stale_commit-keeps :
      (scope owner : String) (ttl now n : ℕ) (t : Target) (cs : List TargetCall) (old : String)
      (e : ℕ) (a op f : String) (lose : Bool) (later : ℕ)
      → (acquire scope owner ttl now t).0 ≡ ok n
      → e < n
      → let reached = served_all queued sign cs (acquire scope owner ttl now t).1 in
        (commit queued sign scope old e a op f lose later reached).1 ≡ reached
  stale_commit-keeps scope owner ttl now n t cs old e a op f lose later h lt =
      let there = served_all queued sign cs (acquire scope owner ttl now t).1 in
      let (row, found, le) =
        served_all-HasReached scope n cs (acquire scope owner ttl now t).1
          (acquired-HasReached scope owner ttl now n t h) in
      elim (commit-cases queued sign scope old e a op f lose later there) [
        | inl (same, _) ↦ same
        | inr (_, _, open_fence, _, _) ↦
            absurd (overtaken old e later row (rw found at open_fence) (omega (arith, le, lt)))
      ]
