-- ===== src/Streams/Counts.antt =====
-- The counts of src/governance/durable_stream_leases.py under a write to the table.
use agentbridge.Base.{
  ℕ, suc, ◌≤◌, String, ◌≡◌, refl, Bool, false, Option, none, some, [], ◌∷◌, filter, ◌==◌, string_eq,
  if◌then◌else◌, arith, Bool-cases, inl, inr, ap, subst,
}
use text.Mathlib.TextEquality.{eq_iff}
use agentbridge.Base.Dict.{lookup, insert, has, remove}
use agentbridge.Authority.Outcome.{Outcome, done, bind-done, invalid_if}
use agentbridge.Streams.Leases.{
  FleetStreamLimits, StreamLease, LeaseRow, LeaseTable, Streams, is_live, of_tenant, of_owner,
  any_row, count_rows, is_lease, live_lease, drop_lease, insert_lease, at_capacity, allocate,
}

module _ (test : LeaseRow → Bool) where
  count-filter :
      (keep : LeaseRow → Bool) (rows : LeaseTable)
      → count_rows test (filter (λ r. keep r.1) rows) ≤ count_rows test rows
  count-filter keep [] = omega arith
  count-filter keep ((k, r) ∷ rows) = ground (arith, count-filter keep rows)

  count-remove :
      (k : String) (rows : LeaseTable) → count_rows test (remove k rows) ≤ count_rows test rows
  unfolding remove
  count-remove k [] = omega arith
  count-remove k ((j, r) ∷ rows) = ground (arith, count-remove k rows)

  -- A new row is counted by its own test.
  count-insert :
      (k : String) (row : LeaseRow) (rows : LeaseTable)
      → has k rows ≡ false
      → count_rows test (insert k row rows)
        ≡ (if test row then suc (count_rows test rows) else count_rows test rows)
  unfolding lookup insert
  count-insert k row [] h = ground arith
  count-insert k row ((j, r) ∷ rows) h = ground (arith, h, count-insert k row rows)

  -- A row that is written over one with the same test keeps the count.
  count-update :
      (k : String) (old row : LeaseRow) (rows : LeaseTable)
      → lookup k rows ≡ some old
      → test row ≡ test old
      → count_rows test (insert k row rows) ≡ count_rows test rows
  unfolding lookup insert
  count-update k old row [] h e = absurd (ground (arith, h))
  count-update k old row ((j, r) ∷ rows) h e = ground (arith, h, e, count-update k old row rows)

-- No tenant and no owner has more rows than its cap, and there are no more than the fleet's.
abbrev pub IsCapped : FleetStreamLimits → LeaseTable → Type 0
IsCapped l rows =
    (count_rows any_row rows ≤ l.max_streams)
    × ((tenant : String) → count_rows (of_tenant tenant) rows ≤ l.max_per_tenant)
    × ((owner : String) → count_rows (of_owner owner) rows ≤ l.max_per_owner)

table-done : (a b : LeaseTable) → ◌≡◌ {A = Outcome LeaseTable} (done a) (done b) → a ≡ b
table-done a b h = cc

not_refused : (b : Bool) (u : Unit {0}) → invalid_if b ≡ done u → b ≡ false
not_refused b u h = ground (arith, h)

pub streams-done : (a b : Streams) → ◌≡◌ {A = Outcome Streams} (done a) (done b) → a ≡ b
streams-done a b h = cc

module _ (limits : FleetStreamLimits) where
  inserted-IsCapped :
      (identity tenant owner : String) (row : LeaseRow) (rows rows' : LeaseTable)
      → IsCapped limits rows
      → at_capacity limits tenant owner rows ≡ false
      → row.tenant ≡ tenant
      → row.owner ≡ owner
      → insert_lease identity row rows ≡ done rows'
      → IsCapped limits rows'
  inserted-IsCapped identity tenant owner row rows rows' (all, each, own) room t o h =
      elim (Bool-cases (has identity rows)) [
        | inl e ↦ absurd (ground (arith, e, h))
        | inr e ↦
            subst (IsCapped limits)
              (table-done (insert identity row rows) rows' (ground (arith, e, h)))
              (
                ground (arith, count-insert any_row identity row rows e, room),
                λ u. ground (
                  arith,
                  count-insert (of_tenant u) identity row rows e,
                  room,
                  each u,
                  t,
                  eq_iff row.tenant u,
                ),
                λ u. ground (
                  arith,
                  count-insert (of_owner u) identity row rows e,
                  room,
                  own u,
                  o,
                  eq_iff row.owner u,
                ),
              )
      ]

  filtered-IsCapped :
      (keep : LeaseRow → Bool) (rows : LeaseTable)
      → IsCapped limits rows
      → IsCapped limits (filter (λ r. keep r.1) rows)
  filtered-IsCapped keep rows (all, each, own) = (
    omega (arith, all, count-filter any_row keep rows),
    λ u. omega (arith, each u, count-filter (of_tenant u) keep rows),
    λ u. omega (arith, own u, count-filter (of_owner u) keep rows),
  )

  pub allocate-IsCapped :
      (stamp : ℕ) (identity tenant owner scope : String) (s : Streams) (r : StreamLease × Streams)
      → IsCapped limits s.leases
      → allocate limits stamp identity tenant owner scope s ≡ done r
      → IsCapped limits r.1.leases
  unfolding allocate
  allocate-IsCapped stamp identity tenant owner scope s r capped h =
      let live = filter (λ q. is_live stamp q.1) s.leases in
      let (u, e, h₁) = bind-done (invalid_if (at_capacity limits tenant owner live)) _ r h in
      let (rows, e₁, h₂) = bind-done (insert_lease identity _ live) _ r h₁ in
      let same : rows ≡ r.1.leases = cc h₂ in
      subst (IsCapped limits) same (
        inserted-IsCapped identity tenant owner _ live rows
          (filtered-IsCapped (is_live stamp) s.leases capped) (not_refused _ u e) refl refl e₁)

  pub updated-IsCapped :
      (k : String) (old row : LeaseRow) (rows : LeaseTable)
      → lookup k rows ≡ some old
      → row.tenant ≡ old.tenant
      → row.owner ≡ old.owner
      → IsCapped limits rows
      → IsCapped limits (insert k row rows)
  updated-IsCapped k old row rows e t o (all, each, own) = (
    omega (arith, all, count-update any_row k old row rows e refl),
    λ u. omega (arith, each u, count-update (of_tenant u) k old row rows e (ap (λ x. x == u) t)),
    λ u. omega (arith, own u, count-update (of_owner u) k old row rows e (ap (λ x. x == u) o)),
  )

  removed-IsCapped :
      (k : String) (rows : LeaseTable) → IsCapped limits rows → IsCapped limits (remove k rows)
  removed-IsCapped k rows (all, each, own) = (
    omega (arith, all, count-remove any_row k rows),
    λ u. omega (arith, each u, count-remove (of_tenant u) k rows),
    λ u. omega (arith, own u, count-remove (of_owner u) k rows),
  )

  pub dropped-IsCapped :
      (l : StreamLease) (o : Option LeaseRow) (rows : LeaseTable)
      → IsCapped limits rows
      → IsCapped limits (drop_lease l o rows)
  dropped-IsCapped l none rows capped = capped
  dropped-IsCapped l (some row) rows capped = elim (Bool-cases (is_lease l row)) [
    | inl e ↦ rw e (removed-IsCapped l.identity rows capped)
    | inr e ↦ rw e capped
  ]

pub live-found :
    (l : StreamLease) (stamp : ℕ) (o : Option LeaseRow) (row : LeaseRow)
    → live_lease l stamp o ≡ done row
    → o ≡ some row
live-found l stamp none row h = absurd (ground (arith, h))
live-found l stamp (some r) row h = ground (arith, h)
