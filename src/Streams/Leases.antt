-- ===== src/Streams/Leases.antt =====
-- The leases of src/governance/durable_stream_leases.py. `now` is the authority's clock and `stamp` the
-- database's; a policy is known by its canonical JSON, and `scope_of` is the digest of a principal's scope.
use agentbridge.Base.{
  ℕ, ◌+◌, String, Bool, true, false, not, ◌&&◌, ◌||◌, Option, none, some, length, filter, ◌==◌,
  string_eq, leb, ltb, if◌then◌else◌,
}
use agentbridge.Base.Dict.{Dict, lookup, insert, has, remove}
use agentbridge.Authority.Outcome.{
  Outcome, done, invalid, integrity, deny_if, invalid_if, ◌>>=◌, ◌>>◌,
}
use agentbridge.Authority.Tables.{Directory, Principal, Primitives}
use agentbridge.Authority.Current.{current}
use agentbridge.Quotas.Owner.{OwnerMaterial, quota_owner}

-- `FleetStreamLimits`, in milliseconds
pub record FleetStreamLimits : Type 0 where
  pub max_streams : ℕ
  pub max_per_tenant : ℕ
  pub max_per_owner : ℕ
  pub lease_seconds : ℕ
  pub max_seconds : ℕ

abbrev pub within : ℕ → ℕ → ℕ → Bool
within least most n = leb least n && leb n most

-- `FleetStreamLimits.__post_init__`
unfoldable pub is_allowed : FleetStreamLimits → Bool
is_allowed l =
    within 1 10000 l.max_streams
    && within 1 10000 l.max_per_tenant
    && within 1 10000 l.max_per_owner
    && within 50 30000 l.lease_seconds
    && within 50 3600000 l.max_seconds
    && leb l.lease_seconds l.max_seconds

pub record StreamLease : Type 0 where
  pub identity : String
  pub tenant : String
  pub owner : String
  pub scope : String

-- A row of `stream_leases_v1`, keyed by its identity.
pub record LeaseRow : Type 0 where
  pub tenant : String
  pub owner : String
  pub scope : String
  pub expires : ℕ
  pub deadline : ℕ

abbrev pub LeaseTable : Type 0
LeaseTable = Dict String LeaseRow

pub record Streams : Type 0 where
  pub policy : Option String
  pub leases : LeaseTable

-- `WHERE expires>? AND deadline>?`
abbrev pub is_live : ℕ → LeaseRow → Bool
is_live now row = ltb now row.expires && ltb now row.deadline

abbrev pub of_tenant : String → LeaseRow → Bool
of_tenant tenant row = row.tenant == tenant

abbrev pub of_owner : String → LeaseRow → Bool
of_owner owner row = row.owner == owner

-- `SUM(CASE WHEN … THEN 1 ELSE 0 END)`
abbrev pub count_rows : (LeaseRow → Bool) → LeaseTable → ℕ
count_rows test rows = length (filter (λ r. test r.1) rows)

abbrev pub any_row : LeaseRow → Bool
any_row row = true

abbrev pub min : ℕ → ℕ → ℕ
min a b = if leb a b then a else b

-- The row of the `SELECT` in `renew`, and what `release` deletes.
abbrev pub is_lease : StreamLease → LeaseRow → Bool
is_lease l row = row.tenant == l.tenant && row.owner == l.owner && row.scope == l.scope

abbrev pub live_lease : StreamLease → ℕ → Option LeaseRow → Outcome LeaseRow
live_lease l now none = invalid
live_lease l now (some row) = if is_lease l row && is_live now row then done row else invalid

abbrev pub drop_lease : StreamLease → Option LeaseRow → LeaseTable → LeaseTable
drop_lease l none rows = rows
drop_lease l (some row) rows = if is_lease l row then remove l.identity rows else rows

abbrev pub tenant_of_principal : Option String → Outcome String
tenant_of_principal none = invalid
tenant_of_principal (some t) = done t

abbrev pub same_policy : Option String → String → Bool
same_policy none policy = false
same_policy (some p) policy = p == policy

abbrev pub insert_lease : String → LeaseRow → LeaseTable → Outcome LeaseTable
insert_lease identity row rows =
    if has identity rows then integrity else done (insert identity row rows)

-- `_check`
unfoldable pub check : String → Streams → Outcome (Unit {0})
check policy s = invalid_if (not (same_policy s.policy policy))

module _ (limits : FleetStreamLimits) where
  abbrev pub at_capacity : String → String → LeaseTable → Bool
  at_capacity tenant owner rows =
      leb limits.max_streams (count_rows any_row rows)
      || leb limits.max_per_tenant (count_rows (of_tenant tenant) rows)
      || leb limits.max_per_owner (count_rows (of_owner owner) rows)

  -- The allocation, once the owner is known; `identity` is the fresh token.
  unfoldable pub allocate :
      ℕ → String → String → String → String → Streams → Outcome (StreamLease × Streams)
  allocate stamp identity tenant owner scope s = do
    let live = filter (λ r. is_live stamp r.1) s.leases
    invalid_if (at_capacity tenant owner live)
    rows ←
        insert_lease identity
          (record {
            tenant = tenant;
            owner = owner;
            scope = scope;
            expires = stamp + limits.lease_seconds;
            deadline = stamp + limits.max_seconds;
          })
          live
    done (
      record { identity = identity; tenant = tenant; owner = owner; scope = scope },
      record s { leases = rows },
    )

abbrev pub same_lease : StreamLease → Option String → String → String → Bool
same_lease l tenant owner scope =
    elim tenant [ none ↦ false | some t ↦ l.tenant == t ] && l.owner == owner && l.scope == scope

-- `release`
unfoldable pub release : StreamLease → Streams → Outcome Streams
release l s = done (record s { leases = drop_lease l (lookup l.identity s.leases) s.leases })

-- `usage`: how many allocations are live
unfoldable pub usage : String → ℕ → Streams → Outcome ℕ
usage policy stamp s = do check policy s; done (count_rows (is_live stamp) s.leases)

module _ (lib : Primitives) (sha256 : OwnerMaterial → String) (scope_of : Principal → String)
    (limits : FleetStreamLimits) (policy : String) where
  -- `acquire`
  unfoldable pub acquire :
      Directory → ℕ → ℕ → String → Principal → Streams → Outcome (StreamLease × Streams)
  acquire d now stamp identity p s = do
    current lib d now p
    owner ← quota_owner sha256 p
    check policy s
    tenant ← tenant_of_principal p.tenant_id
    allocate limits stamp identity tenant owner (scope_of p) s

  -- `renew`
  unfoldable pub renew : Directory → ℕ → ℕ → Principal → StreamLease → Streams → Outcome Streams
  renew d now stamp p l s = do
    current lib d now p
    check policy s
    owner ← quota_owner sha256 p
    deny_if (not (same_lease l p.tenant_id owner (scope_of p)))
    row ← live_lease l stamp (lookup l.identity s.leases)
    done (record s {
      leases =
          insert l.identity
            (record row { expires = min (stamp + limits.lease_seconds) row.deadline }) s.leases;
    })
