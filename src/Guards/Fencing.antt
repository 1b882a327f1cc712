-- ===== src/Guards/Fencing.antt =====
-- `PgFencing` of src/governance/pg_fencing.py over the table `agentbridge_fences`. Times and leases are
-- whole milliseconds, and `now` is `clock_timestamp()`; a lease is 500 to 3,600,000 of them.
use Prim.Native.String.{count}
use agentbridge.Base.{
  ℕ, ◌+◌, String, Bool, false, not, ◌&&◌, ◌||◌, Option, none, some, ◌==◌, nat_eq, string_eq, ltb,
  leb, if◌then◌else◌,
}
use agentbridge.Base.Dict.{Dict, lookup, insert}

pub record FenceRow : Type 0 where
  pub owner : String
  pub epoch : ℕ
  pub expires : ℕ

abbrev pub Fences : Type 0
Fences = Dict String FenceRow

-- `none` is `FenceDenied`; the value is the epoch.
abbrev pub Fenced : Type 0
Fenced = Option ℕ × Fences

-- `_validate`
unfoldable pub is_valid : String → String → Bool
is_valid scope owner =
    leb 1 (count scope) && leb (count scope) 128 && leb 1 (count owner) && leb (count owner) 128

abbrev pub is_lease : ℕ → Bool
is_lease ttl = leb 500 ttl && leb ttl 3600000

abbrev pub take_over : String → String → ℕ → ℕ → Option FenceRow → Fences → Fenced
take_over scope owner ttl now none d =
    (some 1, insert scope (record { owner = owner; epoch = 1; expires = now + ttl }) d)
take_over scope owner ttl now (some row) d =
    if leb row.expires now
    then (
      some (row.epoch + 1),
      insert scope (record { owner = owner; epoch = row.epoch + 1; expires = now + ttl }) d,
    )
    else (none, d)

unfoldable pub acquire : String → String → ℕ → ℕ → Fences → Fenced
acquire scope owner ttl now d =
    if not (is_valid scope owner) || not (is_lease ttl)
    then (none, d)
    else take_over scope owner ttl now (lookup scope d) d

-- `owner=? AND epoch=? AND expires>clock_timestamp()`
abbrev pub is_current : String → ℕ → ℕ → FenceRow → Bool
is_current owner epoch now row = row.owner == owner && row.epoch == epoch && ltb now row.expires

abbrev pub extend : String → String → ℕ → ℕ → ℕ → Option FenceRow → Fences → Fenced
extend scope owner epoch ttl now none d = (none, d)
extend scope owner epoch ttl now (some row) d =
    if is_current owner epoch now row
    then (some epoch, insert scope (record row { expires = now + ttl }) d)
    else (none, d)

unfoldable pub renew : String → String → ℕ → ℕ → ℕ → Fences → Fenced
renew scope owner epoch ttl now d =
    if not (is_valid scope owner) || ltb epoch 1 || not (is_lease ttl)
    then (none, d)
    else extend scope owner epoch ttl now (lookup scope d) d

abbrev pub holds_fence : String → ℕ → ℕ → Option FenceRow → Bool
holds_fence owner epoch now none = false
holds_fence owner epoch now (some row) = is_current owner epoch now row

-- `check`; an identity that is not valid raises, which is `none`.
unfoldable pub check : String → String → ℕ → ℕ → Fences → Option Bool
check scope owner epoch now d =
    if not (is_valid scope owner)
    then none
    else some (not (ltb epoch 1) && holds_fence owner epoch now (lookup scope d))
