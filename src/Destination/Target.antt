-- ===== src/Destination/Target.antt =====
-- `FencedSqliteTarget.acquire` and `commit` of src/governance/fenced_sqlite_destination.py. `queued` says
-- that the file is bound to the queued contract; `sign` is the callback on the receipt's canonical
-- payload, `none` where it gives no 64 bytes. Times are whole seconds.
use Prim.Native.String.{◌++◌}
use agentbridge.Base.{
  ℕ, ◌+◌, String, Bool, true, false, not, ◌&&◌, ◌||◌, Option, none, some, List, [], ◌∷◌, ◌==◌,
  string_eq, nat_eq, pair_eq, leb, ltb, if◌then◌else◌,
}
use agentbridge.Base.Dict.{Dict, lookup, insert, has}
use agentbridge.Authority.Text.{is_sized}

-- A row of `ab_destination_fences`, keyed by its scope.
pub record FenceRow : Type 0 where
  pub owner : String
  pub epoch : ℕ
  pub expires_seconds : ℕ

pub record Receipt : Type 0 where
  pub agent_id : String
  pub operation_id : String
  pub fingerprint : String
  pub outcome : String
  pub external_reference : String

-- A row of `sandbox_effects`: the receipt and its signature.
pub record EffectRow : Type 0 where
  pub receipt : Receipt
  pub signature_hex : String

pub record Target : Type 0 where
  pub fences : Dict String FenceRow
  pub effects : Dict (String × String) EffectRow

-- `timed_out` is the `TimeoutError` after a commit whose acknowledgement is dropped.
pub data Reply {ℓ} (A : Type ℓ) : Type ℓ where
  ok : A → Reply A
  value_error fence_denied duplicate_effect timed_out : Reply A

abbrev pub is_identifier : String → Bool
is_identifier s = is_sized 128 s

abbrev pub is_held : ℕ → Option FenceRow → Bool
is_held now none = false
is_held now (some row) = ltb now row.expires_seconds

abbrev pub next_epoch : Option FenceRow → ℕ
next_epoch none = 1
next_epoch (some row) = row.epoch + 1

-- `acquire`
unfoldable pub acquire : String → String → ℕ → ℕ → Target → Reply ℕ × Target
acquire scope owner ttl_seconds now t =
    let row = lookup scope t.fences in
    if not (is_identifier scope && is_identifier owner)
      || not (leb 1 ttl_seconds && leb ttl_seconds 3600)
    then (value_error, t)
    else if is_held now row
    then (fence_denied, t)
    else (
      ok (next_epoch row),
      record t {
        fences =
            insert scope
              (record {
                owner = owner;
                epoch = next_epoch row;
                expires_seconds = now + ttl_seconds;
              })
              t.fences;
      },
    )

abbrev pub is_fenced : String → ℕ → ℕ → Option FenceRow → Bool
is_fenced owner epoch now none = true
is_fenced owner epoch now (some row) =
    not (row.owner == owner) || not (row.epoch == epoch) || leb row.expires_seconds now

abbrev pub receipt_of : String → String → String → Receipt
receipt_of agent_id operation_id fingerprint = record {
  agent_id = agent_id;
  operation_id = operation_id;
  fingerprint = fingerprint;
  outcome = "succeeded";
  external_reference = "sqlite-fenced-effect:" ++ operation_id;
}

abbrev pub recorded :
    String × String → Bool → Receipt → Option String → Target → Reply EffectRow × Target
recorded key lose_ack receipt none t = (value_error, t)
recorded key lose_ack receipt (some hex) t =
    let row : EffectRow = record { receipt = receipt; signature_hex = hex } in
    (if lose_ack then timed_out else ok row, record t { effects = insert key row t.effects })

module _ (queued : Bool) (sign : Receipt → Option String) where
  -- `commit`
  unfoldable pub commit :
      String → String → ℕ → String → String → String → Bool → ℕ → Target → Reply EffectRow × Target
  commit scope owner epoch agent_id operation_id fingerprint lose_ack now t =
      if queued
      then (value_error, t)
      else if not (
          is_identifier scope
          && is_identifier owner
          && is_identifier agent_id
          && is_identifier operation_id
          && is_identifier fingerprint)
      then (value_error, t)
      else if not (leb 1 epoch)
      then (value_error, t)
      else if is_fenced owner epoch now (lookup scope t.fences)
      then (fence_denied, t)
      else if has (agent_id, operation_id) t.effects
      then (duplicate_effect, t)
      else recorded (agent_id, operation_id) lose_ack (receipt_of agent_id operation_id fingerprint)
          (sign (receipt_of agent_id operation_id fingerprint)) t

pub data TargetCall : Type 0 where
  acquire_call : String → String → ℕ → ℕ → TargetCall
  commit_call : String → String → ℕ → String → String → String → Bool → ℕ → TargetCall

module _ (queued : Bool) (sign : Receipt → Option String) where
  -- What a call leaves.
  unfoldable pub served : TargetCall → Target → Target
  unfolding acquire commit
  served (acquire_call s o ttl now) t = (acquire s o ttl now t).1
  served (commit_call s o e a op f lose now) t = (commit queued sign s o e a op f lose now t).1

  unfoldable pub served_all : List TargetCall → Target → Target
  unfolding served
  served_all [] t = t
  served_all (c ∷ cs) t = served_all cs (served c t)
