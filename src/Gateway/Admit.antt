-- ===== src/Gateway/Admit.antt =====
-- Admission of src/governance/gateway.py, in the legacy single-tenant mode (`authority is None`, no
-- quotas) over one shared SQL store.
use Prim.Native.String.{count}
use agentbridge.Base.{
  ℕ, String, Bool, false, not, ◌&&◌, Option, none, some, ◌==◌, string_eq, leb, if◌then◌else◌,
}
use agentbridge.Store.{OperationRow, AuditEntry, AuditPayload, World}
use agentbridge.Store.Exec.{
  Exec, Result, ok, err, Decision, Reason, admission_rejected, governance_error, grant_consumed,
  proof_required, operation_id_required, operation_conflict, existing_operation, key_reused, pure,
  raise, gets, raise_if, sql_atomic, ◌>>=◌, ◌>>◌,
}
use agentbridge.Budget.State.{num}
use agentbridge.Budget.Manager
use agentbridge.Ledger.Defs
use agentbridge.Approvals.Queue
use agentbridge.Policy.Engine.{Config, Request, Clock, authorize, refused}
use agentbridge.Policy.Identity.{verify_signature}
use agentbridge.Audit.Log.{Fields, record_entry}

-- What the gateway is built with. `hash` is `AuditEntry.compute_hash`, `size` is the size of an entry's
-- JSON, and `text` spells a reason.
pub record Gateway : Type 0 where
  pub config : Config
  pub hash : AuditPayload → String
  pub size : AuditEntry → ℕ
  pub text : Reason → String

-- The arguments of `route_call`, with what the protocol registry makes of them (`wire`), the
-- fingerprint of the request (`scope`) and whether the signed body and
-- the signed data are those of the request (`proof`).
pub record Call : Type 0 where
  pub agent_id : String
  pub src : String
  pub dst : String
  pub capability : String
  pub cost : ℕ
  pub operation_id : Option String
  pub scope : String
  pub signed_data : Option String
  pub signature : Option String
  pub proof : Bool
  pub wire : Result String

-- What a call draws: a reservation token, the id of an approval request, and the clock.
pub record Fresh : Type 0 where
  pub token : String
  pub approval_id : String
  pub clock : Clock

pub record Admission : Type 0 where
  pub call : Call
  pub token : String
  pub wire : String
  pub decision : Decision

abbrev pub fields_of : Call → String → String → ℕ → ℕ → Fields
fields_of k decision reason cost at = record {
  timestamp = at;
  actor = k.agent_id;
  action = "route_call";
  source_protocol = k.src;
  target_protocol = k.dst;
  capability = k.capability;
  decision = decision;
  reason = reason;
  cost = cost;
}

abbrev pub request_of : Call → Request
request_of k = record {
  agent_id = k.agent_id;
  capability = k.capability;
  cost = k.cost;
  signed_data = k.signed_data;
  signature = k.signature;
  src_protocol = some k.src;
  dst_protocol = some k.dst;
  request_scope = some k.scope;
}

abbrev pub claim_if : Call → ℕ → Option String → Exec (Unit {0})
claim_if k at none = pure tt
claim_if k at (some o) = Defs.claim k.agent_id o k.scope none none (pure tt) at

abbrev pub attach_if : Call → String → Option String → Exec (Unit {0})
attach_if k token none = pure tt
attach_if k token (some o) = Defs.attach_reservation k.agent_id o token

abbrev pub required_token : Option String × Reason → Exec String
required_token (none, why) = raise (admission_rejected (refused why))
required_token (some token, why) = pure token

-- `decision.approval_required and (not self.approvals or not self.approvals.consume(...))`
abbrev pub consume_if : Bool → Call → Decision → Exec (Unit {0})
consume_if has_approvals k d =
    if not d.approval_required
    then pure tt
    else if not has_approvals
    then raise (admission_rejected (refused grant_consumed))
    else (do
      used ← Queue.consume k.agent_id k.capability (some k.scope)
      raise_if (not used) (admission_rejected (refused grant_consumed)))

module _ (g : Gateway) (k : Call) (f : Fresh) where
  -- What `_admit_transaction` does inside its transaction.
  unfoldable pub admit_body : Decision → Exec String
  admit_body d = do
    claim_if k f.clock.now k.operation_id
    answer ← Manager.reserve g.config.default_budget k.agent_id (num k.cost) f.clock.now f.token
    token ← required_token answer
    attach_if k token k.operation_id
    consume_if g.config.has_approvals k d
    pure token

  unfoldable pub admit_transaction : Decision → Exec String
  unfolding admit_body
  admit_transaction d = sql_atomic (admit_body d)

  unfoldable pub deny_audit : Reason → Exec AuditEntry
  deny_audit why = record_entry g.hash g.size (fields_of k "deny" (g.text why) 0 f.clock.now)

  -- The denial of `policy.authorize`, with the request for an approval that it may open.
  unfoldable pub denied_call : Decision → Exec Admission
  unfolding deny_audit
  denied_call d =
      if d.needs_approval && g.config.has_approvals
      then (do
        id ← Queue.request k.agent_id k.capability k.cost (some k.scope) f.approval_id f.clock.now
        deny_audit d.reason
        raise (governance_error d (some id)))
      else (do deny_audit d.reason; raise (governance_error d none))

  -- The `except _AdmissionRejected` of `_admit_guarded`.
  unfoldable pub admitted : Decision → String → Result String × World → Result Admission × World
  unfolding deny_audit
  admitted d wire (ok token, w) =
      (ok (record { call = k; token = token; wire = wire; decision = d }), w)
  admitted d wire (err (admission_rejected e), w) =
      (do deny_audit e.reason; raise (governance_error e none)) w
  admitted d wire (err e, w) = (err e, w)

  abbrev pub translated : Result String → Exec String
  translated r w = (r, w)

  unfoldable pub decided : Decision → Exec Admission
  unfolding denied_call admit_transaction admitted
  decided d =
      if not d.allowed
      then denied_call d
      else (do wire ← translated k.wire; λ w. admitted d wire (admit_transaction d w))

  abbrev pub known_operation : Option OperationRow → Exec (Unit {0})
  known_operation none = pure tt
  known_operation (some row) =
      if not (row.fingerprint == k.scope)
      then raise (operation_conflict key_reused)
      else raise (operation_conflict (existing_operation row.state))

  abbrev pub known_if : Option String → Exec (Unit {0})
  known_if none = pure tt
  known_if (some o) = do row ← Defs.get k.agent_id o; known_operation row

  -- `isinstance(operation_id, str) and 16 <= len(operation_id) <= 128`
  abbrev pub is_durable_id : Option String → Bool
  is_durable_id none = false
  is_durable_id (some o) = leb 16 (count o) && leb (count o) 128

  abbrev pub refuse : Reason → Exec (Unit {0})
  refuse why = do deny_audit why; raise (governance_error (refused why) none)

  -- The proof is a registered agent's signature over the signed body of this very request.
  abbrev pub proof_ok : Option String → Option String → World → Bool
  proof_ok (some message) (some signature) w =
      k.proof && verify_signature g.config.verify k.agent_id message signature w
  proof_ok _ _ w = false

  abbrev pub production_checks : Exec (Unit {0})
  production_checks =
      if not g.config.production
      then pure tt
      else if not (is_durable_id k.operation_id)
      then refuse operation_id_required
      else (do
        proven ← gets (proof_ok k.signed_data k.signature)
        if not proven then refuse proof_required else pure tt)

  -- `_admit_guarded`, from the production checks on.
  unfoldable pub admit : Exec Admission
  unfolding decided
  admit = do
    production_checks
    known_if k.operation_id
    d ← authorize g.config (request_of k) f.clock
    decided d
