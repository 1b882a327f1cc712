-- ===== src/Gateway/Entry.antt =====
-- A call that `_admit_guarded` of src/governance/gateway.py lets through.
use agentbridge.Base.{
  string_eq, Bool, Option, none, not, ◌&&◌, ◌||◌, refl, String, ◌≡◌, sym, subst, ap, ◌∙◌, true,
  some, arith, inl, inr, Bool-cases,
}
use agentbridge.Store.{World}
use agentbridge.Store.Exec.{
  Reason, operation_id_required, proof_required, Exec, Result, ok, err, Decision, Result-cases,
  ◌>>=◌,
}
use agentbridge.Store.Atomic.{bind-ok}
use agentbridge.Policy.Engine.{authorize}
use agentbridge.Ledger.Defs
use agentbridge.Gateway.Admit.{
  Gateway, Call, Fresh, Admission, request_of, admit, admit_transaction, admitted, decided,
  denied_call, known_if, deny_audit, refuse, is_durable_id, proof_ok, production_checks,
}
use agentbridge.Gateway.Standing.{IsAdmitted}
use agentbridge.Gateway.Admitted.{admit_transaction-ok}

module _ (g : Gateway) (k : Call) (f : Fresh) where
  admitted-ok :
      (d : Decision) (wire : String) (r : Result String × World) (a : Admission)
      → (admitted g k f d wire r).0 ≡ ok a
      → (r.0 ≡ ok a.token) × (a.decision ≡ d) × ((admitted g k f d wire r).1 ≡ r.1)
  unfolding admitted
  admitted-ok d wire (ok token, w) a h = ground arith
  admitted-ok d wire (err e, w) a h = absurd (ground arith)

  denied_call-fails :
      (d : Decision) (w : World) (a : Admission) → (denied_call g k f d w).0 ≡ ok a → ⊥
  unfolding denied_call
  denied_call-fails d w a h = ground arith

  decided-ok :
      (d : Decision) (w : World) (a : Admission)
      → (decided g k f d w).0 ≡ ok a
      → (d.allowed ≡ true)
        × (a.decision ≡ d)
        × ((admit_transaction g k f d w).0 ≡ ok a.token)
        × ((decided g k f d w).1 ≡ (admit_transaction g k f d w).1)
  unfolding decided
  decided-ok d w a h = elim (Bool-cases d.allowed) [
    | inr denies ↦ let fails = denied_call-fails d w a in absurd (ground arith)
    | inl allows ↦ elim (Result-cases k.wire) [
      | inr (e, broken) ↦ absurd (ground arith)
      | inl (wire, translates) ↦
          let inside = admitted-ok d wire (admit_transaction g k f d w) a in ground arith
    ]
  ]

  -- In production the operation id is durable and the proof of the request is verified.
  abbrev pub is_proven : World → Bool
  is_proven w =
      not g.config.production
      || (is_durable_id g k f k.operation_id && proof_ok g k f k.signed_data k.signature w)

  refuse-fails : (why : Reason) (w : World) → (refuse g k f why w).0 ≡ ok tt → ⊥
  unfolding deny_audit
  refuse-fails why w h = ground (arith, h)

  -- What passes the first two checks has changed nothing.
  checks-ok :
      (w : World)
      → (production_checks g k f w).0 ≡ ok tt
      → ((production_checks g k f w).1 ≡ w) × (is_proven w ≡ true)
  checks-ok w h =
      ground (arith, h, refuse-fails operation_id_required w, refuse-fails proof_required w)

  known-ok :
      (o : Option String) (w : World) → (known_if g k f o w).0 ≡ ok tt → (known_if g k f o w).1 ≡ w
  unfolding Defs.get
  known-ok none w h = refl
  known-ok (some o) w h = ground (arith, h)

  abbrev after_checks : Exec Admission
  after_checks = known_if g k f k.operation_id >>= λ _.
      (authorize g.config (request_of k) f.clock >>= decided g k f)

  abbrev after_known : Exec Admission
  after_known = authorize g.config (request_of k) f.clock >>= decided g k f

  -- A call with an operation id that the gateway lets through: on the tables that the call met,
  -- `authorize` returned the decision of the admission, which allows the call; in production the id is
  -- durable and the signature over the request is verified. The operation is now unknown under the
  -- fingerprint of this request, linked to the token of the admission, and the budget of the agent holds exactly the cost of the call under this token.
  pub admit-ok :
      (o : String) (w : World) (a : Admission)
      → k.operation_id ≡ some o
      → (admit g k f w).0 ≡ ok a
      → ((authorize g.config (request_of k) f.clock w).0 ≡ ok a.decision)
        × (a.decision.allowed ≡ true)
        × (is_proven w ≡ true)
        × (a.token ≡ f.token)
        × IsAdmitted k f o (admit g k f w).1
  unfolding admit
  admit-ok o w a h done =
      let (u1, e1, s1) = bind-ok (production_checks g k f) (λ _. after_checks) w a done in
      let v1 = (production_checks g k f w).1 in
      let (u2, e2, s2) =
        bind-ok (known_if g k f k.operation_id) (λ _. after_known) v1 a
          (ap (λ r. r.0) (sym s1) ∙ done) in
      let v2 = (known_if g k f k.operation_id v1).1 in
      let (d, e3, s3) =
        bind-ok (authorize g.config (request_of k) f.clock) (decided g k f) v2 a
          (ap (λ r. r.0) (sym (s1 ∙ s2)) ∙ done) in
      let v3 = (authorize g.config (request_of k) f.clock v2).1 in
      let whole = s1 ∙ (s2 ∙ s3) in
      let entered = decided-ok d v3 a (ap (λ r. r.0) (sym whole) ∙ done) in
      let stands = admit_transaction-ok g k f o d v3 a.token h entered.2 in
      let passed = checks-ok w e1 in
      let reached = known-ok k.operation_id v1 e2 ∙ passed.0 in
      (
        ap (λ v. (authorize g.config (request_of k) f.clock v).0) (sym reached)
            ∙ e3
            ∙ ap ok (sym entered.1),
        ap (λ x. x.allowed) entered.1 ∙ entered.0,
        passed.1,
        stands.0,
        subst (IsAdmitted k f o) (sym (ap (λ r. r.1) whole ∙ entered.3)) stands.2,
      )
