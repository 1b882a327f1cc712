-- ===== src/Gateway/Admitted.antt =====
-- What an admission of src/governance/gateway.py leaves behind.
use agentbridge.Base.{
  String, ◌≡◌, refl, sym, subst, ap, ◌∙◌, Option, none, some, List, [], ◌∷◌, arith, filter,
  string_eq, pair_eq,
}
use agentbridge.Base.Dict.{lookup, lookup-insert_same}
use agentbridge.Store.{ApprovalRow, BudgetState, World}
use agentbridge.Store.Exec.{Exec, Result, Decision, Reason, ok, pure, ◌>>=◌}
use agentbridge.Store.Atomic.{bind-ok, sql_atomic-ok}
use agentbridge.Budget.State.{num, reserve_in, seed, prune, checked_cost}
use agentbridge.Budget.Manager.{reserve, mutate_budget, base_budget}
use agentbridge.Ledger.Defs.{claim, attach_reservation}
use agentbridge.Ledger.Once.{claim-ok}
use agentbridge.Ledger.Tokens.{attach-ok}
use agentbridge.Approvals.Queue.{
  consume, consume_first, consume_approval, list_approvals, scoped_capability, by_time, is_approved,
}
use agentbridge.Gateway.Standing.{SameAccounts, claimed_row, IsAdmitted, same-IsAdmitted}
use agentbridge.Gateway.Admit.{
  Gateway, Call, Fresh, admit_body, admit_transaction, consume_if, required_token,
}

module _ (g : Gateway) (k : Call) (f : Fresh) where
  consume_approval-same : (id : String) (w : World) → SameAccounts (consume_approval id w).1 w
  unfolding consume_approval
  consume_approval-same id w = ground arith

  consume_first-same :
      (agent scoped : String) (rows : List (String × ApprovalRow)) (w : World)
      → SameAccounts (consume_first agent scoped rows w).1 w
  unfolding consume_first
  consume_first-same agent scoped [] w = ground arith
  consume_first-same agent scoped ((id, a) ∷ rows) w =
      let passed = consume_first-same agent scoped rows w in
      let lost = consume_first-same agent scoped rows (consume_approval id w).1 in
      let tried = consume_approval-same id w in ground arith

  consume_if-same :
      (d : Decision) (w : World) → SameAccounts (consume_if g.config.has_approvals k d w).1 w
  unfolding consume list_approvals
  consume_if-same d w =
      let same =
        consume_first-same k.agent_id (scoped_capability k.capability (some k.scope))
          (by_time (filter (λ e. is_approved (e.1).status) w.approvals)) w in
      ground arith

  pub reserve_in-held :
      (token : String) (why : Reason) (s : BudgetState)
      → (reserve_in f.token k.cost f.clock.now s).0 ≡ (some token, why)
      → (token ≡ f.token)
        × (lookup f.token (reserve_in f.token k.cost f.clock.now s).1.reserved ≡ some k.cost)
  unfolding reserve_in
  reserve_in-held token why s h =
      let held = lookup-insert_same f.token k.cost (prune f.clock.now s).reserved in ground arith

  abbrev pub base : World → BudgetState
  base w = seed (base_budget g.config.default_budget k.agent_id w) (lookup k.agent_id w.budgets)

  reserve-ok :
      (token : String) (why : Reason) (w : World)
      → (reserve g.config.default_budget k.agent_id (num k.cost) f.clock.now f.token w).0
        ≡ ok (some token, why)
      → let after =
          (reserve g.config.default_budget k.agent_id (num k.cost) f.clock.now f.token w).1 in
        (token ≡ f.token)
        × (after.agent_operations ≡ w.agent_operations)
        × (after.operation_reservations ≡ w.operation_reservations)
        × ((s : BudgetState) × (lookup k.agent_id after.budgets ≡ some s)
            × (lookup f.token s.reserved ≡ some k.cost))
  unfolding reserve mutate_budget checked_cost
  reserve-ok token why w h =
      let held = reserve_in-held token why (base w) (ground arith) in
      (
        held.0,
        refl,
        refl,
        (
          (reserve_in f.token k.cost f.clock.now (base w)).1,
          lookup-insert_same k.agent_id (reserve_in f.token k.cost f.clock.now (base w)).1
              w.budgets,
          held.1,
        ),
      )

  module _ (o : String) (d : Decision) (w : World) where
    abbrev claim_run : Result (Unit {0}) × World
    claim_run = claim k.agent_id o k.scope none none (pure tt) f.clock.now w

    abbrev reserve_run : World → Result (Option String × Reason) × World
    reserve_run v = reserve g.config.default_budget k.agent_id (num k.cost) f.clock.now f.token v

    abbrev pub after_link : String → Exec String
    after_link token = consume_if g.config.has_approvals k d >>= λ _. pure token

    abbrev pub after_token : String → Exec String
    after_token token = attach_reservation k.agent_id o token >>= λ _. after_link token

    abbrev pub after_reserve : Option String × Reason → Exec String
    after_reserve answer = required_token answer >>= after_token

    abbrev pub after_claim : Exec String
    after_claim =
        reserve g.config.default_budget k.agent_id (num k.cost) f.clock.now f.token
        >>= after_reserve

    abbrev pub chain : Exec String
    chain = claim k.agent_id o k.scope none none (pure tt) f.clock.now >>= λ _. after_claim

    pub admit_body-chain : k.operation_id ≡ some o → admit_body g k f d w ≡ chain w
    unfolding admit_body
    admit_body-chain h = rw h

    after_reserve-ok :
        (answer : Option String × Reason) (token : String) (v : World)
        → (after_reserve answer v).0 ≡ ok token
        → (t : String) × (answer.0 ≡ some t) × (after_reserve answer v ≡ after_token t v)
    after_reserve-ok (none, why) token v h = absurd (ground arith)
    after_reserve-ok (some t, why) token v h = (t, refl, refl)

    after_link-ok :
        (t token : String) (v : World)
        → (after_link t v).0 ≡ ok token
        → (token ≡ t) × SameAccounts (after_link t v).1 v
    after_link-ok t token v h =
        let (x, used, shape) =
          bind-ok (consume_if g.config.has_approvals k d) (λ _. pure t) v token h in
        let returned : ok t ≡ ok token = ap (λ r. r.0) (sym shape) ∙ h in
        (ground arith, subst (λ r. SameAccounts r.1 v) (sym shape) (consume_if-same d v))

    attached-IsAdmitted :
        (t : String) (why : Reason)
        → claim_run.0 ≡ ok tt
        → (reserve_run claim_run.1).0 ≡ ok (some t, why)
        → (attach_reservation k.agent_id o t (reserve_run claim_run.1).1).0 ≡ ok tt
        → IsAdmitted k f o (attach_reservation k.agent_id o t (reserve_run claim_run.1).1).1
    attached-IsAdmitted t why done granted attached =
        let first = claim-ok k.agent_id o k.scope none none f.clock.now w done in
        let reserved = reserve-ok t why claim_run.1 granted in
        let u = (reserve_run claim_run.1).1 in
        let link = attach-ok k.agent_id o t u attached in
        subst (IsAdmitted k f o) (sym link.4) record {
          claimed =
              ap (lookup (k.agent_id, o)) reserved.1
              ∙ (ap (lookup (k.agent_id, o)) first.1
                  ∙ lookup-insert_same (k.agent_id, o) (claimed_row k f o) w.agent_operations);
          linked =
              lookup-insert_same (k.agent_id, o) t u.operation_reservations ∙ ap some reserved.0;
          budget = reserved.3.0;
          stored = reserved.3.1;
          held = reserved.3.2;
        }

    chain-ok :
        (token : String)
        → (chain w).0 ≡ ok token
        → (token ≡ f.token)
          × (lookup (k.agent_id, o) w.agent_operations ≡ none)
          × IsAdmitted k f o (chain w).1
    chain-ok token done =
        let (u, claimed, s1) =
          bind-ok (claim k.agent_id o k.scope none none (pure tt) f.clock.now) (λ _. after_claim) w
            token done in
        let (answer, granted, s2) =
          bind-ok (reserve g.config.default_budget k.agent_id (num k.cost) f.clock.now f.token)
            after_reserve claim_run.1 token (ap (λ r. r.0) (sym s1) ∙ done) in
        let (t, given, s3) =
          after_reserve-ok answer token (reserve_run claim_run.1).1
            (ap (λ r. r.0) (sym (s1 ∙ s2)) ∙ done) in
        let (x, attached, s4) =
          bind-ok (attach_reservation k.agent_id o t) (λ _. after_link t)
            (reserve_run claim_run.1).1 token (ap (λ r. r.0) (sym (s1 ∙ (s2 ∙ s3))) ∙ done) in
        let whole = s1 ∙ (s2 ∙ (s3 ∙ s4)) in
        let last =
          after_link-ok t token (attach_reservation k.agent_id o t (reserve_run claim_run.1).1).1
            (ap (λ r. r.0) (sym whole) ∙ done) in
        let with_token : answer ≡ (some t, answer.1) = ap (λ x. (x, answer.1)) given in
        let reserved = reserve-ok t answer.1 claim_run.1 (granted ∙ ap ok with_token) in
        (
          last.0 ∙ reserved.0,
          (claim-ok k.agent_id o k.scope none none f.clock.now w claimed).0,
          subst (λ r. IsAdmitted k f o r.1) (sym whole)
              (same-IsAdmitted k f o
                (attach_reservation k.agent_id o t (reserve_run claim_run.1).1).1
                (after_link t (attach_reservation k.agent_id o t (reserve_run claim_run.1).1).1).1
                last.1
                (attached-IsAdmitted t answer.1 claimed (granted ∙ ap ok with_token) attached)),
        )

    -- An admission that returns has claimed an operation that was not known before: the operation is
    -- unknown under the fingerprint of the request, it is linked to the returned token, and the budget
    -- of the agent holds exactly the cost of the call under this token.
    pub admit_transaction-ok :
        (token : String)
        → k.operation_id ≡ some o
        → (admit_transaction g k f d w).0 ≡ ok token
        → (token ≡ f.token)
          × (lookup (k.agent_id, o) w.agent_operations ≡ none)
          × IsAdmitted k f o (admit_transaction g k f d w).1
    unfolding admit_transaction
    admit_transaction-ok token h done =
        let (inside, same) = sql_atomic-ok (admit_body g k f d) w token done in
        let shape = admit_body-chain h in
        let body = chain-ok token (ap (λ r. r.0) (sym shape) ∙ inside) in
        (body.0, body.1, subst (λ r. IsAdmitted k f o r.1) (sym (same ∙ shape)) body.2)
