-- ===== src/Gateway/Routed.antt =====
-- A call that `route_call` of src/governance/gateway.py returns from.
use agentbridge.Base.{ℕ, String, ◌≡◌, sym, ap, ◌∙◌, arith}
use agentbridge.Store.{World}
use agentbridge.Store.Exec.{Exec, Error, Result, ok, err}
use agentbridge.Store.Atomic.{bind-ok}
use agentbridge.Gateway.Admit.{Gateway, Call, Fresh, Admission, admit}
use agentbridge.Gateway.Settle.{settle}
use agentbridge.Gateway.Route.{after_settle, after_invoke, route_call}

module _ (g : Gateway) (spell : Error → String) (now : ℕ) where
  after_settle-ok :
      (a : Admission) (result returned : String) (r : Result (Unit {0}) × World)
      → (after_settle g spell now a result r).0 ≡ ok returned
      → (result ≡ returned) × (r.0 ≡ ok tt) × ((after_settle g spell now a result r).1 ≡ r.1)
  unfolding after_settle
  after_settle-ok a result returned (ok u, w) h = ground arith
  after_settle-ok a result returned (err e, w) h = absurd (ground arith)

  after_invoke-ok :
      (a : Admission) (returned : String) (r : Result String × World)
      → (after_invoke g spell now a r).0 ≡ ok returned
      → (r.0 ≡ ok returned)
        × ((settle g a now r.1).0 ≡ ok tt)
        × ((after_invoke g spell now a r).1 ≡ (settle g a now r.1).1)
  unfolding after_invoke
  after_invoke-ok a returned (ok result, w) h =
      let settled = after_settle-ok a result returned (settle g a now w) h in
      (ap ok settled.0, settled.1, settled.2)
  after_invoke-ok a returned (err e, w) h = absurd (ground arith)

  -- Whatever the invocation does to the world: `route_call` returns a result only if the call was
  -- admitted, the invocation of this admission returned that result, and it was settled; the world is
  -- then the one that the settlement left.
  pub route_call-ok :
      (k : Call) (f : Fresh) (invoke : Admission → Exec String) (w : World) (returned : String)
      → (route_call g spell now k f invoke w).0 ≡ ok returned
      → (a : Admission) × ((admit g k f w).0 ≡ ok a)
        × ((invoke a (admit g k f w).1).0 ≡ ok returned)
        × ((settle g a now (invoke a (admit g k f w).1).1).0 ≡ ok tt)
        × ((route_call g spell now k f invoke w).1
            ≡ (settle g a now (invoke a (admit g k f w).1).1).1)
  unfolding route_call
  route_call-ok k f invoke w returned done =
      let (a, admitted, shape) =
        bind-ok (admit g k f) (λ a v. after_invoke g spell now a (invoke a v)) w returned done in
      let settled =
        after_invoke-ok a returned (invoke a (admit g k f w).1)
          (ap (λ r. r.0) (sym shape) ∙ done) in
      (a, admitted, settled.0, settled.1, ap (λ r. r.1) shape ∙ settled.2)
