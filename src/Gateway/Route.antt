-- ===== src/Gateway/Route.antt =====
-- `route_call` of src/governance/gateway.py: admit, invoke, settle.
use agentbridge.Base.{ℕ, String}
use agentbridge.Store.{World}
use agentbridge.Store.Exec.{Exec, Error, Result, ok, err, raise, ◌>>=◌, ◌>>◌}
use agentbridge.Gateway.Admit.{Gateway, Call, Fresh, Admission, admit}
use agentbridge.Gateway.Settle.{settle, abort_admission, invocation_failed}

-- `str(exc)[:200] or type(exc).__name__` is `spell`; `now` is the clock after the invocation.
module _ (g : Gateway) (spell : Error → String) (now : ℕ) where
  -- `except BaseException as exc`: the failure is accounted, and the exception raised again.
  unfoldable pub after_settle :
      Admission → String → Result (Unit {0}) × World → Result String × World
  after_settle a result (ok _, w) = (ok result, w)
  after_settle a result (err e, w) = (do invocation_failed g a now (spell e); raise e) w

  unfoldable pub after_invoke : Admission → Result String × World → Result String × World
  unfolding after_settle
  after_invoke a (ok result, w) = after_settle a result (settle g a now w)
  after_invoke a (err e, w) = (do invocation_failed g a now (spell e); raise e) w

  -- `invoke` is the transport's call; other requests may run meanwhile, so it may change the world.
  unfoldable pub route_call : Call → Fresh → (Admission → Exec String) → Exec String
  unfolding after_invoke
  route_call k f invoke = do a ← admit g k f; λ w. after_invoke a (invoke a w)

  -- A caller that is cancelled while the admission completes: the admission is aborted.
  unfoldable pub cancelled_call : Call → Fresh → Exec (Unit {0})
  cancelled_call k f = do a ← admit g k f; abort_admission g a now
