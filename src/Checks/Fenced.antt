-- ===== src/Checks/Fenced.antt =====
-- Destinations, stream leases and retried calls at concrete inputs.
use agentbridge.Base.{
  ℕ, zero, suc, ◌≤◌, String, true, false, Option, some, List, [], ◌∷◌, ◌≡◌, refl, arith, pair_eq,
}
use agentbridge.Base.Dict.{lookup}
use agentbridge.Authority.Tables.{Directory}
use agentbridge.Quotas.Owner.{OwnerMaterial}
use agentbridge.Streams.Leases.{FleetStreamLimits, Streams}
use agentbridge.Streams.Caps.{StreamCall, acquire_call as stream_acquire, run, run-IsCapped}
use agentbridge.Streams.Counts.{IsCapped}
use agentbridge.Destination.Target.{
  FenceRow, Receipt, Target, acquire, commit, TargetCall, commit_call, served_all,
}
use agentbridge.Destination.Once.{effects_of, effects_of-le_one}
use agentbridge.Destination.Stale.{stale_commit-keeps}
use agentbridge.Guards.Retry.{Attempt, returned, transient, retry_transient}
use agentbridge.Guards.RetryBounds.{IsBounded, retry_transient-IsBounded}
use agentbridge.Checks.Enrolled.{lib, bot, enrolled}

abbrev sign : Receipt → Option String
sign r = some "c0ffee"

abbrev held : FenceRow
held = record { owner = "w1"; epoch = 1; expires_seconds = 100 }

abbrev site : Target
site = record { fences = ("db", held) ∷ []; effects = [] }

abbrev twice : List TargetCall
twice =
    commit_call "db" "w1" 1 "bot" "op1" "f" true 50
    ∷ commit_call "db" "w1" 1 "bot" "op1" "f" false 51
    ∷ []

effects_of-le_one_example : effects_of false sign ("bot", "op1") twice site ≤ 1
effects_of-le_one_example = effects_of-le_one false sign ("bot", "op1") twice site

stale_commit-keeps_example :
    (commit false sign "db" "w1" 1 "bot" "op1" "f" false 130
      (served_all false sign twice (acquire "db" "w2" 15 120 site).1)).1
    ≡ served_all false sign twice (acquire "db" "w2" 15 120 site).1
unfolding acquire lookup
stale_commit-keeps_example =
    stale_commit-keeps false sign "db" "w2" 15 120 2 site twice "w1" 1 "bot" "op1" "f" false 130
      refl (omega arith)

abbrev fleet : FleetStreamLimits
fleet = record {
  max_streams = 2;
  max_per_tenant = 1;
  max_per_owner = 1;
  lease_seconds = 5000;
  max_seconds = 60000;
}

abbrev owner_digest : OwnerMaterial → String
owner_digest m = "owner"

abbrev idle : Streams
idle = record { policy = some "{}"; leases = [] }

abbrev calls : List (Directory × StreamCall)
calls =
    (enrolled, stream_acquire 1000 1000000 "id1" bot)
    ∷ (enrolled, stream_acquire 1001 1001000 "id2" bot)
    ∷ []

run-IsCapped_example :
    IsCapped fleet (run lib owner_digest (λ p. "scope") fleet "{}" calls idle).leases
run-IsCapped_example =
    run-IsCapped lib owner_digest (λ p. "scope") fleet "{}" calls idle
      (omega arith, λ t. omega arith, λ o. omega arith)

-- A store that is locked once.
abbrev locked_once : ℕ → Attempt String String × ℕ
locked_once zero = (transient "database is locked", 1)
locked_once (suc n) = (returned "row", suc (suc n))

abbrev no_jitter : ℕ → ℕ → ℕ
no_jitter n d = d

retry_transient-IsBounded_example :
    IsBounded 20 1000 no_jitter locked_once
      (λ n d. omega arith)
      2
      0
      (retry_transient 20 1000 no_jitter locked_once 3 0)
retry_transient-IsBounded_example =
    retry_transient-IsBounded 20 1000 no_jitter locked_once (λ n d. omega arith) 3 0 (omega arith)
