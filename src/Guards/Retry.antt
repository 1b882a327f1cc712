-- ===== src/Guards/Retry.antt =====
-- `retry_transient` of src/governance/resilience.py. A delay is a count of the smallest unit; `jitter`
-- is the part of a delay that is slept, by the random number of the attempt.
use agentbridge.Base.{List, [], ◌∷◌, ℕ, zero, suc, ◌-◌, ◌*◌, ◌^◌, leb, if◌then◌else◌}

-- What a call of the function does.
pub data Attempt {ℓ} (A E : Type ℓ) : Type ℓ where
  returned : A → Attempt A E
  transient permanent : E → Attempt A E

-- What the wrapper does: `assertion` is the `assert` where no call was made.
pub data Retried {ℓ} (A E : Type ℓ) : Type ℓ where
  result : A → Retried A E
  gave_up raised : E → Retried A E
  assertion : Retried A E

-- What it did, the state of the store behind the function, how often it called and the delays it slept.
pub record Run {ℓ} (A E S : Type ℓ) : Type ℓ where
  pub answer : Retried A E
  pub state : S
  pub calls : ℕ
  pub slept : List ℕ

abbrev pub min : ℕ → ℕ → ℕ
min a b = if leb a b then a else b

-- `min(max_delay, base_delay * (2 ** (attempt - 1)))`
unfoldable pub delay : ℕ → ℕ → ℕ → ℕ
delay base_delay max_delay attempt = min max_delay (base_delay * 2 ^ (attempt - 1))

module _ {ℓ} {A E S : Type ℓ} (base_delay max_delay : ℕ) (jitter : ℕ → ℕ → ℕ)
    (fn : S → Attempt A E × S) where
  abbrev pub resumed : ℕ → Run A E S → Run A E S
  resumed pause run = record run { calls = suc run.calls; slept = pause ∷ run.slept }

  abbrev pub once : Retried A E → S → Run A E S
  once answer s = record { answer = answer; state = s; calls = 1; slept = [] }

  -- What follows an attempt: `left` more may be made, and `rest` is what they do after the pause.
  abbrev pub after : ℕ → ℕ → Attempt A E × S → (S → Run A E S) → Run A E S
  after pause left (returned a, s) rest = once (result a) s
  after pause left (permanent e, s) rest = once (raised e) s
  after pause zero (transient e, s) rest = once (gave_up e) s
  after pause (suc left) (transient e, s) rest = resumed pause (rest s)

  -- The loop, with `left` attempts to make and `attempt` the number of the next.
  unfoldable pub attempts : ℕ → ℕ → S → Run A E S
  attempts zero attempt s = record { answer = assertion; state = s; calls = 0; slept = [] }
  attempts (suc left) attempt s =
      after (jitter attempt (delay base_delay max_delay attempt)) left (fn s)
        (attempts left (suc attempt))

  -- `retry_transient(max_attempts, base_delay, max_delay)(fn)`
  unfoldable pub retry_transient : ℕ → S → Run A E S
  unfolding attempts
  retry_transient max_attempts s = attempts max_attempts 1 s
