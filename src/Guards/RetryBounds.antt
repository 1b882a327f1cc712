-- ===== src/Guards/RetryBounds.antt =====
-- A retried call ends, within its attempts (src/governance/resilience.py).
use agentbridge.Base.{length, All, subst, ap, sym, ℕ, zero, suc, ◌-◌, ◌≤◌, ◌≡◌, refl, arith}
use agentbridge.Guards.Retry.{
  Attempt, returned, transient, permanent, Retried, result, gave_up, raised, assertion, Run, delay,
  after, attempts, retry_transient,
}

delay-le : (base_delay max_delay attempt : ℕ) → delay base_delay max_delay attempt ≤ max_delay
unfolding delay
delay-le base_delay max_delay attempt = ground arith

module _ {A E S : Type 0} (base_delay max_delay : ℕ) (jitter : ℕ → ℕ → ℕ) (fn : S → Attempt A E × S)
    (jittered : (n d : ℕ) → jitter n d ≤ d) where
  -- The last call's outcome, told by the answer.
  abbrev pub IsAnswer : Retried A E → ℕ → ℕ → Attempt A E → Type 0
  IsAnswer (result a) most calls last = last ≡ returned a
  IsAnswer (raised e) most calls last = last ≡ permanent e
  IsAnswer (gave_up e) most calls last = (last ≡ transient e) × (calls ≡ most)
  IsAnswer assertion most calls last = ⊥

  -- The states that the calls go through: every call but the last raises a transient error.
  pub Follows : ℕ → S → S → Type 0
  Follows zero s s' = s ≡ s'
  Follows (suc n) s s' = (e : E) × ((fn s).0 ≡ transient e) × Follows n (fn s).1 s'

  abbrev pub IsBounded : ℕ → S → Run A E S → Type 0
  IsBounded left s run =
      (n : ℕ) × (before : S) × (run.calls ≡ suc n)
      × (n ≤ left)
      × (length run.slept ≡ n)
      × All (λ pause. pause ≤ max_delay) run.slept
      × Follows n s before
      × (run.state ≡ (fn before).1)
      × IsAnswer run.answer (suc left) run.calls (fn before).0

  IsAnswer-suc :
      (answer : Retried A E) (most calls : ℕ) (last : Attempt A E)
      → IsAnswer answer most calls last
      → IsAnswer answer (suc most) (suc calls) last
  IsAnswer-suc (result a) most calls last h = h
  IsAnswer-suc (raised e) most calls last h = h
  IsAnswer-suc (gave_up e) most calls last h = (h.0, omega (arith, h.1))
  IsAnswer-suc assertion most calls last h = h

  pause-le : (attempt : ℕ) → jitter attempt (delay base_delay max_delay attempt) ≤ max_delay
  pause-le attempt = omega (
    arith,
    jittered attempt (delay base_delay max_delay attempt),
    delay-le base_delay max_delay attempt,
  )

  ended :
      (left : ℕ) (pause : ℕ) (s : S) (r : Attempt A E × S) (rest : S → Run A E S)
      → fn s ≡ r
      → pause ≤ max_delay
      → ((m : ℕ) → left ≡ suc m → IsBounded m r.1 (rest r.1))
      → IsBounded left s (after base_delay max_delay jitter fn pause left r rest)
  unfolding Follows
  ended left pause s (returned a, t) rest e le more =
      (0, s, refl, omega arith, refl, tt, refl, ap (λ q. q.1) (sym e), ap (λ q. q.0) e)
  ended left pause s (permanent x, t) rest e le more =
      (0, s, refl, omega arith, refl, tt, refl, ap (λ q. q.1) (sym e), ap (λ q. q.0) e)
  ended zero pause s (transient x, t) rest e le more =
      (0, s, refl, omega arith, refl, tt, refl, ap (λ q. q.1) (sym e), (ap (λ q. q.0) e, refl))
  ended (suc left) pause s (transient x, t) rest e le more =
      let (n, before, called, few, slept, short, path, state, answer) = more left refl in
      (
        suc n,
        before,
        omega (arith, called),
        omega (arith, few),
        omega (arith, slept),
        (le, short),
        (x, ap (λ q. q.0) e, subst (λ u. Follows n u before) (ap (λ q. q.1) (sym e)) path),
        state,
        IsAnswer-suc (rest t).answer _ _ _ answer,
      )

  attempts-IsBounded :
      (left attempt : ℕ) (s : S)
      → IsBounded left s (attempts base_delay max_delay jitter fn (suc left) attempt s)
  unfolding attempts
  attempts-IsBounded zero attempt s =
      ended zero _ s (fn s) (attempts base_delay max_delay jitter fn zero (suc attempt)) refl
        (pause-le attempt) (λ m e. absurd (omega (arith, e)))
  attempts-IsBounded (suc left) attempt s =
      let again = attempts-IsBounded left (suc attempt) (fn s).1 in
      ended (suc left) _ s (fn s) (attempts base_delay max_delay jitter fn (suc left) (suc attempt))
        refl (pause-le attempt)
        (λ m e.
          subst
            (λ k.
              IsBounded k (fn s).1
                (attempts base_delay max_delay jitter fn (suc left) (suc attempt) (fn s).1))
            (omega (arith, e)) again)

  -- With at least one attempt allowed, and a jitter that does not lengthen a delay, the wrapper ends
  -- after at most that many calls of the function. It sleeps once between two of them, each time at
  -- most `max_delay`. All calls but the last raised transient
  -- errors; its answer is what the last call returned or raised, and it gives up on a transient error
  -- only when every attempt has been made.
  pub retry_transient-IsBounded :
      (max_attempts : ℕ) (s : S)
      → 1 ≤ max_attempts
      → IsBounded
          (max_attempts - 1)
          s
          (retry_transient base_delay max_delay jitter fn max_attempts s)
  unfolding retry_transient
  retry_transient-IsBounded zero s some_allowed = absurd (omega (arith, some_allowed))
  retry_transient-IsBounded (suc left) s some_allowed =
      subst (λ k. IsBounded k s (attempts base_delay max_delay jitter fn (suc left) 1 s))
        (omega arith) (attempts-IsBounded left 1 s)
