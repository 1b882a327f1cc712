-- ===== src/Guards/Replay.antt =====
-- `claim_nonce` of src/governance/durable_replay.py over the table `agent_nonces`. `stamp` gives the
-- time in front of a nonce's colon: `none` for a nonce that is too long, has no colon, has fewer than
-- 16 characters behind it, or whose time is no finite number.
use agentbridge.Base.{
  ℕ, ◌+◌, ◌*◌, String, Bool, true, false, not, ◌||◌, Option, none, some, string_eq, pair_eq, ltb,
  filter, if◌then◌else◌,
}
use agentbridge.Base.Dict.{Dict, insert, has}

abbrev pub Nonces : Type 0
Nonces = Dict (String × String) ℕ

-- `abs(now - timestamp) > ttl_seconds`
abbrev pub out_of_window : ℕ → ℕ → ℕ → Bool
out_of_window ttl now ts = ltb (ts + ttl) now || ltb (now + ttl) ts

-- `DELETE FROM agent_nonces WHERE at < now - 2 * ttl_seconds`
unfoldable pub expire : ℕ → ℕ → Nonces → Nonces
expire ttl now rows = filter (λ r. not (ltb (r.1 + 2 * ttl) now)) rows

-- `INSERT OR IGNORE`, and whether a row was written
abbrev pub insert_or_ignore : String × String → ℕ → Nonces → Bool × Nonces
insert_or_ignore key now rows = if has key rows then (false, rows) else (true, insert key now rows)

module _ (stamp : String → Option ℕ) (ttl : ℕ) where
  abbrev pub claim_at : Option ℕ → String × String → ℕ → Nonces → Bool × Nonces
  claim_at none key now rows = (false, rows)
  claim_at (some ts) key now rows =
      if out_of_window ttl now ts
      then (false, rows)
      else insert_or_ignore key now (expire ttl now rows)

  unfoldable pub claim_nonce : String → String → ℕ → Nonces → Bool × Nonces
  unfolding expire
  claim_nonce agent_id nonce now rows = claim_at (stamp nonce) (agent_id, nonce) now rows
