-- ===== src/Streams/Caps.antt =====
-- The caps of src/governance/durable_stream_leases.py hold at every moment.
use agentbridge.Base.{ℕ, String, ◌≡◌, refl, not, List, [], ◌∷◌, string_eq, subst}
use agentbridge.Base.Dict.{lookup}
use agentbridge.Authority.Outcome.{
  Outcome, done, denied, invalid, integrity, bind-done, deny_if, ◌>>=◌,
}
use agentbridge.Authority.Tables.{Directory, Principal, Primitives}
use agentbridge.Authority.Current.{current}
use agentbridge.Quotas.Owner.{OwnerMaterial, quota_owner}
use agentbridge.Streams.Leases.{
  FleetStreamLimits, StreamLease, Streams, live_lease, tenant_of_principal, check, acquire,
  same_lease, renew, release,
}
use agentbridge.Streams.Counts.{
  IsCapped, allocate-IsCapped, updated-IsCapped, dropped-IsCapped, live-found, streams-done,
}

-- The calls, each with the authority's clock and the database's.
pub data StreamCall : Type 0 where
  acquire_call : ℕ → ℕ → String → Principal → StreamCall
  renew_call : ℕ → ℕ → Principal → StreamLease → StreamCall
  release_call : StreamLease → StreamCall

abbrev pub kept : Streams → Outcome Streams → Streams
kept s (done t) = t
kept s _ = s

abbrev pub table : Outcome (StreamLease × Streams) → Outcome Streams
table m = m >>= λ r. done r.1

module _ (lib : Primitives) (sha256 : OwnerMaterial → String) (scope_of : Principal → String)
    (limits : FleetStreamLimits) (policy : String) where
  abbrev pub answer : Directory → StreamCall → Streams → Outcome Streams
  answer d (acquire_call now stamp identity p) s =
      table (acquire lib sha256 scope_of limits policy d now stamp identity p s)
  answer d (renew_call now stamp p l) s = renew lib sha256 scope_of limits policy d now stamp p l s
  answer d (release_call l) s = release l s

  -- The authority may change between two calls.
  unfoldable pub run : List (Directory × StreamCall) → Streams → Streams
  run [] s = s
  run ((d, c) ∷ cs) s = run cs (kept s (answer d c s))

  answer-IsCapped :
      (d : Directory) (c : StreamCall) (s t : Streams)
      → IsCapped limits s.leases
      → answer d c s ≡ done t
      → IsCapped limits t.leases
  unfolding acquire renew release
  answer-IsCapped d (acquire_call now stamp identity p) s t capped h =
      let (r, e, h₀) =
        bind-done (acquire lib sha256 scope_of limits policy d now stamp identity p s) _ t h in
      let (_, _, h₁) = bind-done (current lib d now p) _ r e in
      let (owner, _, h₂) = bind-done (quota_owner sha256 p) _ r h₁ in
      let (_, _, h₃) = bind-done (check policy s) _ r h₂ in
      let (tenant, _, h₄) = bind-done (tenant_of_principal p.tenant_id) _ r h₃ in
      subst (λ x. IsCapped limits x.leases) (streams-done r.1 t h₀)
        (allocate-IsCapped limits stamp identity tenant owner (scope_of p) s r capped h₄)
  answer-IsCapped d (renew_call now stamp p l) s t capped h =
      let (_, _, h₁) = bind-done (current lib d now p) _ t h in
      let (_, _, h₂) = bind-done (check policy s) _ t h₁ in
      let (owner, _, h₃) = bind-done (quota_owner sha256 p) _ t h₂ in
      let (_, _, h₄) =
        bind-done (deny_if (not (same_lease l p.tenant_id owner (scope_of p)))) _ t h₃ in
      let (row, e, h₅) = bind-done (live_lease l stamp (lookup l.identity s.leases)) _ t h₄ in
      subst (λ x. IsCapped limits x.leases) (streams-done _ t h₅)
        (updated-IsCapped limits l.identity row _ s.leases (live-found l stamp _ row e) refl refl
          capped)
  answer-IsCapped d (release_call l) s t capped h =
      subst (λ x. IsCapped limits x.leases) (streams-done _ t h)
        (dropped-IsCapped limits l (lookup l.identity s.leases) s.leases capped)

  kept-IsCapped :
      (d : Directory) (c : StreamCall) (s : Streams)
      → IsCapped limits s.leases
      → IsCapped limits (kept s (answer d c s)).leases
  kept-IsCapped d c s capped = go (answer d c s) refl
    where
      go : (m : Outcome Streams) → answer d c s ≡ m → IsCapped limits (kept s m).leases
      go (done t) e = answer-IsCapped d c s t capped e
      go denied e = capped
      go invalid e = capped
      go integrity e = capped

  -- Whatever calls are made, and however the authority changes between them, the allocations stay within
  -- the cap of the fleet, of every tenant and of every owner, if they were so before.
  pub run-IsCapped :
      (cs : List (Directory × StreamCall)) (s : Streams)
      → IsCapped limits s.leases
      → IsCapped limits (run cs s).leases
  unfolding run
  run-IsCapped [] s capped = capped
  run-IsCapped ((d, c) ∷ cs) s capped = run-IsCapped cs _ (kept-IsCapped d c s capped)
