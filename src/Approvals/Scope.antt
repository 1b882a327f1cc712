-- ===== src/Approvals/Scope.antt =====
-- `scoped_capability` of src/governance/approvals.py joins a capability and a request scope.
use Prim.Native.String.{◌++◌ as text_append, count}
use text.Mathlib.TextLemmas.{append_inj, length-append, append_cancel_right}
use agentbridge.Base.{String, ◌≡◌, some, arith, ap}
use agentbridge.Approvals.Queue.{scoped_capability}

-- Two capabilities under two request scopes of one length, as hexadecimal digests are, share a grant
-- only if both the capabilities and the scopes agree.
pub scoped_capability_inj :
    (c d s t : String)
    → count s ≡ count t
    → scoped_capability c (some s) ≡ scoped_capability d (some t)
    → (c ≡ d) × (s ≡ t)
unfolding scoped_capability
scoped_capability_inj c d s t same e =
    let lengths : count (text_append c "|") ≡ count (text_append d "|") = omega (
      arith,
      same,
      ap count e,
      length-append (text_append c "|") s,
      length-append (text_append d "|") t,
    ) in
    let parts = append_inj e lengths in (append_cancel_right c d "|" parts.0, parts.1)
