-- ===== src/Approvals/Consume.antt =====
-- `consume` of src/governance/approvals.py returns true exactly where `is_granted` does.
use agentbridge.Base.{
  Bool, false, String, ◌≡◌, refl, true, Option, some, List, [], ◌∷◌, string_eq, leb, arith, filter,
  All, All-filter, filter-All, Bool-cases, inl, inr,
}
use agentbridge.Base.Dict.{Dict, lookup, IsKeyed, IsKeyed-found}
use agentbridge.Store.Exec.{Result, ok, err}
use agentbridge.Store.{ApprovalRow, World}
use agentbridge.Approvals.Queue.{
  is_approved, any_match, consume_approval, consume_first, consume, is_granted, by_time,
  put_by_time, list_approvals, scoped_capability,
}
use agentbridge.Approvals.Schedule.{said_yes}

-- A row as the statement lists it: approved, and still in the table.
abbrev IsLive : Dict String ApprovalRow → String × ApprovalRow → Type 0
IsLive d r = (lookup r.0 d ≡ some r.1) × (is_approved (r.1).status ≡ true)

put_by_time-All :
    (P : String × ApprovalRow → Type 0) (r : String × ApprovalRow)
    (rows : List (String × ApprovalRow))
    → P r
    → All P rows
    → All P (put_by_time r rows)
unfolding put_by_time
put_by_time-All P r [] p h = (p, tt)
put_by_time-All P (k, a) ((j, b) ∷ rows) p h = elim (Bool-cases (leb a.created_at b.created_at)) [
  | inl e ↦ rw e (p, h)
  | inr e ↦ rw e (h.0, put_by_time-All P (k, a) rows p h.1)
]

by_time-All :
    (P : String × ApprovalRow → Type 0) (rows : List (String × ApprovalRow))
    → All P rows
    → All P (by_time rows)
unfolding by_time
by_time-All P [] h = tt
by_time-All P (r ∷ rows) h = put_by_time-All P r (by_time rows) h.0 (by_time-All P rows h.1)

All-both :
    {A : Type 0} (P Q : A → Type 0) (xs : List A) → All P xs → All Q xs → All (λ x. P x × Q x) xs
All-both P Q [] h k = tt
All-both P Q (x ∷ xs) h k = ((h.0, k.0), All-both P Q xs h.1 k.1)

consume_first-any_match :
    (agent scoped : String) (rows : List (String × ApprovalRow)) (w : World)
    → All (IsLive w.approvals) rows
    → said_yes (consume_first agent scoped rows w).0 ≡ any_match agent scoped rows
unfolding consume_first any_match consume_approval
consume_first-any_match agent scoped [] w h = refl
consume_first-any_match agent scoped ((id, a) ∷ rows) w h =
    ground (arith, consume_first-any_match agent scoped rows w h.1)

-- Where every approval id stands once, a grant is consumed exactly if one is there to be seen.
pub consume-is_granted :
    (agent cap : String) (scope : Option String) (w : World)
    → IsKeyed w.approvals
    → said_yes (consume agent cap scope w).0 ≡ is_granted agent cap scope w
unfolding consume is_granted list_approvals
consume-is_granted agent cap scope w h =
    let live = λ (r : String × ApprovalRow). is_approved (r.1).status in
    let found =
      All-filter (λ r. lookup r.0 w.approvals ≡ some r.1) live w.approvals
        (IsKeyed-found w.approvals h) in
    consume_first-any_match agent (scoped_capability cap scope) (by_time (filter live w.approvals))
      w
      (by_time-All (IsLive w.approvals) (filter live w.approvals)
        (All-both _ _ (filter live w.approvals) found (filter-All live w.approvals)))

abbrev pub returns : Result Bool → Bool
returns (ok b) = true
returns (err e) = false

consume_approval-returns : (id : String) (v : World) → returns (consume_approval id v).0 ≡ true
unfolding consume_approval
consume_approval-returns id v = ground arith

consume_first-returns :
    (agent scoped : String) (rows : List (String × ApprovalRow)) (v : World)
    → returns (consume_first agent scoped rows v).0 ≡ true
unfolding consume_first
consume_first-returns agent scoped [] v = refl
consume_first-returns agent scoped ((id, a) ∷ rows) v = ground (
  arith,
  consume_approval-returns id v,
  consume_first-returns agent scoped rows v,
  consume_first-returns agent scoped rows (consume_approval id v).1,
)

-- Consuming never raises.
pub consume-returns :
    (agent cap : String) (scope : Option String) (v : World)
    → returns (consume agent cap scope v).0 ≡ true
unfolding consume list_approvals
consume-returns agent cap scope v = consume_first-returns agent (scoped_capability cap scope) _ v
