-- ===== src/Approvals/Queue.antt =====
-- The approval statements of `SqliteStore`, and `ApprovalQueue` over them.
use Prim.Native.String.{◌++◌ as text_append}
use agentbridge.Base.{
  ℕ, String, Bool, true, false, ◌&&◌, ◌||◌, Option, none, some, List, [], ◌∷◌, ◌==◌, string_eq, leb,
  if◌then◌else◌, filter, contains,
}
use agentbridge.Base.Dict.{remove, lookup, insert, has}
use agentbridge.Store.{ApprovalStatus, pending, approved, denied, consumed, ApprovalRow, World}
use agentbridge.Store.Exec.{Exec, ok, pure, gets, modify, ◌>>=◌, ◌>>◌}

abbrev pub is_pending : ApprovalStatus → Bool
is_pending pending = true
is_pending _ = false

abbrev pub is_approved : ApprovalStatus → Bool
is_approved approved = true
is_approved _ = false

-- `INSERT OR IGNORE`: a row whose id is taken stays.
unfoldable pub insert_approval : String → ApprovalRow → Exec (Unit {0})
insert_approval id row = modify (λ db. record db {
  approvals = if has id db.approvals then db.approvals else insert id row db.approvals;
})

unfoldable pub get_approval : String → Exec (Option ApprovalRow)
get_approval id = gets (λ w. lookup id w.approvals)

-- `ORDER BY created_at`: an insertion sort that keeps the order of equal times.
unfoldable pub put_by_time :
    String × ApprovalRow → List (String × ApprovalRow) → List (String × ApprovalRow)
put_by_time a [] = a ∷ []
put_by_time (k, a) ((j, b) ∷ rows) =
    if leb a.created_at b.created_at
    then (k, a) ∷ (j, b) ∷ rows
    else (j, b) ∷ put_by_time (k, a) rows

unfoldable pub by_time : List (String × ApprovalRow) → List (String × ApprovalRow)
unfolding put_by_time
by_time [] = []
by_time (a ∷ rows) = put_by_time a (by_time rows)

unfoldable pub list_approvals : (ApprovalStatus → Bool) → Exec (List (String × ApprovalRow))
list_approvals wanted = gets (λ w. by_time (filter (λ e. wanted (e.1).status) w.approvals))

abbrev pub set_status :
    (ApprovalStatus → Bool) → String → ApprovalStatus → Option ApprovalRow → Exec Bool
set_status from id to none = pure false
set_status from id to (some row) =
    if from row.status
    then (modify
          (λ db. record db { approvals = insert id (record row { status = to }) db.approvals })
        >> pure true)
    else pure false

unfoldable pub update_approval_status : String → ApprovalStatus → Exec Bool
update_approval_status id status = do
  row ← gets (λ w. lookup id w.approvals)
  set_status is_pending id status row

unfoldable pub consume_approval : String → Exec Bool
consume_approval id = do
  row ← gets (λ w. lookup id w.approvals)
  set_status is_approved id consumed row

unfoldable pub delete_approval : String → Exec Bool
delete_approval id = do
  known ← gets (λ w. has id w.approvals)
  modify (λ db. record db { approvals = remove id db.approvals })
  pure known

-- `capability if request_scope is None else capability + "|" + request_scope`
unfoldable pub scoped_capability : String → Option String → String
scoped_capability capability none = capability
scoped_capability capability (some scope) = text_append (text_append capability "|") scope

unfoldable pub mark_sensitive : String → Exec (Unit {0})
mark_sensitive capability w = (
  ok tt,
  record w {
    sensitive = if contains capability w.sensitive then w.sensitive else capability ∷ w.sensitive;
  },
)

unfoldable pub requires_approval : String → World → Bool
requires_approval capability w = contains capability w.sensitive

-- `id` is the fresh `uuid4().hex` and `at` the clock; the request's id is returned.
unfoldable pub request : String → String → ℕ → Option String → String → ℕ → Exec String
unfolding insert_approval
request agent_id capability cost scope id at = do
  insert_approval id (record {
    agent_id = agent_id;
    capability = scoped_capability capability scope;
    cost = cost;
    status = pending;
    created_at = at;
  })
  pure id

unfoldable pub approve : String → Exec Bool
unfolding update_approval_status
approve id = update_approval_status id approved

unfoldable pub deny : String → Exec Bool
unfolding update_approval_status
deny id = update_approval_status id denied

-- `a["agent_id"] == agent_id and a["capability"] == scoped_capability`
abbrev pub matches : String → String → ApprovalRow → Bool
matches agent_id scoped a = a.agent_id == agent_id && a.capability == scoped

unfoldable pub any_match : String → String → List (String × ApprovalRow) → Bool
any_match agent_id scoped [] = false
any_match agent_id scoped ((_, a) ∷ rows) =
    matches agent_id scoped a || any_match agent_id scoped rows

unfoldable pub is_granted : String → String → Option String → World → Bool
is_granted agent_id capability scope w =
    any_match agent_id (scoped_capability capability scope)
      (by_time (filter (λ e. is_approved (e.1).status) w.approvals))

-- The loop of `consume`: a grant that is lost to another worker is passed over.
unfoldable pub consume_first : String → String → List (String × ApprovalRow) → Exec Bool
consume_first agent_id scoped [] = pure false
consume_first agent_id scoped ((id, a) ∷ rows) =
    let next = consume_first agent_id scoped rows in
    if matches agent_id scoped a
    then (do won ← consume_approval id; if won then pure true else next)
    else next

unfoldable pub consume : String → String → Option String → Exec Bool
unfolding consume_first list_approvals
consume agent_id capability scope = do
  rows ← list_approvals is_approved
  consume_first agent_id (scoped_capability capability scope) rows
