-- ===== src/Wire/Actions.antt =====
-- What the A2A adapter of src/protocols/a2a.py takes for a new action.
use agentbridge.Base.{
  ℕ, ◌+◌, String, Option, none, some, Bool, true, false, List, [], ◌∷◌, ◌≡◌, inl, inr, refl, ◌==◌,
  string_eq, if◌then◌else◌, arith, Bool-cases, ◌||◌, ◌&&◌, not,
}
use agentbridge.Wire.Json.{
  Json, null, bool, number, str, arr, obj, nil, items, Fields, end, find, or_default, is_null,
  is_text, truthy, py_or, value_error, refuse_if, got, ◌>>=◌, require_mapping,
}
use agentbridge.Wire.Canonical.{
  CanonicalCall, canonical_call, require_text, require_object, require_prose,
}
use agentbridge.Wire.Messages.{Gathered, gathered_from}
use agentbridge.Wire.Tasks.{
  tool_name, a2a_data, a2a_part, a2a_parts, a2a_messages, a2a_inbox, a2a_to_call, a2a_enclosed,
  require_task, require_list, check_status,
}
use agentbridge.Wire.Shapes.{got-bind, mapping-obj, text-str, not_refused, method_known, task-obj}

abbrev pub bit : Bool → ℕ
bit true = 1
bit false = 0

-- How many data parts name a tool.
named_data : Json → ℕ
named_data (obj data_part) = bit (truthy (tool_name data_part))
named_data _ = 0

part_actions : Json → ℕ
part_actions (obj part) =
    if is_text "data" (or_default (find "kind" part) null)
    then named_data (or_default (find "data" part) (obj end))
    else 0
part_actions _ = 0

parts_actions : List Json → ℕ
parts_actions [] = 0
parts_actions (j ∷ js) = part_actions j + parts_actions js

message_parts : Json → List Json
message_parts (arr js) = items js
message_parts _ = []

message_actions : Json → ℕ
message_actions (obj msg) = parts_actions (message_parts (or_default (find "parts" msg) (arr nil)))
message_actions _ = 0

unfoldable pub tool_actions : List Json → ℕ
unfolding message_actions part_actions named_data parts_actions message_parts
tool_actions [] = 0
tool_actions (j ∷ js) = message_actions j + tool_actions js

truthy-py_or :
    (a b : Json)
    → (truthy a && truthy b) ≡ false
    → bit (truthy (py_or a b)) ≡ bit (truthy a) + bit (truthy b)
truthy-py_or a b h = elim (Bool-cases (truthy a)) [
  | inl e ↦ rw (e, e) (ground (arith, e, h))
  | inr e ↦ rw e (ground arith)
]

a2a_data-actions :
    (fs : Fields) (g h : Gathered)
    → a2a_data fs g ≡ got h
    → bit (truthy (tool_name fs)) + bit (truthy g.capability) ≡ bit (truthy h.capability)
a2a_data-actions fs g h e = elim (Bool-cases (truthy (tool_name fs) && truthy g.capability)) [
  | inl both ↦ absurd (ground (arith, both, e))
  | inr one ↦ ground (arith, one, e, truthy-py_or (tool_name fs) g.capability one)
]

a2a_part-actions :
    (part : Fields) (g h : Gathered)
    → a2a_part part g ≡ got h
    → part_actions (obj part) + bit (truthy g.capability) ≡ bit (truthy h.capability)
unfolding a2a_part part_actions named_data find
a2a_part-actions part g h e =
    elim (Bool-cases (is_text "data" (or_default (find "kind" part) null))) [
      | inl d ↦ rw d (
          let (data_part, e₁, e₂) =
            got-bind (require_mapping (or_default (find "data" part) (obj end)))
              (λ fs. a2a_data fs g) h (ground (arith, d, e)) in
          rw (mapping-obj _ data_part e₁) (a2a_data-actions data_part g h e₂))
      | inr d ↦ ground (arith, d, e)
    ]

a2a_parts-actions :
    (js : List Json) (g h : Gathered)
    → a2a_parts js g ≡ got h
    → parts_actions js + bit (truthy g.capability) ≡ bit (truthy h.capability)
unfolding a2a_parts parts_actions
a2a_parts-actions [] g h e = ground (arith, e)
a2a_parts-actions (j ∷ js) g h e =
    let (part, e₁, e₂) =
      got-bind (require_mapping j) (λ part. a2a_part part g >>= a2a_parts js) h e in
    let (g₁, e₃, e₄) = got-bind (a2a_part part g) (a2a_parts js) h e₂ in
    rw (mapping-obj j part e₁)
      (ground (arith, a2a_part-actions part g g₁ e₃, a2a_parts-actions js g₁ h e₄))

list-arr : (j : Json) (js : List Json) → require_list j ≡ got js → message_parts j ≡ js
unfolding message_parts
list-arr null fs h = absurd (ground (arith, h))
list-arr (bool b) fs h = absurd (ground (arith, h))
list-arr (number b s) fs h = absurd (ground (arith, h))
list-arr (str s) fs h = absurd (ground (arith, h))
list-arr (arr js) fs h = ground (arith, h)
list-arr (obj gs) fs h = absurd (ground (arith, h))

a2a_messages-actions :
    (js : List Json) (g h : Gathered)
    → a2a_messages js g ≡ got h
    → tool_actions js + bit (truthy g.capability) ≡ bit (truthy h.capability)
unfolding a2a_messages tool_actions message_actions
a2a_messages-actions [] g h e = ground (arith, e)
a2a_messages-actions (j ∷ js) g h e =
    let parts_of = λ (msg : Fields). or_default (find "parts" msg) (arr nil) in
    let (msg, e₁, e₂) =
      got-bind (require_mapping j)
        (λ msg. require_list (parts_of msg) >>= λ parts. a2a_parts parts g >>= a2a_messages js) h
        e in
    let (parts, e₃, e₄) =
      got-bind (require_list (parts_of msg)) (λ parts. a2a_parts parts g >>= a2a_messages js) h
        e₂ in
    let (g₁, e₅, e₆) = got-bind (a2a_parts parts g) (a2a_messages js) h e₄ in
    rw (mapping-obj j msg e₁, list-arr (parts_of msg) parts e₃)
      (ground (arith, a2a_parts-actions parts g g₁ e₅, a2a_messages-actions js g₁ h e₆))

canonical-capability :
    (a b t : Json) (id source : String) (c : CanonicalCall)
    → canonical_call a b t id source ≡ got c
    → a ≡ str c.capability
unfolding canonical_call
canonical-capability a b t id source c h =
    let (name, e₁, e₂) = got-bind (require_text a) _ c h in
    let (args, e₃, e₄) = got-bind (require_object b) _ c e₂ in
    let (prose, e₅, e₆) = got-bind (require_prose t) _ c e₄ in
    ground (arith, text-str a name e₁, e₆)

-- A task has no status, or one that says at most that it is submitted.
pub IsNew : Option Json → Type 0
IsNew none = Unit
IsNew (some (obj status)) =
    (is_null (or_default (find "state" status) null)
      || is_text "submitted" (or_default (find "state" status) null))
    ≡ true
IsNew (some _) = ⊥

check_status-IsNew : (status : Option Json) → check_status status ≡ got tt → IsNew status
unfolding IsNew
check_status-IsNew none h = tt
check_status-IsNew (some null) h = absurd (ground (arith, h))
check_status-IsNew (some (bool b)) h = absurd (ground (arith, h))
check_status-IsNew (some (number b s)) h = absurd (ground (arith, h))
check_status-IsNew (some (str s)) h = absurd (ground (arith, h))
check_status-IsNew (some (arr js)) h = absurd (ground (arith, h))
check_status-IsNew (some (obj fs)) h = not_refused _ value_error tt h

truthy-named : (j : Json) (name : String) → j ≡ str name → bit (truthy j) ≡ bit (not (name == ""))
truthy-named j name h = rw h refl

-- A request that the A2A adapter reads as a call asks for no other method than `tasks/send`, carries a
-- task whose status, if it has one, says at most that it is submitted, and its messages name exactly one
-- tool if the call has a capability and none otherwise.
pub a2a_to_call-one_action :
    (show : Json → String) (w : Fields) (fresh : String) (c : CanonicalCall)
    → a2a_to_call show (obj w) fresh ≡ got c
    → ((is_null (or_default (find "method" w) null)
          || is_text "tasks/send" (or_default (find "method" w) null))
        ≡ true)
      × (task : Fields) × (a2a_enclosed (obj w) (or_default (find "params" w) null) ≡ obj task)
      × IsNew (find "status" task)
      × (inbox : List Json) × (a2a_inbox task ≡ got inbox)
      × (tool_actions inbox ≡ bit (not (c.capability == "")))
unfolding a2a_to_call
a2a_to_call-one_action show w fresh c h =
    let method = or_default (find "method" w) null in
    let (u, e₁, e₂) =
      got-bind (refuse_if (not (is_null method) && not (is_text "tasks/send" method)) value_error) _
        c h in
    let (task, e₃, e₄) =
      got-bind (require_task (a2a_enclosed (obj w) (or_default (find "params" w) null))) _ c e₂ in
    let (v, e₅, e₆) = got-bind (check_status (find "status" task)) _ c e₄ in
    let (inbox, e₇, e₈) = got-bind (a2a_inbox task) _ c e₆ in
    let (g, e₉, e₁₀) = got-bind (a2a_messages inbox (gathered_from (str ""))) _ c e₈ in
    (
      method_known (is_null method) (is_text "tasks/send" method) value_error u e₁,
      task,
      task-obj (a2a_enclosed (obj w) (or_default (find "params" w) null)) task e₃,
      check_status-IsNew (find "status" task) e₅,
      inbox,
      e₇,
      ground (
        arith,
        a2a_messages-actions inbox (gathered_from (str "")) g e₉,
        truthy-named g.capability c.capability (canonical-capability _ _ _ _ _ c e₁₀),
      ),
    )
