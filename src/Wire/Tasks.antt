-- ===== src/Wire/Tasks.antt =====
-- The A2A adapter of src/protocols/a2a.py. `show` is Python's `str` of a value that is no text, and
-- the fresh identifiers are arguments.
use agentbridge.Base.{
  String, not, Option, none, some, List, [], ◌∷◌, ◌==◌, string_eq, if◌then◌else◌, ◌&&◌, ◌||◌,
}
use Prim.Native.String.{◌++◌}
use agentbridge.Wire.Json.{
  Json, null, str, arr, obj, nil, item, items, Fields, end, field, find, or_default, truthy, py_or,
  is_null, is_text, Parsed, got, bad, value_error, refuse_if, require_mapping, ◌>>=◌, ◌>>◌,
}
use agentbridge.Wire.Canonical.{CanonicalCall, canonical_call, text_or}
use agentbridge.Wire.Messages.{Gathered, gathered_from}
use agentbridge.Wire.Tools.{id_or}

-- `isinstance(value, list)`
abbrev pub require_list : Json → Parsed (List Json)
require_list (arr js) = got (items js)
require_list _ = bad value_error

-- `A2aAdapter._messages`
unfoldable pub a2a_inbox : Fields → Parsed (List Json)
a2a_inbox task =
    let history = or_default (find "history" task) null in
    require_list (if is_null history then or_default (find "messages" task) (arr nil) else history)

-- The tool that a data part names.
abbrev pub tool_name : Fields → Json
tool_name data_part =
    py_or (or_default (find "name" data_part) null) (or_default (find "tool_name" data_part) null)

abbrev pub a2a_data : Fields → Gathered → Parsed Gathered
a2a_data data_part g = do
  refuse_if (truthy (tool_name data_part) && truthy g.capability) value_error
  got (record g {
    capability = py_or (tool_name data_part) g.capability;
    arguments = or_default (find "arguments" data_part) g.arguments;
  })

unfoldable pub a2a_part : Fields → Gathered → Parsed Gathered
a2a_part part g =
    let kind = or_default (find "kind" part) null in
    if is_text "data" kind
    then (require_mapping (or_default (find "data" part) (obj end)) >>= λ data_part.
        a2a_data data_part g)
    else if is_text "text" kind && is_null g.text
    then got (record g { text = or_default (find "text" part) null })
    else got g

unfoldable pub a2a_parts : List Json → Gathered → Parsed Gathered
a2a_parts [] g = got g
a2a_parts (j ∷ js) g = do part ← require_mapping j; h ← a2a_part part g; a2a_parts js h

unfoldable pub a2a_messages : List Json → Gathered → Parsed Gathered
a2a_messages [] g = got g
a2a_messages (j ∷ js) g = do
  msg ← require_mapping j
  parts ← require_list (or_default (find "parts" msg) (arr nil))
  h ← a2a_parts parts g
  a2a_messages js h

-- The raw task, or the one in the JSON-RPC envelope.
abbrev pub a2a_enclosed : Json → Json → Json
a2a_enclosed wire (obj params) = or_default (find "task" params) wire
a2a_enclosed wire _ = wire

abbrev pub require_task : Json → Parsed Fields
require_task (obj task) = got task
require_task _ = bad value_error

-- A task that says how far it is must be new.
abbrev pub check_status : Option Json → Parsed (Unit {0})
check_status none = got tt
check_status (some (obj status)) =
    let state = or_default (find "state" status) null in
    refuse_if (not (is_null state || is_text "submitted" state)) value_error
check_status (some _) = bad value_error

-- `A2aAdapter.to_canonical_call`
unfoldable pub a2a_to_call : (Json → String) → Json → String → Parsed CanonicalCall
a2a_to_call show wire fresh = do
  w ← require_mapping wire
  let method = or_default (find "method" w) null
  refuse_if (not (is_null method) && not (is_text "tasks/send" method)) value_error
  task ← require_task (a2a_enclosed wire (or_default (find "params" w) null))
  check_status (find "status" task)
  inbox ← a2a_inbox task
  g ← a2a_messages inbox (gathered_from (str ""))
  let id = or_default (find "id" w) null
  canonical_call g.capability g.arguments g.text (id_or show (not (is_null id)) id fresh) "a2a"

abbrev pub source_of : Option String → Json
source_of none = null
source_of (some s) = str s

-- `A2aAdapter.from_canonical_call`
unfoldable pub a2a_from_call : String → String → CanonicalCall → Json
a2a_from_call context_id message_id c =
    let prose = obj (
      field "kind" (str "text")
        (field "text" (str (text_or c.text ("call: " ++ c.capability))) end)) in
    let tool = obj (
      field "kind" (str "data") (
        field "data"
          (obj (field "name" (str c.capability) (field "arguments" (obj c.arguments) end))) end)) in
    let parts = item prose (if c.capability == "" then nil else item tool nil) in
    let message = obj (
      field "kind" (str "message") (
        field "messageId" (str message_id)
          (field "role" (str "agent") (field "parts" (arr parts) end)))) in
    obj (
      field "id" (str c.call_id) (
        field "contextId" (str context_id) (
          field "kind" (str "task") (
            field "status" (obj (field "state" (str "submitted") end)) (
              field "history" (arr (item message nil)) (
                field "metadata" (obj (field "source_protocol" (source_of c.source_protocol) end))
                  end))))))
