-- ===== src/Checks/Wires.antt =====
-- Requests of the protocols at concrete inputs.
use agentbridge.Base.{
  String, true, List, Option, none, some, ◌≡◌, refl, ◌==◌, string_eq, if◌then◌else◌, not,
}
use agentbridge.Wire.Json.{
  Json, null, str, arr, obj, nil, item, Fields, end, field, find, or_default, got,
}
use agentbridge.Wire.Canonical.{CanonicalCall, canonical_call}
use agentbridge.Wire.Messages.{wrapped}
use agentbridge.Wire.Tools.{mcp_to_call}
use agentbridge.Wire.Tasks.{a2a_to_call, a2a_inbox, a2a_messages, a2a_parts, a2a_part, a2a_enclosed}
use agentbridge.Wire.Registry.{Fresh, mcp, acp, to_call, translate_call, default_registry}
use agentbridge.Wire.Roundtrip.{Restates, translate_call-Restates}
use agentbridge.Wire.Actions.{bit, tool_actions, IsNew, a2a_to_call-one_action}

abbrev show : Json → String
show _ = "?"

abbrev payment : CanonicalCall
payment = record {
  capability = "pay";
  arguments = field "amount" (str "5") end;
  text = none;
  call_id = "7";
  source_protocol = some "mcp";
  metadata = end;
}

abbrev dumps : Json → String
dumps (obj (field k _ _)) = if k == "name" then "call" else "arguments"
dumps _ = "?"

abbrev loads : String → Option Json
loads s =
    if s == "call"
    then some (wrapped payment)
    else if s == "arguments"
    then some (obj payment.arguments)
    else none

abbrev wire : Json
wire = obj (
    field "method" (str "tools/call") (
      field "id" (str "7") (
        field "params"
          (obj
            (field "name" (str "pay") (field "arguments" (obj (field "amount" (str "5") end)) end)))
          end)))

abbrev ids : Fresh
ids = record { call_id = "f1"; context_id = "f2"; message_id = "f3" }

translate_call-Restates_example :
    (out : Json) × (translate_call show loads dumps default_registry ids wire "mcp" "acp" ≡ got out)
    × ((fresh : String) → Restates payment (to_call show loads dumps acp out fresh))
unfolding to_call mcp_to_call find canonical_call
translate_call-Restates_example =
    translate_call-Restates show loads dumps payment refl refl refl mcp acp ids wire refl

abbrev part : Json
part = obj (
    field "kind" (str "data")
      (field "data" (obj (field "name" (str "pay") (field "arguments" (obj end) end))) end))

abbrev task : Fields
task =
    field "status" (obj (field "state" (str "submitted") end))
      (field "history" (arr (item (obj (field "parts" (arr (item part nil)) end)) nil)) end)

abbrev asked : CanonicalCall
asked = record {
  capability = "pay";
  arguments = end;
  text = none;
  call_id = "f";
  source_protocol = some "a2a";
  metadata = end;
}

a2a_to_call-one_action_example :
    (true ≡ true)
    × (t : Fields) × (a2a_enclosed (obj task) (or_default (find "params" task) null) ≡ obj t)
    × IsNew (find "status" t)
    × (inbox : List Json) × (a2a_inbox t ≡ got inbox)
    × (tool_actions inbox ≡ bit (not (asked.capability == "")))
unfolding find canonical_call a2a_to_call a2a_inbox a2a_messages a2a_parts a2a_part
a2a_to_call-one_action_example = a2a_to_call-one_action show task "f" asked refl
