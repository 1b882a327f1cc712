-- ===== src/Wire/Tools.antt =====
-- The adapters that carry a tool call: src/protocols/mcp.py, openai_fc.py and gemini.py. `show` is
-- Python's `str` of a value that is no text, `loads` is `json.loads`, `none` where it raises, and
-- `dumps` is `json.dumps`; `fresh` is the fresh call id.
use agentbridge.Base.{String, Bool, not, Option, none, some, string_eq, if◌then◌else◌, ◌&&◌}
use agentbridge.Wire.Json.{
  Json, null, str, obj, end, field, find, or_default, is_there, truthy, py_or, is_null, is_text,
  Parsed, value_error, refuse_if, require_mapping, get_of, ◌>>=◌, ◌>>◌,
}
use agentbridge.Wire.Canonical.{CanonicalCall, canonical_call}

module _ (show : Json → String) where
  -- `str(value)`
  abbrev pub as_text : Json → String
  as_text (str s) = s
  as_text j = show j

  abbrev pub id_or : Bool → Json → String → String
  id_or given j fresh = if given then as_text j else fresh

  abbrev pub none_to_empty : Json → Json
  none_to_empty j = if is_null j then obj end else j

  -- `McpAdapter.to_canonical_call`
  unfoldable pub mcp_to_call : Json → String → Parsed CanonicalCall
  mcp_to_call wire fresh = do
    w ← require_mapping wire
    refuse_if
        (is_there (find "method" w)
          && not (is_text "tools/call" (or_default (find "method" w) null)))
        value_error
    params ← require_mapping (or_default (find "params" w) (obj end))
    let arguments =
        or_default (find "arguments" params) (or_default (find "input" params) (obj end))
    let name =
        py_or (or_default (find "name" params) null)
          (py_or (or_default (find "tool" params) null) (str ""))
    let id = or_default (find "id" w) null
    canonical_call name (none_to_empty arguments) null (id_or (not (is_null id)) id fresh) "mcp"

  -- `GeminiFunctionAdapter.to_canonical_call`
  unfoldable pub gemini_to_call : Json → String → Parsed CanonicalCall
  gemini_to_call wire fresh = do
    w ← require_mapping wire
    let id = or_default (find "id" w) null
    canonical_call (or_default (find "name" w) (str ""))
        (py_or (or_default (find "args" w) (obj end)) (obj end)) null (id_or (truthy id) id fresh)
        "gemini"

  module _ (loads : String → Option Json) where
    -- `json.loads(raw) if isinstance(raw, str) else (raw or {})`, `{}` where it raises
    abbrev pub loaded_or_empty : Option Json → Json
    loaded_or_empty none = obj end
    loaded_or_empty (some j) = j

    abbrev pub openai_arguments : Json → Json
    openai_arguments (str raw) = loaded_or_empty (loads raw)
    openai_arguments raw = py_or raw (obj end)

    -- `OpenAIFunctionAdapter.to_canonical_call`
    unfoldable pub openai_to_call : Json → String → Parsed CanonicalCall
    openai_to_call wire fresh = do
      w ← require_mapping wire
      fn ← get_of (py_or (or_default (find "function" w) (obj end)) (obj end))
      let id = or_default (find "id" w) null
      canonical_call (or_default (find "name" fn) (str ""))
          (openai_arguments (or_default (find "arguments" fn) (str "{}"))) null
          (id_or (truthy id) id fresh) "openai"

-- `McpAdapter.from_canonical_call`
unfoldable pub mcp_from_call : CanonicalCall → Json
mcp_from_call c = obj (
    field "jsonrpc" (str "2.0") (
      field "id" (str c.call_id) (
        field "method" (str "tools/call") (
          field "params"
            (obj (field "name" (str c.capability) (field "arguments" (obj c.arguments) end)))
            end))))

-- `GeminiFunctionAdapter.from_canonical_call`
unfoldable pub gemini_from_call : CanonicalCall → Json
gemini_from_call c = obj (field "name" (str c.capability) (field "args" (obj c.arguments) end))

-- `OpenAIFunctionAdapter.from_canonical_call`
unfoldable pub openai_from_call : (Json → String) → CanonicalCall → Json
openai_from_call dumps c = obj (
    field "id" (str c.call_id) (
      field "type" (str "function") (
        field "function"
          (obj (
            field "name" (str c.capability)
              (field "arguments" (str (dumps (obj c.arguments))) end)))
          end)))
