-- ===== src/Wire/Messages.antt =====
-- The adapters that carry messages: src/protocols/acp.py and agntcy_acp.py.
use agentbridge.Base.{
  String, Option, none, some, List, [], ◌∷◌, ◌==◌, string_eq, if◌then◌else◌, ◌&&◌,
}
use text.Mathlib.Text.{starts_with}
use agentbridge.Wire.Json.{
  Json, null, str, arr, obj, Items, nil, item, items, Fields, end, field, find, or_default,
  is_there, truthy, is_null, is_text, Parsed, got, bad, attribute_error, type_error,
  require_mapping, get_of, ◌>>=◌,
}
use agentbridge.Wire.Canonical.{CanonicalCall, canonical_call}

-- What the loops gather.
pub record Gathered : Type 0 where
  pub capability : Json
  pub arguments : Json
  pub text : Json

abbrev pub gathered_from : Json → Gathered
gathered_from capability = record { capability = capability; arguments = obj end; text = null }

-- The members that a `for` runs over; those of an object or of a text are texts.
abbrev pub key_items : Fields → List Json
key_items end = []
key_items (field k v fs) = str k ∷ key_items fs

abbrev pub text_items : String → List Json
text_items s = if s == "" then [] else str s ∷ []

abbrev pub iterate : Json → Parsed (List Json)
iterate (arr js) = got (items js)
iterate (obj fs) = got (key_items fs)
iterate (str s) = got (text_items s)
iterate _ = bad type_error

-- The object that a tool call is wrapped in.
abbrev pub wrapped : CanonicalCall → Json
wrapped c = obj (field "name" (str c.capability) (field "arguments" (obj c.arguments) end))

-- `call.capability or "agent"`
abbrev pub agent_name : String → String
agent_name capability = if capability == "" then "agent" else capability

module _ (loads : String → Option Json) where
  -- `json.loads(value)`; a value that is no text raises.
  abbrev pub loads_of : Json → Option Json
  loads_of (str s) = loads s
  loads_of _ = none

  -- The `try` of acp.py: what is no object raises, and is passed over.
  abbrev pub acp_tool : Option Json → Gathered → Gathered
  acp_tool (some (obj fs)) g = record g {
    capability = or_default (find "name" fs) g.capability;
    arguments = or_default (find "arguments" fs) g.arguments;
  }
  acp_tool _ g = g

  abbrev pub acp_text : Json → Json → Gathered → Parsed Gathered
  acp_text (str ctype) content g =
      if starts_with ctype "text/" && is_null g.text
      then got (record g { text = content })
      else got g
  acp_text _ content g = bad attribute_error

  abbrev pub acp_part : Fields → Gathered → Parsed Gathered
  acp_part part g =
      let ctype = or_default (find "content_type" part) (str "") in
      let content = or_default (find "content" part) (str "") in
      if is_text "application/json" ctype
      then got (acp_tool (loads_of content) g)
      else acp_text ctype content g

  unfoldable pub acp_parts : List Json → Gathered → Parsed Gathered
  acp_parts [] g = got g
  acp_parts (j ∷ js) g = do part ← get_of j; h ← acp_part part g; acp_parts js h

  -- `_iter_parts`: a message that is no object has no parts.
  abbrev pub parts_of : Json → Json
  parts_of (obj msg) = or_default (find "parts" msg) (arr nil)
  parts_of _ = arr nil

  unfoldable pub acp_messages : List Json → Gathered → Parsed Gathered
  unfolding acp_parts
  acp_messages [] g = got g
  acp_messages (j ∷ js) g = do
    parts ← iterate (parts_of j)
    h ← acp_parts parts g
    acp_messages js h

  abbrev pub acp_inbox : Fields → Parsed (List Json)
  acp_inbox w =
      if is_there (find "input" w)
      then iterate (or_default (find "input" w) null)
      else if is_there (find "parts" w)
      then got (obj w ∷ [])
      else got []

  -- `AcpAdapter.to_canonical_call`
  unfoldable pub acp_to_call : Json → String → Parsed CanonicalCall
  unfolding acp_messages
  acp_to_call wire fresh = do
    w ← require_mapping wire
    inbox ← acp_inbox w
    g ← acp_messages inbox (gathered_from (or_default (find "agent_name" w) (str "")))
    canonical_call g.capability g.arguments g.text fresh "acp"

  -- `_text_of`
  abbrev pub text_of : Json → Json
  text_of (obj fs) = or_default (find "text" fs) (str "")
  text_of (str s) = str s
  text_of _ = str ""

  abbrev pub agntcy_text : Json → Gathered → Gathered
  agntcy_text raw g = if truthy raw && is_null g.text then record g { text = raw } else g

  abbrev pub agntcy_tool : Json → Option Json → Gathered → Gathered
  agntcy_tool raw (some (obj fs)) g =
      if is_there (find "name" fs)
      then record g {
        capability = or_default (find "name" fs) g.capability;
        arguments = or_default (find "arguments" fs) g.arguments;
      }
      else agntcy_text raw g
  agntcy_tool raw _ g = agntcy_text raw g

  abbrev pub agntcy_message : Fields → Gathered → Gathered
  agntcy_message msg g =
      let raw = text_of (or_default (find "content" msg) null) in agntcy_tool raw (loads_of raw) g

  unfoldable pub agntcy_messages : List Json → Gathered → Parsed Gathered
  agntcy_messages [] g = got g
  agntcy_messages (j ∷ js) g = do msg ← get_of j; agntcy_messages js (agntcy_message msg g)

  -- `_messages`
  abbrev pub agntcy_outer : Fields → Parsed (List Json)
  agntcy_outer w =
      if is_there (find "messages" w)
      then iterate (or_default (find "messages" w) null)
      else if is_there (find "role" w)
      then got (obj w ∷ [])
      else got []

  abbrev pub agntcy_inbox : Fields → Json → Parsed (List Json)
  agntcy_inbox w (obj inp) =
      if is_there (find "messages" inp)
      then iterate (or_default (find "messages" inp) null)
      else agntcy_outer w
  agntcy_inbox w _ = agntcy_outer w

  -- `AgntcyAcpAdapter.to_canonical_call`
  unfoldable pub agntcy_to_call : Json → String → Parsed CanonicalCall
  unfolding agntcy_messages
  agntcy_to_call wire fresh = do
    w ← require_mapping wire
    inbox ← agntcy_inbox w (or_default (find "input" w) (obj end))
    g ← agntcy_messages inbox (gathered_from (or_default (find "agent_id" w) (str "")))
    canonical_call g.capability g.arguments g.text fresh "agntcy"

module _ (dumps : Json → String) where
  abbrev pub text_parts : Option String → Items
  text_parts none = nil
  text_parts (some t) =
      if t == ""
      then nil
      else item (obj (field "content_type" (str "text/plain") (field "content" (str t) end))) nil

  -- `AcpAdapter.from_canonical_call`
  unfoldable pub acp_from_call : CanonicalCall → Json
  acp_from_call c =
      let tool = obj (
        field "content_type" (str "application/json")
          (field "content" (str (dumps (wrapped c))) end)) in
      let message =
        obj (field "role" (str "user") (field "parts" (arr (item tool (text_parts c.text))) end)) in
      obj (
        field "agent_name" (str (agent_name c.capability))
          (field "input" (arr (item message nil)) end))

  -- `AgntcyAcpAdapter.from_canonical_call`
  unfoldable pub agntcy_from_call : CanonicalCall → Json
  agntcy_from_call c =
      let block = obj (field "type" (str "text") (field "text" (str (dumps (wrapped c))) end)) in
      let message = obj (field "role" (str "user") (field "content" block end)) in
      obj (
        field "agent_id" (str (agent_name c.capability))
          (field "input" (obj (field "messages" (arr (item message nil)) end)) end))
