-- ===== src/Wire/Roundtrip.antt =====
-- What a translation between two protocols of src/protocols keeps.
use agentbridge.Base.{
  String, false, Option, none, some, ◌≡◌, Bool-cases, refl, ◌⊎◌, inl, inr, ◌==◌, string_eq,
}
use agentbridge.Base.Dict.{lookup, insert}
use agentbridge.Wire.Json.{
  Json, null, str, obj, items, Fields, end, field, find, py_or, Parsed, got,
}
use Prim.Native.String.{◌++◌}
use agentbridge.Wire.Canonical.{CanonicalCall, text_or, canonical_call}
use agentbridge.Wire.Tools.{
  mcp_to_call, gemini_to_call, openai_to_call, mcp_from_call, gemini_from_call, openai_from_call,
}
use agentbridge.Wire.Messages.{
  Gathered, text_parts, wrapped, acp_parts, acp_messages, acp_to_call, acp_from_call,
  agntcy_messages, agntcy_to_call, agntcy_from_call,
}
use agentbridge.Wire.Tasks.{
  a2a_inbox, a2a_data, a2a_part, a2a_parts, a2a_messages, a2a_to_call, a2a_from_call,
}
use agentbridge.Wire.Registry.{
  Adapter, mcp, a2a, acp, openai, gemini, agntcy, Fresh, to_call, from_call, name_of, get,
  default_registry, translate_call,
}

-- The two calls ask for the same capability with the same arguments.
pub Restates : CanonicalCall → Parsed CanonicalCall → Type 0
Restates c m =
    (d : CanonicalCall) × (m ≡ got d) × (d.capability ≡ c.capability) × (d.arguments ≡ c.arguments)

arguments_kept : (fs : Fields) → py_or (obj fs) (obj end) ≡ obj fs
arguments_kept end = refl
arguments_kept (field k v fs) = refl

-- What the tool part of the message leaves.
tool_of : CanonicalCall → Gathered
tool_of c = record { capability = str c.capability; arguments = obj c.arguments; text = null }

text_parts-kept :
    (loads : String → Option Json) (dumps : Json → String) (text : Option String) (g : Gathered)
    → g.text ≡ null
    → (acp_parts loads (items (text_parts dumps text)) g ≡ got g)
      ⊎ ((t : String) × (acp_parts loads (items (text_parts dumps text)) g
            ≡ got (record g { text = str t })))
unfolding acp_parts find
text_parts-kept loads dumps none g h = inl refl
text_parts-kept loads dumps (some t) g h = elim (Bool-cases (t == "")) [
  | inl e ↦ inl (rw e refl)
  | inr e ↦ rw (e, h) (inr (t, refl))
]

a2a_data-named :
    (name : String) (arguments : Fields) (text : Json)
    → (name == "") ≡ false
    → a2a_data
        (field "name" (str name) (field "arguments" (obj arguments) end))
        (record { capability = str ""; arguments = obj end; text = text })
      ≡ got (record { capability = str name; arguments = obj arguments; text = text })
unfolding find
a2a_data-named name arguments text h = rw (h, h) refl

module _ (show : Json → String) (loads : String → Option Json) (dumps : Json → String)
    (c : CanonicalCall) (named : (c.capability == "") ≡ false)
    (restored : loads (dumps (obj c.arguments)) ≡ some (obj c.arguments))
    (unwrapped : loads (dumps (wrapped c)) ≡ some (wrapped c)) where
  mcp-Restates : (fresh : String) → Restates c (mcp_to_call show (mcp_from_call c) fresh)
  unfolding Restates mcp_to_call mcp_from_call find canonical_call
  mcp-Restates fresh = rw named (_, refl, refl, refl)

  gemini-Restates : (fresh : String) → Restates c (gemini_to_call show (gemini_from_call c) fresh)
  unfolding Restates gemini_to_call gemini_from_call find canonical_call
  gemini-Restates fresh = rw (arguments_kept c.arguments) (_, refl, refl, refl)

  openai-Restates :
      (fresh : String) → Restates c (openai_to_call show loads (openai_from_call dumps c) fresh)
  unfolding Restates openai_to_call openai_from_call find canonical_call
  openai-Restates fresh = rw restored (_, refl, refl, refl)

  acp-Restates : (fresh : String) → Restates c (acp_to_call loads (acp_from_call dumps c) fresh)
  unfolding Restates acp_to_call acp_from_call acp_messages acp_parts find canonical_call tool_of
  acp-Restates fresh = elim (text_parts-kept loads dumps c.text (tool_of c) refl) [
    | inl e ↦ rw (unwrapped, e) (_, refl, refl, refl)
    | inr (t, e) ↦ rw (unwrapped, e) (_, refl, refl, refl)
  ]

  agntcy-Restates :
      (fresh : String) → Restates c (agntcy_to_call loads (agntcy_from_call dumps c) fresh)
  unfolding Restates agntcy_to_call agntcy_from_call agntcy_messages find canonical_call
  agntcy-Restates fresh = rw unwrapped (_, refl, refl, refl)

  a2a-Restates :
      (fresh context_id message_id : String)
      → Restates c (a2a_to_call show (a2a_from_call context_id message_id c) fresh)
  unfolding Restates a2a_to_call a2a_from_call a2a_inbox a2a_messages a2a_parts a2a_part find
      canonical_call
  a2a-Restates fresh context_id message_id =
      rw
        (
          named,
          a2a_data-named c.capability c.arguments (str (text_or c.text ("call: " ++ c.capability)))
              named,
        )
        (_, refl, refl, refl)

  -- A call that names a capability, written for any protocol, is read back as that capability with the
  -- same arguments, where `json.loads` restores what `json.dumps` wrote of it.
  pub from_call-Restates :
      (a : Adapter) (ids : Fresh) (fresh : String)
      → Restates c (to_call show loads dumps a (from_call show loads dumps a ids c) fresh)
  unfolding to_call from_call
  from_call-Restates mcp ids fresh = mcp-Restates fresh
  from_call-Restates a2a ids fresh = a2a-Restates fresh ids.context_id ids.message_id
  from_call-Restates acp ids fresh = acp-Restates fresh
  from_call-Restates openai ids fresh = openai-Restates fresh
  from_call-Restates gemini ids fresh = gemini-Restates fresh
  from_call-Restates agntcy ids fresh = agntcy-Restates fresh

  get-default : (a : Adapter) → get default_registry (name_of a) ≡ got a
  unfolding get default_registry lookup insert
  get-default mcp = refl
  get-default a2a = refl
  get-default acp = refl
  get-default openai = refl
  get-default gemini = refl
  get-default agntcy = refl

  -- In the default registry, a request of any of the six protocols that is read as a call with a
  -- capability is translated to any other, and the translation is read as the same capability with the
  -- same arguments, where `json.loads` restores what `json.dumps` wrote of the call.
  pub translate_call-Restates :
      (src dst : Adapter) (ids : Fresh) (wire : Json)
      → to_call show loads dumps src wire ids.call_id ≡ got c
      → (out : Json) × (translate_call show loads dumps default_registry ids wire
            (name_of src)
            (name_of dst)
          ≡ got out)
        × ((fresh : String) → Restates c (to_call show loads dumps dst out fresh))
  unfolding translate_call
  translate_call-Restates src dst ids wire parsed = (
    from_call show loads dumps dst ids c,
    rw (get-default src, parsed, named, get-default dst) refl,
    from_call-Restates dst ids,
  )
