-- ===== src/Wire/Registry.antt =====
-- src/protocols/registry.py: the adapters by name, and the translation between any two of them.
use agentbridge.Base.{String, Bool, not, Option, none, some, List, [], ◌∷◌, ◌==◌, string_eq, ◌&&◌}
use agentbridge.Base.Dict.{Dict, lookup, insert}
use agentbridge.Wire.Json.{
  Json, obj, truthy, Parsed, got, bad, malformed, key_error, refuse_if, ◌>>=◌, ◌>>◌,
}
use agentbridge.Wire.Canonical.{CanonicalCall, has_text}
use agentbridge.Wire.Tools.{
  mcp_to_call, gemini_to_call, openai_to_call, mcp_from_call, gemini_from_call, openai_from_call,
}
use agentbridge.Wire.Messages.{acp_to_call, agntcy_to_call, acp_from_call, agntcy_from_call}
use agentbridge.Wire.Tasks.{a2a_to_call, a2a_from_call}

pub data Adapter : Type 0 where
  mcp a2a acp openai gemini agntcy : Adapter

-- The attribute `name` of each adapter.
abbrev pub name_of : Adapter → String
name_of mcp = "mcp"
name_of a2a = "a2a"
name_of acp = "acp"
name_of openai = "openai"
name_of gemini = "gemini"
name_of agntcy = "agntcy"

-- `ProtocolRegistry._adapters`
abbrev pub Registry : Type 0
Registry = Dict String Adapter

unfoldable pub register : Adapter → Registry → Registry
register a r = insert (name_of a) a r

register_all : List Adapter → Registry → Registry
register_all [] r = r
register_all (a ∷ rest) r = register_all rest (register a r)

-- `_build_default`
unfoldable pub default_registry : Registry
unfolding register register_all
default_registry = register_all (mcp ∷ a2a ∷ acp ∷ openai ∷ gemini ∷ agntcy ∷ []) []

found : Option Adapter → Parsed Adapter
found (some a) = got a
found none = bad key_error

-- `ProtocolRegistry.get`
unfoldable pub get : Registry → String → Parsed Adapter
unfolding found
get r name = found (lookup name r)

-- The identifiers that a translation draws.
pub record Fresh : Type 0 where
  pub call_id : String
  pub context_id : String
  pub message_id : String

module _ (show : Json → String) (loads : String → Option Json) (dumps : Json → String) where
  unfoldable pub to_call : Adapter → Json → String → Parsed CanonicalCall
  to_call mcp wire fresh = mcp_to_call show wire fresh
  to_call a2a wire fresh = a2a_to_call show wire fresh
  to_call acp wire fresh = acp_to_call loads wire fresh
  to_call openai wire fresh = openai_to_call show loads wire fresh
  to_call gemini wire fresh = gemini_to_call show wire fresh
  to_call agntcy wire fresh = agntcy_to_call loads wire fresh

  unfoldable pub from_call : Adapter → Fresh → CanonicalCall → Json
  from_call mcp ids c = mcp_from_call c
  from_call a2a ids c = a2a_from_call ids.context_id ids.message_id c
  from_call acp ids c = acp_from_call dumps c
  from_call openai ids c = openai_from_call dumps c
  from_call gemini ids c = gemini_from_call c
  from_call agntcy ids c = agntcy_from_call dumps c

  -- A call that says nothing.
  abbrev pub is_empty : CanonicalCall → Bool
  is_empty c = c.capability == "" && not (has_text c.text) && not (truthy (obj c.arguments))

  -- `ProtocolRegistry.translate_call`
  unfoldable pub translate_call : Registry → Fresh → Json → String → String → Parsed Json
  translate_call r ids wire src dst = do
    reader ← get r src
    canonical ← to_call reader wire ids.call_id
    refuse_if (is_empty canonical) malformed
    writer ← get r dst
    got (from_call writer ids canonical)
