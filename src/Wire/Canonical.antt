-- ===== src/Wire/Canonical.antt =====
-- src/protocols/canonical.py: the call that every protocol is translated through.
use agentbridge.Base.{String, Bool, true, false, Option, none, some, ◌==◌, string_eq, if◌then◌else◌}
use agentbridge.Wire.Json.{Json, null, str, obj, Fields, end, Parsed, got, bad, value_error, ◌>>=◌}

pub record CanonicalCall : Type 0 where
  pub capability : String
  pub arguments : Fields
  pub text : Option String
  pub call_id : String
  pub source_protocol : Option String
  pub metadata : Fields

abbrev pub require_text : Json → Parsed String
require_text (str s) = got s
require_text _ = bad value_error

abbrev pub require_object : Json → Parsed Fields
require_object (obj fs) = got fs
require_object _ = bad value_error

abbrev pub require_prose : Json → Parsed (Option String)
require_prose null = got none
require_prose (str t) = got (some t)
require_prose _ = bad value_error

-- The tests of `__post_init__`; `null` is `None`.
unfoldable pub canonical_call : Json → Json → Json → String → String → Parsed CanonicalCall
canonical_call capability arguments text call_id source = do
  name ← require_text capability
  args ← require_object arguments
  prose ← require_prose text
  got (record {
    capability = name;
    arguments = args;
    text = prose;
    call_id = call_id;
    source_protocol = some source;
    metadata = end;
  })

-- `call.text or …`
abbrev pub text_or : Option String → String → String
text_or none d = d
text_or (some t) d = if t == "" then d else t

-- `if call.text`
abbrev pub has_text : Option String → Bool
has_text none = false
has_text (some t) = if t == "" then false else true
