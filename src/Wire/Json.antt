-- ===== src/Wire/Json.antt =====
-- JSON values as Python holds them, and what the adapters of src/protocols do with them.
use agentbridge.Base.{
  String, Bool, true, false, not, Option, none, some, List, [], ◌∷◌, ◌==◌, string_eq, if◌then◌else◌,
}

-- A number is known by whether it is nonzero and by its text.
mutual
  pub data Json : Type 0 where
    null : Json
    bool : Bool → Json
    number : Bool → String → Json
    str : String → Json
    arr : Items → Json
    obj : Fields → Json

  pub data Items : Type 0 where
    nil : Items
    item : Json → Items → Items

  pub data Fields : Type 0 where
    end : Fields
    field : String → Json → Fields → Fields

abbrev pub items : Items → List Json
items nil = []
items (item j js) = j ∷ items js

-- `d.get(k)`, with `none` for a key that is missing
unfoldable pub find : String → Fields → Option Json
find k end = none
find k (field j v fs) = if j == k then some v else find k fs

-- `d.get(k, default)`
abbrev pub or_default : Option Json → Json → Json
or_default none d = d
or_default (some v) d = v

-- `k in d`
abbrev pub is_there : Option Json → Bool
is_there none = false
is_there (some _) = true

-- Python's truth of a value.
abbrev pub truthy : Json → Bool
truthy null = false
truthy (bool b) = b
truthy (number nonzero _) = nonzero
truthy (str s) = not (s == "")
truthy (arr nil) = false
truthy (arr _) = true
truthy (obj end) = false
truthy (obj _) = true

-- `a or b`
abbrev pub py_or : Json → Json → Json
py_or a b = if truthy a then a else b

-- `value is not None`
abbrev pub is_null : Json → Bool
is_null null = true
is_null _ = false

abbrev pub is_text : String → Json → Bool
is_text s (str t) = t == s
is_text s _ = false

-- What a call of an adapter raises. `attribute_error` and `type_error` are what Python raises where a
-- value has not the shape that the code takes for granted.
pub data WireError : Type 0 where
  malformed value_error attribute_error type_error key_error : WireError

pub data Parsed {ℓ} (A : Type ℓ) : Type ℓ where
  got : A → Parsed A
  bad : WireError → Parsed A

infixl 5 ◌>>=◌ ◌>>◌
abbrev pub ◌>>=◌ {ℓ κ} : {A : Type ℓ} {B : Type κ} → Parsed A → (A → Parsed B) → Parsed B
got a >>= f = f a
bad e >>= f = bad e

abbrev pub ◌>>◌ {ℓ} : {B : Type ℓ} → Parsed (Unit {0}) → Parsed B → Parsed B
m >> k = m >>= λ _. k

abbrev pub refuse_if : Bool → WireError → Parsed (Unit {0})
refuse_if true e = bad e
refuse_if false e = got tt

-- `require_mapping` of base.py
abbrev pub require_mapping : Json → Parsed Fields
require_mapping (obj fs) = got fs
require_mapping _ = bad malformed

-- `value.get`
abbrev pub get_of : Json → Parsed Fields
get_of (obj fs) = got fs
get_of _ = bad attribute_error
