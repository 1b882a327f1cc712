-- ===== src/Authority/Text.antt =====
-- The tests of src/governance/authority.py on texts.
use Prim.Native.Char.{code}
use Prim.Native.String.{String, count, compare}
use Prim.Native.Nat.{Ordering}
use agentbridge.Base.{
  ℕ, Bool, true, false, not, ◌&&◌, ◌||◌, List, [], ◌∷◌, length, leb, ltb, ◌==◌, nat_eq,
}
use agentbridge.Authority.Outcome.{Outcome, done, invalid_if, ◌>>◌}

abbrev pub codes : String → List ℕ
codes String.[] = []
codes (String.◌∷◌ c s) = code c ∷ codes s

module _ (test : ℕ → Bool) where
  abbrev pub all_codes : List ℕ → Bool
  all_codes [] = true
  all_codes (c ∷ cs) = test c && all_codes cs

  abbrev pub first_code : List ℕ → Bool
  first_code [] = false
  first_code (c ∷ cs) = test c

  abbrev pub last_code : List ℕ → Bool
  last_code [] = false
  last_code (c ∷ []) = test c
  last_code (c ∷ d ∷ cs) = last_code (d ∷ cs)

abbrev pub between : ℕ → ℕ → ℕ → Bool
between a b c = leb a c && leb c b

abbrev pub is_alnum : ℕ → Bool
is_alnum c = between 48 57 c || between 65 90 c || between 97 122 c

-- `[A-Za-z0-9_.:-]`
abbrev pub is_name_char : ℕ → Bool
is_name_char c = is_alnum c || c == 95 || c == 46 || c == 58 || c == 45

-- `_identifier`
unfoldable pub is_identifier : String → Bool
is_identifier s =
    first_code is_alnum (codes s) && all_codes is_name_char (codes s) && leb (count s) 128

-- The code points that `str.strip` removes.
abbrev pub is_space : ℕ → Bool
is_space c =
    between 9 13 c
    || between 28 32 c
    || c == 133
    || c == 160
    || c == 5760
    || between 8192 8202 c
    || between 8232 8233 c
    || c == 8239
    || c == 8287
    || c == 12288

abbrev pub is_trimmed : String → Bool
is_trimmed s = not (first_code is_space (codes s)) && not (last_code is_space (codes s))

abbrev pub is_plain : String → Bool
is_plain s = all_codes (leb 32) (codes s)

abbrev pub is_sized : ℕ → String → Bool
is_sized most s = between 1 most (count s)

-- `_subject`
unfoldable pub is_subject : String → Bool
is_subject s = is_sized 256 s && is_trimmed s && is_plain s

abbrev pub is_scope : String → Bool
is_scope s =
    is_sized 128 s && is_trimmed s && all_codes (λ c. not (c == 42)) (codes s) && is_plain s

abbrev pub all_scopes : List String → Bool
all_scopes [] = true
all_scopes (s ∷ ss) = is_scope s && all_scopes ss

-- `sorted(set(values))`
abbrev pub put_scope : String → List String → List String
put_scope s [] = s ∷ []
put_scope s (t ∷ ts) =
    let rest = put_scope s ts in
    elim (compare s t) [ Ordering.lt ↦ s ∷ t ∷ ts | Ordering.eq ↦ t ∷ ts | Ordering.gt ↦ t ∷ rest ]

abbrev pub sorted_set : List String → List String
sorted_set [] = []
sorted_set (s ∷ ss) = put_scope s (sorted_set ss)

-- `_scopes`
unfoldable pub scopes : List String → Outcome (List String)
scopes values = do
  invalid_if (ltb 128 (length values))
  invalid_if (not (all_scopes values))
  done (sorted_set values)

abbrev pub is_hex_digit : ℕ → Bool
is_hex_digit c = between 48 57 c || between 65 70 c || between 97 102 c

-- `[a-fA-F0-9]{n}`
unfoldable pub is_hex : ℕ → String → Bool
is_hex n s = all_codes is_hex_digit (codes s) && count s == n
