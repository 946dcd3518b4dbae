-- ===== src/Lifecycle/Canonical.antt =====
-- docs/skill-framework/shared/review_contract_runtime.py: `_canonical_json`, of a value whose keys are
-- sorted, `_canonical_mapping_value`, `_valid_repo_path` and the order of texts, which is that of their
-- code points.
use Prim.Native.Nat.{◌/◌}
use software_builder.Prelude.{
  ℕ, zero, suc, ◌%◌, String, Bool, true, false, not, ◌&&◌, ◌||◌, List, [], ◌∷◌, all, ltb, nat_eq,
  if◌then◌else◌,
}
use software_builder.Prelude.Text.{Char, code, elem, append}
use software_builder.Prelude.Json.{
  Json, Items, Fields, null, boolean, int, negative, float, string, array, object, end, item, empty,
  field, fields, keys,
}

-- `a <= b` of two texts.
unfoldable pub text_leb : String → String → Bool
text_leb String.[] t = true
text_leb (String.◌∷◌ c s) String.[] = false
text_leb (String.◌∷◌ c s) (String.◌∷◌ d t) =
    let rest = text_leb s t in ltb (code c) (code d) || (nat_eq (code c) (code d) && rest)

-- `values == sorted(values)`
unfoldable pub is_sorted : List String → Bool
is_sorted [] = true
is_sorted (s ∷ []) = true
is_sorted (s ∷ t ∷ ts) = text_leb s t && is_sorted (t ∷ ts)

-- `len(values) == len(set(values))`
unfoldable pub all_distinct : List String → Bool
all_distinct [] = true
all_distinct (s ∷ ss) = not (elem s ss) && all_distinct ss

-- The character of the text at the place, as a text.
char_at : ℕ → String → String
char_at n String.[] = ""
char_at zero (String.◌∷◌ c s) = String.◌∷◌ c String.[]
char_at (suc n) (String.◌∷◌ c s) = char_at n s

-- The number in decimal digits, of which the first number is a bound.
decimal : ℕ → ℕ → String
unfolding char_at
decimal zero n = ""
decimal (suc fuel) n =
    let before = decimal fuel (n / 10) in
    let last = char_at (n % 10) "0123456789" in if ltb n 10 then last else append before last

-- The escapes of `json.dumps` with `ensure_ascii=False`.
escape : ℕ → String → String
unfolding char_at
escape n plain =
    if nat_eq n 34
    then "\\\""
    else if nat_eq n 92
    then "\\\\"
    else if nat_eq n 8
    then "\\b"
    else if nat_eq n 9
    then "\\t"
    else if nat_eq n 10
    then "\\n"
    else if nat_eq n 12
    then "\\f"
    else if nat_eq n 13
    then "\\r"
    else if ltb n 32
    then append "\\u00"
        (append (char_at (n / 16) "0123456789abcdef") (char_at (n % 16) "0123456789abcdef"))
    else plain

quoted : String → String
unfolding escape
quoted String.[] = "\""
quoted (String.◌∷◌ c s) = append (escape (code c) (String.◌∷◌ c String.[])) (quoted s)

entry_text : String → String → String
unfolding quoted
entry_text k value = append (append "\"" (quoted k)) (append ":" value)

-- `json.dumps(value, separators=(",", ":"), ensure_ascii=False)`
unfoldable mutual
  unfolding decimal quoted entry_text

  pub canonical_text : Json → String
  canonical_text null = "null"
  canonical_text (boolean true) = "true"
  canonical_text (boolean false) = "false"
  canonical_text (int n) = decimal (suc n) n
  canonical_text (negative n) = append "-" (decimal (suc (suc n)) (suc n))
  canonical_text (float r) = r
  canonical_text (string s) = append "\"" (quoted s)
  canonical_text (array js) = append "[" (canonical_texts js)
  canonical_text (object fs) = append "{" (canonical_entries fs)

  canonical_texts : Items → String
  canonical_texts end = "]"
  canonical_texts (item j end) = append (canonical_text j) "]"
  canonical_texts (item j js) = append (canonical_text j) (append "," (canonical_texts js))

  canonical_entries : Fields → String
  canonical_entries empty = "}"
  canonical_entries (field k j empty) = append (entry_text k (canonical_text j)) "}"
  canonical_entries (field k j fs) =
      append (entry_text k (canonical_text j)) (append "," (canonical_entries fs))

-- `_canonical_mapping_value`, with the levels that are left.
unfoldable mutual
  pub canonical_mapping_value : ℕ → Json → Bool
  canonical_mapping_value zero j = false
  canonical_mapping_value (suc n) (array js) = mapping_items n js
  canonical_mapping_value (suc n) (object fs) = is_sorted (keys (fields fs)) && mapping_fields n fs
  canonical_mapping_value (suc n) (float r) = not (elem r ("nan" ∷ "inf" ∷ "-inf" ∷ []))
  canonical_mapping_value (suc n) _ = true

  mapping_items : ℕ → Items → Bool
  mapping_items n end = true
  mapping_items n (item j js) = canonical_mapping_value n j && mapping_items n js

  mapping_fields : ℕ → Fields → Bool
  mapping_fields n empty = true
  mapping_fields n (field k j fs) = canonical_mapping_value n j && mapping_fields n fs

push_part : Char → List String → List String
push_part c [] = String.◌∷◌ c String.[] ∷ []
push_part c (p ∷ ps) = String.◌∷◌ c p ∷ ps

-- `s.split("/")`
split_path : String → List String
unfolding push_part
split_path String.[] = String.[] ∷ []
split_path (String.◌∷◌ c s) =
    let rest = split_path s in if nat_eq (code c) 47 then String.[] ∷ rest else push_part c rest

has_code : ℕ → String → Bool
has_code n String.[] = false
has_code n (String.◌∷◌ c s) = nat_eq (code c) n || has_code n s

is_part : String → Bool
is_part p = not (elem p ("" ∷ "." ∷ ".." ∷ []))

-- `_valid_repo_path`: `PurePosixPath` leaves a relative path as it is if no part between slashes is
-- empty or a dot.
unfoldable pub valid_repo_path : Json → Bool
unfolding split_path has_code is_part
valid_repo_path (string s) = not (has_code 92 s) && not (has_code 0 s) && all is_part (split_path s)
valid_repo_path _ = false
