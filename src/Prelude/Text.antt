-- ===== src/Prelude/Text.antt =====
-- Texts of Python over the native strings: whitespace, prefixes and the lines of a text.
pub mod Lines
use Prim.Native.Nat.{ℕ}
use Prim.Native.Char.{Char, code}
use Prim.Native.String.{String}
use text.Mathlib.Text.{◌==◌}
use mathlib.Core.Path.{◌≡◌, refl}
use mathlib.Core.Bool.{Bool, true, false, not, ◌&&◌, ◌||◌}
use mathlib.Core.Option.{Option, none, some}
use mathlib.Core.List.{List, [], ◌∷◌}
use software_builder.Prelude.Tests.{ltb, leb, nat_eq, if◌then◌else◌}
pub use Prim.Native.String.{◌++◌ as append}
pub use Prim.Native.Char.{Char, code}

-- `c` is whitespace for `\s` and `str.strip()`: the code points of `str.isspace`.
unfoldable pub is_space : ℕ → Bool
is_space c =
    (leb 9 c && leb c 13)
    || (leb 28 c && leb c 32)
    || nat_eq c 133
    || nat_eq c 160
    || nat_eq c 5760
    || (leb 8192 c && leb c 8202)
    || nat_eq c 8232
    || nat_eq c 8233
    || nat_eq c 8239
    || nat_eq c 8287
    || nat_eq c 12288

-- `s in xs`
abbrev pub elem : String → List String → Bool
elem s [] = false
elem s (x ∷ xs) = x == s || elem s xs

-- What follows `p` in `s`, if `s` starts with `p`.
unfoldable pub strip_prefix : String → String → Option String
strip_prefix String.[] s = some s
strip_prefix (String.◌∷◌ c p) String.[] = none
strip_prefix (String.◌∷◌ c p) (String.◌∷◌ d s) =
    if nat_eq (code c) (code d) then strip_prefix p s else none

push_line : Char → List String → List String
push_line c [] = String.◌∷◌ c String.[] ∷ []
push_line c (l ∷ ls) = String.◌∷◌ c l ∷ ls

-- `s.split("\n")`: the lines of a text, of which there is always one.
unfoldable pub split_lines : String → List String
unfolding push_line
split_lines String.[] = String.[] ∷ []
split_lines (String.◌∷◌ c s) =
    let rest = split_lines s in if nat_eq (code c) 10 then String.[] ∷ rest else push_line c rest

-- `bool(s.strip())`
unfoldable pub has_text : String → Bool
has_text String.[] = false
has_text (String.◌∷◌ c s) = not (is_space (code c)) || has_text s
