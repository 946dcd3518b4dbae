-- ===== src/Plan/TaskCheck/Path.antt =====
-- scripts/implementation_plan.py, `_validate_task`: the test of one of `target_paths`.
use text.Mathlib.Text.{◌==◌}
use software_builder.Prelude.{
  String, Bool, false, not, ◌&&◌, ◌||◌, List, [], ◌∷◌, keep, all, any, is_empty, nat_eq, ltb,
  if◌then◌else◌,
}
use software_builder.Prelude.Text.{Char, code, is_space}

-- `path != path.strip()`
unfoldable pub starts_blank : String → Bool
starts_blank String.[] = false
starts_blank (String.◌∷◌ c s) = is_space (code c)

unfoldable pub ends_blank : String → Bool
ends_blank String.[] = false
ends_blank (String.◌∷◌ c String.[]) = is_space (code c)
ends_blank (String.◌∷◌ c (String.◌∷◌ d s)) = ends_blank (String.◌∷◌ d s)

unfoldable pub is_slash : Char → Bool
is_slash c = nat_eq (code c) 47 || nat_eq (code c) 92

unfoldable pub starts_slash : String → Bool
unfolding is_slash
starts_slash String.[] = false
starts_slash (String.◌∷◌ c s) = is_slash c

-- `re.match(r"^[A-Za-z]:", path)`
unfoldable pub starts_drive : String → Bool
starts_drive (String.◌∷◌ c (String.◌∷◌ d s)) =
    ((ltb 64 (code c) && ltb (code c) 91) || (ltb 96 (code c) && ltb (code c) 123))
    && nat_eq (code d) 58
starts_drive _ = false

unfoldable pub push_char : Char → List String → List String
push_char c [] = String.◌∷◌ c String.[] ∷ []
push_char c (part ∷ parts) = String.◌∷◌ c part ∷ parts

-- The text between the slashes, of either direction.
unfoldable pub split_path : String → List String
unfolding push_char is_slash
split_path String.[] = String.[] ∷ []
split_path (String.◌∷◌ c s) =
    let rest = split_path s in if is_slash c then String.[] ∷ rest else push_char c rest

-- A path with blanks around it is refused as it is; of any other, what the source strips is nothing.
unfoldable pub leaves_repo : String → Bool
unfolding starts_blank ends_blank starts_slash starts_drive split_path
leaves_repo path =
    let segments = keep (λ part. not (part == "")) (split_path path) in
    starts_blank path
    || ends_blank path
    || starts_slash path
    || starts_drive path
    || any (λ part. part == "..") segments
    || is_empty segments
    || all (λ part. part == ".") segments
