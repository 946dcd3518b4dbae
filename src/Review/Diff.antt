-- ===== src/Review/Diff.antt =====
-- The parts of a unified diff: `str.splitlines`, the headers of
-- docs/skill-framework/shared/unified_diff.py, and `_classify_diff_lines` and `_has_file_headers` of
-- skills/pr-review/scripts/diff-to-positions.py. A digit is one of 0 to 9.
pub mod Positions
pub mod Rendered
mod Lines
pub mod Walked
pub mod Files
pub mod Headerless
mod Examples
use software_builder.Prelude.{
  ℕ, zero, suc, ◌+◌, ◌-◌, ◌*◌, String, Bool, true, false, not, ◌&&◌, ◌||◌, Option, none, some, List,
  [], ◌∷◌, any, ltb, leb, nat_eq, if◌then◌else◌,
}
use software_builder.Prelude.Text.{Char, code, strip_prefix}

abbrev bind {ℓ κ} : {A : Type ℓ} {B : Type κ} → Option A → (A → Option B) → Option B
bind none next = none
bind (some a) next = next a

-- The line boundaries of `str.splitlines`.
unfoldable pub is_break : ℕ → Bool
is_break c =
    (leb 10 c && leb c 13)
    || (leb 28 c && leb c 30)
    || nat_eq c 133
    || nat_eq c 8232
    || nat_eq c 8233

push_char : Char → List String → List String
push_char c [] = String.◌∷◌ c String.[] ∷ []
push_char c (l ∷ ls) = String.◌∷◌ c l ∷ ls

-- The flag is set behind a carriage return, which takes the newline that follows it.
splitlines_from : Bool → String → List String
unfolding push_char
splitlines_from behind_cr String.[] = []
splitlines_from behind_cr (String.◌∷◌ c s) =
    let rest = splitlines_from (nat_eq (code c) 13) s in
    if behind_cr && nat_eq (code c) 10
    then rest
    else if is_break (code c)
    then String.[] ∷ rest
    else push_char c rest

-- `text.splitlines()`
unfoldable pub splitlines : String → List String
unfolding splitlines_from push_char
splitlines text = splitlines_from false text

is_digit : Char → Bool
is_digit c = leb 48 (code c) && leb (code c) 57

number_from : ℕ → String → ℕ × String
unfolding is_digit
number_from n String.[] = (n, String.[])
number_from n (String.◌∷◌ c s) =
    let longer = number_from (10 * n + (code c - 48)) s in
    if is_digit c then longer else (n, String.◌∷◌ c s)

-- `(\d+)`, with what follows it.
number : String → Option (ℕ × String)
unfolding is_digit number_from
number String.[] = none
number (String.◌∷◌ c s) = if is_digit c then some (number_from (code c - 48) s) else none

-- `(?:,(\d+))?`
count_after : String → Option (Option ℕ × String)
unfolding number
count_after String.[] = some (none, String.[])
count_after (String.◌∷◌ c s) =
    if nat_eq (code c) 44
    then bind (number s) (λ (n, rest). some (some n, rest))
    else some (none, String.◌∷◌ c s)

pub record Hunk : Type 0 where
  pub old_start : ℕ
  pub old_count : Option ℕ
  pub new_start : ℕ
  pub new_count : Option ℕ

-- `HUNK_HEADER.match`
unfoldable pub hunk_header : String → Option Hunk
unfolding number count_after
hunk_header line = bind (strip_prefix "@@ -" line) λ s. bind (number s) λ (old_start, s).
    bind (count_after s) λ (old_count, s). bind (strip_prefix " +" s) λ s.
      bind (number s) λ (new_start, s). bind (count_after s) λ (new_count, s).
        bind (strip_prefix " @@" s) λ s. some record {
          old_start = old_start;
          old_count = old_count;
          new_start = new_start;
          new_count = new_count;
        }

abbrev given {ℓ} : {A : Type ℓ} → Option A → Bool
given none = false
given (some a) = true

abbrev pub starts_with : String → String → Bool
starts_with prefix line = given (strip_prefix prefix line)

-- FILE_MARKER_OLD and FILE_MARKER_NEW
unfoldable pub is_old_marker : String → Bool
is_old_marker line = starts_with "--- a/" line || starts_with "--- /dev/null" line

unfoldable pub is_new_marker : String → Bool
is_new_marker line = starts_with "+++ b/" line || starts_with "+++ /dev/null" line

pub data Role : Type 0 where
  diff_git header_old header_new content : Role
  hunk : Hunk → Role

-- Where the hunk ends in both files, and the lines reached.
pub record Cursor : Type 0 where
  pub hunk_end : Option (ℕ × ℕ)
  pub old : ℕ
  pub new : ℕ

unfoldable pub in_hunk_body : Cursor → Option (ℕ × ℕ) → Bool
in_hunk_body s none = false
in_hunk_body s (some (old_end, new_end)) = ltb s.old old_end || ltb s.new new_end

unfoldable pub role_of : Bool → String → Role
role_of inside line =
    if starts_with "diff --git " line
    then diff_git
    else if not inside && is_old_marker line
    then header_old
    else if not inside && is_new_marker line
    then header_new
    else elim (hunk_header line) [ none ↦ content | some h ↦ hunk h ]

abbrev or_one : Option ℕ → ℕ
or_one none = 1
or_one (some n) = n

-- The kind of a line of a hunk, by its first character.
pub data Kind : Type 0 where
  add del context no_newline : Kind

unfoldable pub kind_of : String → Kind
kind_of String.[] = context
kind_of (String.◌∷◌ c s) =
    if nat_eq (code c) 92
    then no_newline
    else if nat_eq (code c) 43
    then add
    else if nat_eq (code c) 45
    then del
    else context

unfoldable pub count_line : Kind → Cursor → Cursor
count_line no_newline s = s
count_line add s = record s { new = suc s.new }
count_line del s = record s { old = suc s.old }
count_line context s = record s { old = suc s.old; new = suc s.new }

unfoldable pub pass : Bool → String → Role → Cursor → Cursor
pass inside line diff_git s = record s { hunk_end = none }
pass inside line header_old s = s
pass inside line header_new s = s
pass inside line (hunk h) s = record {
  hunk_end = some (h.old_start + or_one h.old_count, h.new_start + or_one h.new_count);
  old = h.old_start;
  new = h.new_start;
}
pass inside line content s = if inside then count_line (kind_of line) s else s

unfoldable pub classify_from : Cursor → List String → List (String × Role)
classify_from s [] = []
classify_from s (line ∷ lines) =
    let inside = in_hunk_body s s.hunk_end in
    (line, role_of inside line) ∷ classify_from (pass inside line (role_of inside line) s) lines

-- `_classify_diff_lines`, of the text of the diff.
unfoldable pub classify_diff_lines : String → List (String × Role)
classify_diff_lines diff_text =
    classify_from record { hunk_end = none; old = 0; new = 0 } (splitlines diff_text)

unfoldable pub is_file_header : String × Role → Bool
is_file_header (line, diff_git) = true
is_file_header (line, header_new) = true
is_file_header _ = false

unfoldable pub has_file_headers : String → Bool
has_file_headers diff_text = any is_file_header (classify_diff_lines diff_text)
