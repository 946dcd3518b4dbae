-- ===== src/Review/Diff/Positions.antt =====
-- skills/pr-review/scripts/diff-to-positions.py: `iter_diff_lines` and the position of one finding. The
-- diff is its text.
use text.Mathlib.Text.{◌==◌}
use software_builder.Prelude.{
  ℕ, zero, suc, String, Bool, true, false, not, ◌&&◌, Option, none, some, List, [], ◌∷◌, ◌++◌,
  nat_eq, if◌then◌else◌,
}
use software_builder.Prelude.Outcome.{Outcome, return, raise}
use software_builder.Prelude.Text.{code, strip_prefix, is_space}
use software_builder.Review.Diff.{
  Role, diff_git, header_old, header_new, content, hunk, Kind, add, del, context, no_newline,
  kind_of, classify_diff_lines, has_file_headers,
}

-- `text.strip()`
rstrip : String → String
rstrip String.[] = String.[]
rstrip (String.◌∷◌ c s) =
    let rest = rstrip s in if rest == "" && is_space (code c) then String.[] else String.◌∷◌ c rest

lstrip : String → String
lstrip String.[] = String.[]
lstrip (String.◌∷◌ c s) = let rest = lstrip s in if is_space (code c) then rest else String.◌∷◌ c s

drop : ℕ → String → String
drop zero s = s
drop (suc n) String.[] = String.[]
drop (suc n) (String.◌∷◌ c s) = drop n s

-- `line[4:].strip()`
unfoldable pub token : String → String
unfolding rstrip lstrip drop
token line = rstrip (lstrip (drop 4 line))

-- `_matches_target`, over `strip_side_prefix` for the two sides.
unfoldable pub matches_target : String → String → Bool
matches_target path_token target = elim (strip_prefix "a/" path_token) [
  | some path ↦ path == target
  | none ↦ elim (strip_prefix "b/" path_token) [
    | some path ↦ path == target
    | none ↦ path_token == target
  ]
]

pub record DiffLine : Type 0 where
  pub kind : Kind
  pub new_no : Option ℕ
  pub old_no : Option ℕ

pub record Walk : Type 0 where
  pub in_file : Bool
  pub new : ℕ
  pub old : ℕ
  pub last_old : Option String

abbrev or_empty : Option String → String
or_empty none = ""
or_empty (some s) = s

-- The lines that one line of the diff gives, and the walk behind it.
unfoldable pub number_line : Kind → Walk → List DiffLine × Walk
number_line no_newline w = ([], w)
number_line add w =
    (record { kind = add; new_no = some w.new; old_no = none } ∷ [], record w { new = suc w.new })
number_line del w =
    (record { kind = del; new_no = none; old_no = some w.old } ∷ [], record w { old = suc w.old })
number_line context w = (
  record { kind = context; new_no = some w.new; old_no = some w.old } ∷ [],
  record w { new = suc w.new; old = suc w.old },
)

unfoldable pub in_file : Bool → Walk → List DiffLine × Walk → List DiffLine × Walk
in_file false w inner = ([], w)
in_file true w inner = inner

unfoldable pub visit : String → String → Role → Walk → List DiffLine × Walk
visit target line diff_git w = ([], record w { in_file = false; last_old = none })
visit target line header_old w = ([], record w { last_old = some (token line) })
visit target line header_new w = (
  [],
  record w {
    in_file =
        matches_target (if token line == "/dev/null" then or_empty w.last_old else token line)
          target;
  },
)
visit target line (hunk h) w =
    in_file w.in_file w ([], record w { old = h.old_start; new = h.new_start })
visit target line content w = in_file w.in_file w (number_line (kind_of line) w)

unfoldable pub walk_from : String → Walk → List (String × Role) → List DiffLine
walk_from target w [] = []
walk_from target w ((line, role) ∷ lines) =
    let step = visit target line role w in step.0 ++ walk_from target step.1 lines

unfoldable pub iter_diff_lines : String → String → List DiffLine
iter_diff_lines diff_text target =
    walk_from target
      record { in_file = not (has_file_headers diff_text); new = 0; old = 0; last_old = none }
      (classify_diff_lines diff_text)

pub record Coordinates : Type 0 where
  pub new_line : Option ℕ
  pub old_line : Option ℕ

abbrev is_number : ℕ → Option ℕ → Bool
is_number n none = false
is_number n (some m) = nat_eq m n

-- What the line of the walk makes of the search for a line of the new file; none goes on.
unfoldable pub new_line_at : ℕ → Kind → Option ℕ → Option Coordinates
new_line_at n add old = some record { new_line = some n; old_line = none }
new_line_at n context old = some record { new_line = some n; old_line = old }
new_line_at n _ old = none

unfoldable pub find_new : ℕ → List DiffLine → Option Coordinates
find_new n [] = none
find_new n (l ∷ ls) =
    let later = find_new n ls in
    if is_number n l.new_no
    then elim (new_line_at n l.kind l.old_no) [ none ↦ later | some c ↦ some c ]
    else later

abbrev is_del : Kind → Bool
is_del del = true
is_del _ = false

unfoldable pub find_removed : ℕ → List DiffLine → Option Coordinates
find_removed n [] = none
find_removed n (l ∷ ls) =
    let later = find_removed n ls in
    if is_del l.kind && is_number n l.old_no
    then some record { new_line = none; old_line = some n }
    else later

unfoldable pub line_type_and_position : String → String → ℕ → Option Coordinates
line_type_and_position diff_text target n = find_new n (iter_diff_lines diff_text target)

unfoldable pub removed_line_position : String → String → ℕ → Option Coordinates
removed_line_position diff_text target n = find_removed n (iter_diff_lines diff_text target)

pub data PositionError : Type 0 where
  not_exactly_one : PositionError
  line_not_found old_line_not_found : ℕ → String → PositionError

pub record Position : Type 0 where
  pub old_path : String
  pub new_path : String
  pub coordinates : Coordinates
  pub base_sha : Option String
  pub start_sha : Option String
  pub head_sha : Option String

-- `if sha:` and `old_path or path`
abbrev if_given : Option String → Option String
if_given none = none
if_given (some s) = if s == "" then none else some s

abbrev or_path : Option String → String → String
or_path o path = elim (if_given o) [ none ↦ path | some s ↦ s ]

module _ (path : String) (old_path base_sha start_sha head_sha : Option String) where
  unfoldable pub position_at : PositionError → Option Coordinates → Outcome PositionError Position
  position_at problem none = raise problem
  position_at problem (some c) = return record {
    old_path = or_path old_path path;
    new_path = path;
    coordinates = c;
    base_sha = if_given base_sha;
    start_sha = if_given start_sha;
    head_sha = if_given head_sha;
  }

  unfoldable pub build_position : String → Option ℕ → Option ℕ → Outcome PositionError Position
  build_position diff_text (some n) none =
      position_at (line_not_found n path) (line_type_and_position diff_text path n)
  build_position diff_text none (some n) =
      position_at (old_line_not_found n path) (removed_line_position diff_text path n)
  build_position diff_text none none = raise not_exactly_one
  build_position diff_text (some n) (some m) = raise not_exactly_one
