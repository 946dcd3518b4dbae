-- ===== src/Review/Diff/Rendered.antt =====
-- What a unified diff says, apart from how it is read: hunks of changed lines, below the headers of
-- their files, and the lines of its text.
use software_builder.Prelude.{
  ℕ, suc, String, true, false, none, some, List, [], ◌∷◌, ◌++◌, map, ◌≡◌, All, if◌then◌else◌,
}
use software_builder.Review.Diff.{
  Hunk, hunk_header, content, role_of, or_one, add, del, context, starts_with, is_old_marker,
  is_new_marker,
}
use software_builder.Review.Diff.Positions.{DiffLine, token, matches_target}
use text.Mathlib.Text.{◌==◌}

pub data Change : Type 0 where
  added removed kept : String → Change

abbrev pub render_change : Change → String
render_change (added t) = String.◌∷◌ "+" t
render_change (removed t) = String.◌∷◌ "-" t
render_change (kept t) = String.◌∷◌ " " t

-- The lines of the two files that a hunk spans.
abbrev pub old_lines : List Change → ℕ
old_lines [] = 0
old_lines (added t ∷ cs) = old_lines cs
old_lines (removed t ∷ cs) = suc (old_lines cs)
old_lines (kept t ∷ cs) = suc (old_lines cs)

abbrev pub new_lines : List Change → ℕ
new_lines [] = 0
new_lines (added t ∷ cs) = suc (new_lines cs)
new_lines (removed t ∷ cs) = new_lines cs
new_lines (kept t ∷ cs) = suc (new_lines cs)

-- Each line with its numbers, from the first lines on.
abbrev pub numbered : ℕ → ℕ → List Change → List DiffLine
numbered o n [] = []
numbered o n (added t ∷ cs) =
    record { kind = add; new_no = some n; old_no = none } ∷ numbered o (suc n) cs
numbered o n (removed t ∷ cs) =
    record { kind = del; new_no = none; old_no = some o } ∷ numbered (suc o) n cs
numbered o n (kept t ∷ cs) =
    record { kind = context; new_no = some n; old_no = some o } ∷ numbered (suc o) (suc n) cs

-- A hunk with its header line.
pub record HunkText : Type 0 where
  pub header : String
  pub range : Hunk
  pub changes : List Change

-- The header reads as the range, and the range is that of the lines.
pub record WellCounted (h : HunkText) : Type 0 where
  pub reads : hunk_header h.header ≡ some h.range
  pub no_git : starts_with "diff --git " h.header ≡ false
  pub no_old : is_old_marker h.header ≡ false
  pub no_new : is_new_marker h.header ≡ false
  pub spans_old : or_one h.range.old_count ≡ old_lines h.changes
  pub spans_new : or_one h.range.new_count ≡ new_lines h.changes

abbrev pub render_hunks : List HunkText → List String
render_hunks [] = []
render_hunks (h ∷ hs) = h.header ∷ (map render_change h.changes ++ render_hunks hs)

abbrev pub hunk_positions : List HunkText → List DiffLine
hunk_positions [] = []
hunk_positions (h ∷ hs) =
    numbered h.range.old_start h.range.new_start h.changes ++ hunk_positions hs

-- A file with its `diff --git` line, the lines of its modes and names, and its two markers.
pub record FileText : Type 0 where
  pub git : String
  pub extended : List String
  pub old_marker : String
  pub new_marker : String
  pub hunks : List HunkText

pub record WellMarked (f : FileText) : Type 0 where
  pub is_git : starts_with "diff --git " f.git ≡ true
  pub no_roles : All (λ line. role_of false line ≡ content) f.extended
  pub old_not_git : starts_with "diff --git " f.old_marker ≡ false
  pub is_old : is_old_marker f.old_marker ≡ true
  pub new_not_git : starts_with "diff --git " f.new_marker ≡ false
  pub new_not_old : is_old_marker f.new_marker ≡ false
  pub is_new : is_new_marker f.new_marker ≡ true
  pub counted : All WellCounted f.hunks

abbrev pub render_files : List FileText → List String
render_files [] = []
render_files (f ∷ fs) =
    f.git
    ∷ (f.extended ++ (f.old_marker ∷ f.new_marker ∷ (render_hunks f.hunks ++ render_files fs)))

-- The path that the file is matched by: the old one, where the new side is none.
abbrev pub file_token : FileText → String
file_token f = if token f.new_marker == "/dev/null" then token f.old_marker else token f.new_marker

abbrev pub file_positions : String → List FileText → List DiffLine
file_positions target [] = []
file_positions target (f ∷ fs) =
    let later = file_positions target fs in
    if matches_target (file_token f) target then hunk_positions f.hunks ++ later else later
