-- ===== src/Review/Diff/Examples.antt =====
-- Two diffs, whose changed lines read as headers, for the theorems on the walk.
use software_builder.Prelude.{true, all, some, none, [], ◌∷◌, ◌≡◌, refl}
use software_builder.Prelude.Text.{strip_prefix}
use software_builder.Review.Diff.{
  is_break, hunk_header, number, number_from, count_after, is_digit, role_of, is_old_marker,
  is_new_marker,
}
use software_builder.Review.Diff.Lines.{is_unbroken, to_text}
use software_builder.Review.Diff.Positions.{iter_diff_lines}
use software_builder.Review.Diff.Rendered.{
  added, removed, HunkText, WellCounted, render_hunks, hunk_positions, FileText, WellMarked,
  render_files, file_positions,
}
use software_builder.Review.Diff.Files.{iter_diff_lines-files}
use software_builder.Review.Diff.Headerless.{iter_diff_lines-hunks}

abbrev comments : HunkText
comments = record {
  header = "@@ -3,2 +3 @@ begin";
  range = record { old_start = 3; old_count = some 2; new_start = 3; new_count = none };
  changes = removed "-- a/old" ∷ removed "-- b" ∷ added "++ b/new.sql" ∷ [];
}

comments-WellCounted : WellCounted comments
unfolding hunk_header number number_from count_after is_digit strip_prefix is_old_marker
    is_new_marker
comments-WellCounted = record {
  reads = refl;
  no_git = refl;
  no_old = refl;
  no_new = refl;
  spans_old = refl;
  spans_new = refl;
}

abbrev query : FileText
query = record {
  git = "diff --git a/q.sql b/q.sql";
  extended = "index 12..34" ∷ [];
  old_marker = "--- a/q.sql";
  new_marker = "+++ b/q.sql";
  hunks = comments ∷ [];
}

abbrev gone : FileText
gone = record {
  git = "diff --git a/r.sql b/r.sql";
  extended = "deleted file mode 100644" ∷ [];
  old_marker = "--- a/r.sql";
  new_marker = "+++ /dev/null";
  hunks = comments ∷ [];
}

query-WellMarked : WellMarked query
unfolding hunk_header number strip_prefix is_old_marker is_new_marker role_of
query-WellMarked = record {
  is_git = refl;
  no_roles = (refl, tt);
  old_not_git = refl;
  is_old = refl;
  new_not_git = refl;
  new_not_old = refl;
  is_new = refl;
  counted = (comments-WellCounted, tt);
}

gone-WellMarked : WellMarked gone
unfolding hunk_header number strip_prefix is_old_marker is_new_marker role_of
gone-WellMarked = record {
  is_git = refl;
  no_roles = (refl, tt);
  old_not_git = refl;
  is_old = refl;
  new_not_git = refl;
  new_not_old = refl;
  is_new = refl;
  counted = (comments-WellCounted, tt);
}

files_unbroken : all is_unbroken (render_files (query ∷ gone ∷ [])) ≡ true
unfolding is_unbroken is_break
files_unbroken = refl

iter_diff_lines-files_example :
    iter_diff_lines (to_text (render_files (query ∷ gone ∷ []))) "r.sql"
    ≡ file_positions "r.sql" (query ∷ gone ∷ [])
iter_diff_lines-files_example =
    iter_diff_lines-files "r.sql" (query ∷ gone ∷ []) (query-WellMarked, (gone-WellMarked, tt))
      files_unbroken

hunks_unbroken : all is_unbroken (render_hunks (comments ∷ [])) ≡ true
unfolding is_unbroken is_break
hunks_unbroken = refl

iter_diff_lines-hunks_example :
    iter_diff_lines (to_text (render_hunks (comments ∷ []))) "q.sql"
    ≡ hunk_positions (comments ∷ [])
iter_diff_lines-hunks_example =
    iter_diff_lines-hunks "q.sql" (comments ∷ []) (comments-WellCounted, tt) hunks_unbroken
