-- ===== src/Review/Diff/Files.antt =====
-- skills/pr-review/scripts/diff-to-positions.py: what `iter_diff_lines` gives for the files of a diff.
use software_builder.Prelude.{
  ℕ, String, Bool, true, false, Option, none, some, List, [], ◌∷◌, ◌++◌, ◌≡◌, refl, all, All,
  if◌then◌else◌, Bool-cases, inl, inr,
}
use software_builder.Review.Diff.{
  diff_git, header_old, header_new, content, role_of, Cursor, in_hunk_body, pass, classify_from,
  classify_diff_lines,
}
use software_builder.Review.Diff.Lines.{is_unbroken, to_text, splitlines-to_text}
use software_builder.Review.Diff.Positions.{
  DiffLine, in_file, visit, walk_from, iter_diff_lines, token, matches_target,
}
use software_builder.Review.Diff.Rendered.{
  render_hunks, hunk_positions, FileText, WellMarked, render_files, file_token, file_positions,
}
use software_builder.Review.Diff.Walked.{
  Settled, walk, at_file, Onward, inside_hunks, outside_hunks,
}

module _ (target : String) where
  -- The lines of a file's modes and names, which stand outside a hunk and before the file's markers.
  extended-walk :
      (ls : List String) (wn wo : ℕ) (last : Option String) (s : Cursor) (rest : List String)
      (v : List DiffLine)
      → All (λ line. role_of false line ≡ content) ls
      → Settled s
      → ((s : Cursor) → Settled s → walk target (at_file false wn wo last) s rest ≡ v)
      → walk target (at_file false wn wo last) s (ls ++ rest) ≡ v
  unfolding classify_from walk_from visit in_file pass
  extended-walk [] wn wo last s rest v r settled onward = onward s settled
  extended-walk (l ∷ ls) wn wo last s rest v r settled onward =
      rw (settled, r.0) (extended-walk ls wn wo last s rest v r.1 settled onward)

  git_role : (b : Bool) (f : FileText) → WellMarked f → role_of b f.git ≡ diff_git
  unfolding role_of
  git_role b f m = rw (m.is_git) refl

  old_role : (f : FileText) → WellMarked f → role_of false f.old_marker ≡ header_old
  unfolding role_of
  old_role f m = rw (m.old_not_git, m.is_old) refl

  new_role : (f : FileText) → WellMarked f → role_of false f.new_marker ≡ header_new
  unfolding role_of
  new_role f m = rw (m.new_not_git, m.new_not_old, m.is_new) refl

  -- The two markers of a file decide whether the lines of its hunks are given.
  markers-walk :
      (f : FileText) (wn wo : ℕ) (last : Option String) (s : Cursor) (rest : List String)
      (v : List DiffLine)
      → WellMarked f
      → Settled s
      → ((b : Bool) → Onward target b rest v)
      → walk target
          (at_file false wn wo last)
          s
          (f.old_marker ∷ f.new_marker ∷ (render_hunks f.hunks ++ rest))
        ≡ (if matches_target (file_token f) target then hunk_positions f.hunks ++ v else v)
  unfolding classify_from walk_from visit pass
  markers-walk f wn wo last s rest v m settled onward =
      rw (settled, old_role f m, settled, new_role f m)
        (elim (Bool-cases (matches_target (file_token f) target)) [
          | inl mine ↦ rw (mine) (
              inside_hunks target f.hunks wn wo (some (token f.old_marker)) s rest v m.counted
                settled (onward true))
          | inr other ↦ rw (other) (
              outside_hunks target f.hunks wn wo (some (token f.old_marker)) s rest v m.counted
                settled (onward false))
        ])

  files-walk :
      (fs : List FileText) (b : Bool) (wn wo : ℕ) (last : Option String) (s : Cursor)
      → All WellMarked fs
      → Settled s
      → walk target (at_file b wn wo last) s (render_files fs) ≡ file_positions target fs
  unfolding classify_from walk_from visit pass in_hunk_body
  files-walk [] b wn wo last s marked settled = refl
  files-walk (f ∷ fs) b wn wo last s marked settled =
      rw (git_role (in_hunk_body s s.hunk_end) f marked.0) (
        extended-walk f.extended wn wo none record s { hunk_end = none }
          (f.old_marker ∷ f.new_marker ∷ (render_hunks f.hunks ++ render_files fs))
          (file_positions target (f ∷ fs)) marked.0.no_roles refl
          (λ s settled.
            markers-walk f wn wo none s (render_files fs) (file_positions target fs) marked.0
              settled (λ b n o last s settled. files-walk fs b n o last s marked.1 settled)))

-- Of the text of a diff that is written from files, each a `diff --git` line, extended lines, the two
-- markers and hunks whose headers count their lines, where every line ends with a newline and holds
-- no other character at which `str.splitlines` ends a line: `iter_diff_lines` gives the numbered lines
-- of the hunks of the files that match the target, in order, and nothing else, whatever else the
-- changed lines say.
pub iter_diff_lines-files :
    (target : String) (fs : List FileText)
    → All WellMarked fs
    → all is_unbroken (render_files fs) ≡ true
    → iter_diff_lines (to_text (render_files fs)) target ≡ file_positions target fs
unfolding iter_diff_lines classify_diff_lines in_hunk_body
iter_diff_lines-files target fs marked unbroken =
    rw (splitlines-to_text (render_files fs) unbroken)
      (files-walk target fs _ 0 0 none record { hunk_end = none; old = 0; new = 0 } marked refl)
