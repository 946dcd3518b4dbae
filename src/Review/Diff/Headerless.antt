-- ===== src/Review/Diff/Headerless.antt =====
-- skills/pr-review/scripts/diff-to-positions.py: a diff of hunks alone, as one file's API answer has.
use mathlib.Core.List.{append-nil}
use software_builder.Prelude.{
  ℕ, suc, ◌+◌, String, Bool, true, false, none, List, [], ◌∷◌, ◌++◌, any, all, map, ◌≡◌, refl, sym,
  ◌∙◌, ap, arith, All,
}
use software_builder.Review.Diff.{
  or_one, Cursor, in_hunk_body, kind_of, count_line, pass, classify_from, classify_diff_lines,
  is_file_header, has_file_headers,
}
use software_builder.Review.Diff.Lines.{is_unbroken, to_text, splitlines-to_text}
use software_builder.Review.Diff.Positions.{walk_from, iter_diff_lines}
use software_builder.Review.Diff.Rendered.{
  Change, added, removed, kept, render_change, old_lines, new_lines, HunkText, WellCounted,
  render_hunks, hunk_positions,
}
use software_builder.Review.Diff.Walked.{
  Settled, walk, at_file, at_line, change_role, old_left, new_left, none_left, header_role,
  inside_hunks,
}

abbrev headers : Cursor → List String → Bool
headers s lines = any is_file_header (classify_from s lines)

abbrev start : Cursor
start = record { hunk_end = none; old = 0; new = 0 }

changes-headers :
    (cs : List Change) (o n oe ne : ℕ) (rest : List String)
    → o + old_lines cs ≡ oe
    → n + new_lines cs ≡ ne
    → ((s : Cursor) → Settled s → headers s rest ≡ false)
    → headers (at_line oe ne o n) (map render_change cs ++ rest) ≡ false
unfolding classify_from pass count_line kind_of is_file_header
changes-headers [] o n oe ne rest eo en onward =
    onward _ (none_left o n oe ne (omega arith) (omega arith))
changes-headers (added t ∷ cs) o n oe ne rest eo en onward =
    rw (new_left o n oe ne (omega arith), change_role (added t))
      (changes-headers cs o (suc n) oe ne rest (omega arith) (omega arith) onward)
changes-headers (removed t ∷ cs) o n oe ne rest eo en onward =
    rw (old_left o n oe ne (omega arith), change_role (removed t))
      (changes-headers cs (suc o) n oe ne rest (omega arith) (omega arith) onward)
changes-headers (kept t ∷ cs) o n oe ne rest eo en onward =
    rw (old_left o n oe ne (omega arith), change_role (kept t))
      (changes-headers cs (suc o) (suc n) oe ne rest (omega arith) (omega arith) onward)

hunks-headers :
    (hs : List HunkText) (s : Cursor)
    → All WellCounted hs
    → Settled s
    → headers s (render_hunks hs) ≡ false
unfolding classify_from pass is_file_header
hunks-headers [] s counted settled = refl
hunks-headers (h ∷ hs) s counted settled =
    rw (settled, header_role h counted.0)
      (changes-headers h.changes h.range.old_start h.range.new_start
        (h.range.old_start + or_one h.range.old_count)
        (h.range.new_start + or_one h.range.new_count) (render_hunks hs)
        (ap (λ k. h.range.old_start + k) (sym counted.0.spans_old))
        (ap (λ k. h.range.new_start + k) (sym counted.0.spans_new))
        (λ s settled. hunks-headers hs s counted.1 settled))

-- Of the text of a diff of hunks alone, whose headers count their lines, where every line ends with a
-- newline and holds no other character at which `str.splitlines` ends a line: `iter_diff_lines` gives
-- all numbered lines of the hunks for every target, even where a changed line reads as a file's header.
pub iter_diff_lines-hunks :
    (target : String) (hs : List HunkText)
    → All WellCounted hs
    → all is_unbroken (render_hunks hs) ≡ true
    → iter_diff_lines (to_text (render_hunks hs)) target ≡ hunk_positions hs
unfolding iter_diff_lines classify_diff_lines has_file_headers in_hunk_body walk_from classify_from
iter_diff_lines-hunks target hs counted unbroken =
    rw (splitlines-to_text (render_hunks hs) unbroken, hunks-headers hs start counted refl)
      (ap (λ ls. walk target (at_file true 0 0 none) start ls) (sym (append-nil (render_hunks hs)))
        ∙ inside_hunks target hs 0 0 none start [] [] counted refl (λ n o last s settled. refl)
        ∙ append-nil (hunk_positions hs))
