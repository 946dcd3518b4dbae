-- ===== src/Review/Diff/Walked.antt =====
-- skills/pr-review/scripts/diff-to-positions.py: what `iter_diff_lines` gives for the text of a diff.
use mathlib.Core.List.{append_assoc}
use software_builder.Prelude.{
  ℕ, suc, ◌+◌, ◌<◌, String, Bool, true, false, Option, none, some, List, [], ◌∷◌, ◌++◌, map, ◌≡◌,
  refl, sym, ap, arith, All,
}
use software_builder.Prelude.Text.{strip_prefix}
use software_builder.Review.Diff.{
  hunk_header, or_one, content, hunk, role_of, Cursor, in_hunk_body, add, del, context, kind_of,
  count_line, pass, classify_from,
}
use software_builder.Review.Diff.Positions.{DiffLine, Walk, number_line, in_file, visit, walk_from}
use software_builder.Review.Diff.Rendered.{
  Change, added, removed, kept, render_change, old_lines, new_lines, numbered, HunkText,
  WellCounted, render_hunks, hunk_positions,
}

-- No line of a hunk is expected.
abbrev pub Settled : Cursor → Type 0
Settled s = in_hunk_body s s.hunk_end ≡ false

pub change_role : (c : Change) → role_of true (render_change c) ≡ content
unfolding role_of hunk_header strip_prefix
change_role (added t) = refl
change_role (removed t) = refl
change_role (kept t) = refl

abbrev pub at_line : ℕ → ℕ → ℕ → ℕ → Cursor
at_line oe ne o n = record { hunk_end = some (oe, ne); old = o; new = n }

pub old_left : (o n oe ne : ℕ) → o < oe → in_hunk_body (at_line oe ne o n) (some (oe, ne)) ≡ true
unfolding in_hunk_body
old_left o n oe ne h = ground arith

pub new_left : (o n oe ne : ℕ) → n < ne → in_hunk_body (at_line oe ne o n) (some (oe, ne)) ≡ true
unfolding in_hunk_body
new_left o n oe ne h = ground arith

pub none_left :
    (o n oe ne : ℕ) → o ≡ oe → n ≡ ne → in_hunk_body (at_line oe ne o n) (some (oe, ne)) ≡ false
unfolding in_hunk_body
none_left o n oe ne e d = ground arith

abbrev pub at_file : Bool → ℕ → ℕ → Option String → Walk
at_file b new old last = record { in_file = b; new = new; old = old; last_old = last }

pub header_role : (h : HunkText) → WellCounted h → role_of false h.header ≡ hunk h.range
unfolding role_of
header_role h c = rw (c.no_git, c.no_old, c.no_new, c.reads) refl

module _ (target : String) where
  abbrev pub walk : Walk → Cursor → List String → List DiffLine
  walk w s lines = walk_from target w (classify_from s lines)

  -- The lines behind a part of the diff give `v`, wherever the walk is then.
  abbrev pub Onward : Bool → List String → List DiffLine → Type 0
  Onward b rest v =
      (new old : ℕ) (last : Option String) (s : Cursor)
      → Settled s
      → walk (at_file b new old last) s rest ≡ v

  changes-walk :
      (cs : List Change) (last : Option String) (o n oe ne : ℕ) (rest : List String)
      (v : List DiffLine)
      → o + old_lines cs ≡ oe
      → n + new_lines cs ≡ ne
      → Onward true rest v
      → walk (at_file true n o last) (at_line oe ne o n) (map render_change cs ++ rest)
        ≡ numbered o n cs ++ v
  unfolding classify_from walk_from visit in_file number_line pass count_line kind_of
  changes-walk [] last o n oe ne rest v eo en onward =
      onward _ _ _ _ (none_left o n oe ne (omega arith) (omega arith))
  changes-walk (added t ∷ cs) last o n oe ne rest v eo en onward =
      rw (new_left o n oe ne (omega arith), change_role (added t))
        (ap (λ ls. record { kind = add; new_no = some n; old_no = none } ∷ ls)
          (changes-walk cs last o (suc n) oe ne rest v (omega arith) (omega arith) onward))
  changes-walk (removed t ∷ cs) last o n oe ne rest v eo en onward =
      rw (old_left o n oe ne (omega arith), change_role (removed t))
        (ap (λ ls. record { kind = del; new_no = none; old_no = some o } ∷ ls)
          (changes-walk cs last (suc o) n oe ne rest v (omega arith) (omega arith) onward))
  changes-walk (kept t ∷ cs) last o n oe ne rest v eo en onward =
      rw (old_left o n oe ne (omega arith), change_role (kept t))
        (ap (λ ls. record { kind = context; new_no = some n; old_no = some o } ∷ ls)
          (changes-walk cs last (suc o) (suc n) oe ne rest v (omega arith) (omega arith) onward))

  changes-skip :
      (cs : List Change) (wn wo : ℕ) (last : Option String) (o n oe ne : ℕ) (rest : List String)
      (v : List DiffLine)
      → o + old_lines cs ≡ oe
      → n + new_lines cs ≡ ne
      → Onward false rest v
      → walk (at_file false wn wo last) (at_line oe ne o n) (map render_change cs ++ rest) ≡ v
  unfolding classify_from walk_from visit in_file number_line pass count_line kind_of
  changes-skip [] wn wo last o n oe ne rest v eo en onward =
      onward _ _ _ _ (none_left o n oe ne (omega arith) (omega arith))
  changes-skip (added t ∷ cs) wn wo last o n oe ne rest v eo en onward =
      rw (new_left o n oe ne (omega arith), change_role (added t))
        (changes-skip cs wn wo last o (suc n) oe ne rest v (omega arith) (omega arith) onward)
  changes-skip (removed t ∷ cs) wn wo last o n oe ne rest v eo en onward =
      rw (old_left o n oe ne (omega arith), change_role (removed t))
        (changes-skip cs wn wo last (suc o) n oe ne rest v (omega arith) (omega arith) onward)
  changes-skip (kept t ∷ cs) wn wo last o n oe ne rest v eo en onward =
      rw (old_left o n oe ne (omega arith), change_role (kept t))
        (changes-skip cs wn wo last (suc o) (suc n) oe ne rest v (omega arith) (omega arith) onward)

  pub inside_hunks :
      (hs : List HunkText) (wn wo : ℕ) (last : Option String) (s : Cursor) (rest : List String)
      (v : List DiffLine)
      → All WellCounted hs
      → Settled s
      → Onward true rest v
      → walk (at_file true wn wo last) s (render_hunks hs ++ rest) ≡ hunk_positions hs ++ v
  unfolding classify_from walk_from visit in_file pass
  inside_hunks [] wn wo last s rest v c settled onward = onward _ _ _ s settled
  inside_hunks (h ∷ hs) wn wo last s rest v c settled onward =
      rw
        (
          settled,
          header_role h c.0,
          append_assoc (map render_change h.changes) (render_hunks hs) rest,
          append_assoc (numbered h.range.old_start h.range.new_start h.changes) (hunk_positions hs)
              v,
        )
        (changes-walk h.changes last h.range.old_start h.range.new_start
          (h.range.old_start + or_one h.range.old_count)
          (h.range.new_start + or_one h.range.new_count) (render_hunks hs ++ rest)
          (hunk_positions hs ++ v) (ap (λ k. h.range.old_start + k) (sym c.0.spans_old))
          (ap (λ k. h.range.new_start + k) (sym c.0.spans_new))
          (λ n o last s settled. inside_hunks hs n o last s rest v c.1 settled onward))

  pub outside_hunks :
      (hs : List HunkText) (wn wo : ℕ) (last : Option String) (s : Cursor) (rest : List String)
      (v : List DiffLine)
      → All WellCounted hs
      → Settled s
      → Onward false rest v
      → walk (at_file false wn wo last) s (render_hunks hs ++ rest) ≡ v
  unfolding classify_from walk_from visit in_file pass
  outside_hunks [] wn wo last s rest v c settled onward = onward _ _ _ s settled
  outside_hunks (h ∷ hs) wn wo last s rest v c settled onward =
      rw
        (
          settled,
          header_role h c.0,
          append_assoc (map render_change h.changes) (render_hunks hs) rest,
        )
        (changes-skip h.changes wn wo last h.range.old_start h.range.new_start
          (h.range.old_start + or_one h.range.old_count)
          (h.range.new_start + or_one h.range.new_count) (render_hunks hs ++ rest) v
          (ap (λ k. h.range.old_start + k) (sym c.0.spans_old))
          (ap (λ k. h.range.new_start + k) (sym c.0.spans_new))
          (λ n o last s settled. outside_hunks hs n o last s rest v c.1 settled onward))
