-- ===== src/Review/Diff/Lines.antt =====
-- skills/pr-review/scripts/diff-to-positions.py: the text of a diff and the lines that
-- `str.splitlines` finds in it.
use software_builder.Prelude.{
  ℕ, String, Bool, true, false, not, ◌&&◌, List, [], ◌∷◌, all, nat_eq, ◌≡◌, refl, ap, arith,
}
use software_builder.Prelude.Text.{code}
use software_builder.Review.Diff.{is_break, push_char, splitlines_from, splitlines}

-- The line and a newline, before the text.
abbrev pub end_line : String → String → String
end_line String.[] text = String.◌∷◌ "\n" text
end_line (String.◌∷◌ c line) text = String.◌∷◌ c (end_line line text)

-- The text of the lines, each with a newline at its end.
abbrev pub to_text : List String → String
to_text [] = String.[]
to_text (line ∷ lines) = end_line line (to_text lines)

-- The line holds none of the characters at which `str.splitlines` ends a line.
unfoldable pub is_unbroken : String → Bool
is_unbroken String.[] = true
is_unbroken (String.◌∷◌ c line) = not (is_break (code c)) && is_unbroken line

no_break : (n : ℕ) (b : Bool) → (not (is_break n) && b) ≡ true → is_break n ≡ false
no_break n b h = ground arith

no_return : (n : ℕ) (b : Bool) → (not (is_break n) && b) ≡ true → nat_eq n 13 ≡ false
unfolding is_break
no_return n b h = ground arith

later_unbroken : (n : ℕ) (b : Bool) → (not (is_break n) && b) ≡ true → b ≡ true
later_unbroken n b h = ground arith

splitlines_from-end_line :
    (line text : String)
    → is_unbroken line ≡ true
    → splitlines_from false (end_line line text) ≡ line ∷ splitlines_from false text
unfolding splitlines_from is_unbroken push_char is_break
splitlines_from-end_line String.[] text h = refl
splitlines_from-end_line (String.◌∷◌ c line) text h =
    rw
      (
        no_return (code c) (is_unbroken line) h,
        no_break (code c) (is_unbroken line) h,
        splitlines_from-end_line line text (later_unbroken (code c) (is_unbroken line) h),
        push_char,
      )
      refl

first_unbroken : (a b : Bool) → (a && b) ≡ true → (a ≡ true) × (b ≡ true)
first_unbroken a b h = ground arith

pub splitlines-to_text :
    (lines : List String) → all is_unbroken lines ≡ true → splitlines (to_text lines) ≡ lines
unfolding splitlines splitlines_from
splitlines-to_text [] h = refl
splitlines-to_text (line ∷ lines) h =
    let (first, later) = first_unbroken (is_unbroken line) (all is_unbroken lines) h in
    rw (splitlines_from-end_line line (to_text lines) first)
      (ap (λ ls. line ∷ ls) (splitlines-to_text lines later))
