-- ===== src/Resume/Trailer.antt =====
-- scripts/builder_resume.py, `parse_checkpoint_marker`: reading a trailer back.
use text.Mathlib.TextEquality.{eq_iff}
use text.Mathlib.TextLemmas.{nil-append, cons-append}
use text.Mathlib.Text.{◌==◌}
use software_builder.Prelude.{
  String, ◌≡◌, refl, ◌≢◌, inl, inr, false, some, List, [], ◌∷◌, ◌++◌, arith, get_last?,
  Option-cases, Bool-cases,
}
use software_builder.Prelude.Text.{is_space, split_lines, append, code}
use software_builder.Prelude.Text.Lines.{
  strip_prefix-append, split_lines-append, NoNewline, NoNewline-append, split_lines-NoNewline,
}
use software_builder.Resume.{
  drop_blanks, take_token, match_trailer, find_trailers, parse_checkpoint_marker,
}

abbrev pub NoSpace : String → Type 0
NoSpace String.[] = Unit
NoSpace (String.◌∷◌ c s) = (is_space (code c) ≡ false) × NoSpace s

-- The text of a trailer: one word.
pub record IsToken (s : String) : Type 0 where
  pub no_space : NoSpace s
  pub not_empty : s ≢ ""

take_token-NoSpace : (s : String) → NoSpace s → take_token s ≡ (s, "")
unfolding take_token
take_token-NoSpace String.[] h = refl
take_token-NoSpace (String.◌∷◌ c s) h = rw (take_token-NoSpace s h.1, h.0)

drop_blanks-NoSpace : (s : String) → NoSpace s → drop_blanks s ≡ s
unfolding drop_blanks is_space
drop_blanks-NoSpace String.[] h = refl
drop_blanks-NoSpace (String.◌∷◌ c s) h = ground (arith, h.0)

drop_blanks-space : (s : String) → drop_blanks (append " " s) ≡ drop_blanks s
unfolding drop_blanks
drop_blanks-space s = rw (cons-append, nil-append)

not_eq : (s : String) → s ≢ "" → (s == "") ≡ false
not_eq s h = elim (Bool-cases (s == "")) [ inl e ↦ absurd (h ((eq_iff s "").0 e)) | inr e ↦ e ]

match_trailer-token :
    (s : String) → IsToken s → match_trailer (append "Checkpoint:" (append " " s)) ≡ some s
unfolding match_trailer
match_trailer-token s h =
    rw (strip_prefix-append "Checkpoint:" (append " " s), match_trailer)
      (rw (
        drop_blanks-space s,
        drop_blanks-NoSpace s h.no_space,
        take_token-NoSpace s h.no_space,
        drop_blanks-NoSpace "" tt,
        not_eq s h.not_empty,
      ))

NoSpace-NoNewline : (s : String) → NoSpace s → NoNewline s
unfolding is_space
NoSpace-NoNewline String.[] h = tt
NoSpace-NoNewline (String.◌∷◌ c s) h = (ground (arith, h.0), NoSpace-NoNewline s h.1)

get_last?-append_right :
    (xs ys : List String) (y : String) → get_last? ys ≡ some y → get_last? (xs ++ ys) ≡ some y
get_last?-append_right [] ys y h = h
get_last?-append_right (x ∷ []) [] y h = cc
get_last?-append_right (x ∷ []) (z ∷ ys) y h = h
get_last?-append_right (x ∷ w ∷ xs) ys y h = get_last?-append_right (w ∷ xs) ys y h

find_trailers-append :
    (xs ys : List String) → find_trailers (xs ++ ys) ≡ find_trailers xs ++ find_trailers ys
unfolding find_trailers
find_trailers-append [] ys = refl
find_trailers-append (x ∷ xs) ys = elim (Option-cases (match_trailer x)) [
  | inl e ↦ rw (e, find_trailers, find_trailers-append xs ys)
  | inr (token, e) ↦ rw (e, find_trailers, find_trailers-append xs ys)
]

-- A message whose last line is `Checkpoint: <token>` has that token for its marker, whatever
-- trailers stand above.
pub parse_checkpoint_marker-trailer :
    (body token : String)
    → IsToken token
    → parse_checkpoint_marker (append body (append "\n" (append "Checkpoint:" (append " " token))))
      ≡ some token
unfolding parse_checkpoint_marker find_trailers
parse_checkpoint_marker-trailer body token h =
    rw (split_lines-append body _, find_trailers-append (split_lines body) _)
      (get_last?-append_right (find_trailers (split_lines body)) _ token last_line)
  where
    line : String
    line = append "Checkpoint:" (append " " token)

    no_newline : NoNewline line
    no_newline =
        NoNewline-append "Checkpoint:" (append " " token) (ground arith)
          (NoNewline-append " " token (ground arith) (NoSpace-NoNewline token h.no_space))

    last_line : get_last? (find_trailers (split_lines line)) ≡ some token
    last_line =
        rw (split_lines-NoNewline line no_newline) (rw (match_trailer-token token h, find_trailers))
