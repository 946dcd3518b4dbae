-- ===== src/Prelude/Text/Lines.antt =====
-- The lines of a text that is put together from parts.
use text.Mathlib.TextLemmas.{nil-append, cons-append}
use software_builder.Prelude.Tests.{Bool-cases, nat_eq}
use Prim.Native.String.{String}
use mathlib.Core.Path.{◌≡◌, refl}
use mathlib.Core.Bool.{false}
use mathlib.Core.Logic.{inl, inr}
use mathlib.Core.List.{List, [], ◌∷◌, ◌++◌}
use native.Mathlib.Omega.{arith}
use mathlib.Core.Option.{some}
use software_builder.Prelude.Text.{split_lines, strip_prefix, push_line, append, Char, code}

-- A text has a first line.
split_lines-cons : (s : String) → (l : String) × (ls : List String) × (split_lines s ≡ l ∷ ls)
unfolding split_lines
split_lines-cons String.[] = ("", [], refl)
split_lines-cons (String.◌∷◌ c s) =
    let (l, ls, e) = split_lines-cons s in
    elim (Bool-cases (nat_eq (code c) 10)) [
      | inl newline ↦ ("", split_lines s, rw newline)
      | inr other ↦ (String.◌∷◌ c l, ls, rw (other, e))
    ]

push_line-append :
    (c : Char) (s : String) (ls : List String)
    → push_line c (split_lines s ++ ls) ≡ push_line c (split_lines s) ++ ls
unfolding push_line
push_line-append c s ls = let (l, rest, e) = split_lines-cons s in rw (e, push_line)

-- A newline between two texts puts the lines of the one before those of the other.
pub split_lines-append :
    (s t : String) → split_lines (append s (append "\n" t)) ≡ split_lines s ++ split_lines t
unfolding split_lines
split_lines-append String.[] t = rw (nil-append, cons-append, nil-append)
split_lines-append (String.◌∷◌ c s) t = rw (cons-append) (elim (Bool-cases (nat_eq (code c) 10)) [
  | inl newline ↦ rw (newline, split_lines-append s t)
  | inr other ↦ rw (other, split_lines-append s t) (push_line-append c s (split_lines t))
])

pub strip_prefix-append : (p s : String) → strip_prefix p (append p s) ≡ some s
unfolding strip_prefix
strip_prefix-append String.[] s = rw nil-append
strip_prefix-append (String.◌∷◌ c p) s = rw cons-append (ground (arith, strip_prefix-append p s))

abbrev pub NoNewline : String → Type 0
NoNewline String.[] = Unit
NoNewline (String.◌∷◌ c s) = (nat_eq (code c) 10 ≡ false) × NoNewline s

pub NoNewline-append : (s t : String) → NoNewline s → NoNewline t → NoNewline (append s t)
NoNewline-append String.[] t hs ht = rw nil-append ht
NoNewline-append (String.◌∷◌ c s) t hs ht = rw cons-append (hs.0, NoNewline-append s t hs.1 ht)

pub split_lines-NoNewline : (s : String) → NoNewline s → split_lines s ≡ s ∷ []
unfolding split_lines push_line
split_lines-NoNewline String.[] h = refl
split_lines-NoNewline (String.◌∷◌ c s) h = rw (split_lines-NoNewline s h.1, h.0)
