-- ===== src/Lifecycle/Tests.antt =====
-- skills/loop-task-implementer/scripts/validate_loop_lifecycle.py: the values that pass the tests of the
-- gate.
use text.Mathlib.TextEquality.{eq_iff}
use software_builder.Prelude.{String, Bool, true, false, not, [], ◌≡◌, refl, ap, arith}
use software_builder.Prelude.Json.{Json, null, boolean, int, negative, float, string, array, object}
use software_builder.Lifecycle.{require, text_is, is_true, is_false, is_zero}

pub require-nil {ℓ} : {E : Type ℓ} (b : Bool) (e : E) → require b e ≡ [] → b ≡ true
require-nil true e h = refl
require-nil false e h = absurd (cc h)

pub text_is-string : (t : String) (j : Json) → text_is t j ≡ true → j ≡ string t
text_is-string t null h = absurd (cc h)
text_is-string t (boolean b) h = absurd (cc h)
text_is-string t (int n) h = absurd (cc h)
text_is-string t (negative n) h = absurd (cc h)
text_is-string t (float r) h = absurd (cc h)
text_is-string t (string s) h = ap string ((eq_iff s t).0 h)
text_is-string t (array js) h = absurd (cc h)
text_is-string t (object fs) h = absurd (cc h)

pub is_true-boolean : (j : Json) → is_true j ≡ true → j ≡ boolean true
is_true-boolean null h = absurd (cc h)
is_true-boolean (boolean b) h = ap boolean h
is_true-boolean (int n) h = absurd (cc h)
is_true-boolean (negative n) h = absurd (cc h)
is_true-boolean (float r) h = absurd (cc h)
is_true-boolean (string s) h = absurd (cc h)
is_true-boolean (array js) h = absurd (cc h)
is_true-boolean (object fs) h = absurd (cc h)

pub is_false-boolean : (j : Json) → is_false j ≡ true → j ≡ boolean false
is_false-boolean null h = absurd (cc h)
is_false-boolean (boolean b) h = ap boolean (ground (arith, h))
is_false-boolean (int n) h = absurd (cc h)
is_false-boolean (negative n) h = absurd (cc h)
is_false-boolean (float r) h = absurd (cc h)
is_false-boolean (string s) h = absurd (cc h)
is_false-boolean (array js) h = absurd (cc h)
is_false-boolean (object fs) h = absurd (cc h)

pub is_zero-int : (j : Json) → is_zero j ≡ true → j ≡ int 0
is_zero-int null h = absurd (cc h)
is_zero-int (boolean b) h = absurd (cc h)
is_zero-int (int n) h = ap int (ground (arith, h))
is_zero-int (negative n) h = absurd (cc h)
is_zero-int (float r) h = absurd (cc h)
is_zero-int (string s) h = absurd (cc h)
is_zero-int (array js) h = absurd (cc h)
is_zero-int (object fs) h = absurd (cc h)

pub negated : (b : Bool) → not b ≡ true → b ≡ false
negated true h = absurd (cc h)
negated false h = refl
