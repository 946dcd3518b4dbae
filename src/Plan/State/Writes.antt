-- ===== src/Plan/State/Writes.antt =====
-- Reads of a JSON object after a write, for the state of a plan's execution.
use text.Mathlib.Text.{◌==◌}
use text.Mathlib.TextEquality.{eq_iff}
use software_builder.Prelude.{
  String, Bool, true, false, not, [], ◌∷◌, ◌≡◌, refl, ap, Bool-cases, inl, inr,
}
use software_builder.Prelude.Dict.{Dict, insert, lookup-insert}
use software_builder.Prelude.Json.{Json, fields, get, keys}
use software_builder.Prelude.Text.{elem}
use software_builder.Plan.State.{StateError, refuse}
use software_builder.Plan.State.Advance.{to_fields}

pub fields-to_fields : (d : Dict Json) → fields (to_fields d) ≡ d
fields-to_fields [] = refl
fields-to_fields ((k, j) ∷ d) = ap (λ e. (k, j) ∷ e) (fields-to_fields d)

pub get-written : (k : String) (v : Json) (d : Dict Json) → get k (insert k v d) ≡ v
unfolding get
get-written k v d = rw (get, lookup-insert k k v d, (eq_iff k k).1 refl) refl

pub get-kept :
    (k j : String) (v : Json) (d : Dict Json) → (k == j) ≡ false → get j (insert k v d) ≡ get j d
unfolding get
get-kept k j v d other = rw (get, lookup-insert k j v d, other) refl

pub keys-insert :
    (k : String) (v : Json) (d : Dict Json) → elem k (keys d) ≡ true → keys (insert k v d) ≡ keys d
unfolding insert
keys-insert k v [] h = absurd (cc h)
keys-insert k v ((j, w) ∷ d) h = elim (Bool-cases (j == k)) [
  | inl same ↦ rw (same) refl
  | inr other ↦ rw (other) (ap (λ ks. j ∷ ks) (keys-insert k v d (rw other at h)))
]

pub refuse-nil : (b : Bool) (e : StateError) → refuse (not b) e ≡ [] → b ≡ true
refuse-nil true e h = refl
refuse-nil false e h = absurd (cc h)
