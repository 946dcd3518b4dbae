-- ===== src/Plan/Store/Refs.antt =====
-- scripts/plan_state_store.py: the sorted union of the references of evidence.
use text.Mathlib.Text.{◌==◌}
use text.Mathlib.TextEquality.{eq_iff}
use software_builder.Prelude.{
  String, Bool, true, ◌||◌, Option, none, some, List, [], ◌∷◌, ◌++◌, ◌≡◌, refl, ap, ◌∙◌, arith,
  keep,
}
use software_builder.Prelude.Dict.{Dict}
use software_builder.Prelude.Json.{Json, items, get, as_list}
use software_builder.Prelude.Members.{elem_iff, mem-keep}
use software_builder.Prelude.Text.{elem}
use software_builder.Plan.Reports.{texts}
use software_builder.Plan.State.Advance.{insert_text, sorted_set, to_items}

-- The references that a state has.
abbrev pub texts_of : Option (List Json) → List String
texts_of none = []
texts_of (some js) = texts js

abbrev pub refs_of : Dict Json → List String
refs_of s = texts_of (as_list (get "completed_evidence_refs" s))

pub texts-to_items : (ss : List String) → texts (items (to_items ss)) ≡ ss
texts-to_items [] = refl
texts-to_items (s ∷ ss) = ap (λ ts. s ∷ ts) (texts-to_items ss)

elem-insert_text :
    (x s : String) (ts : List String) → elem x (insert_text s ts) ≡ (s == x || elem x ts)
unfolding insert_text
elem-insert_text x s [] = refl
elem-insert_text x s (t ∷ ts) =
    ground (arith, elem-insert_text x s ts, eq_iff s t, eq_iff s x, eq_iff t x)

pub elem-sorted_set : (x : String) (ss : List String) → elem x (sorted_set ss) ≡ elem x ss
unfolding sorted_set
elem-sorted_set x [] = refl
elem-sorted_set x (s ∷ ss) =
    elem-insert_text x s (sorted_set ss) ∙ ap (λ b. s == x || b) (elem-sorted_set x ss)

pub elem-append : (x : String) (ss ts : List String) → elem x (ss ++ ts) ≡ (elem x ss || elem x ts)
elem-append x [] ts = refl
elem-append x (s ∷ ss) ts = ground (arith, elem-append x ss ts)

pub elem-keep :
    (p : String → Bool) (x : String) (ss : List String)
    → elem x ss ≡ true
    → p x ≡ true
    → elem x (keep p ss) ≡ true
elem-keep p x ss m h = (elem_iff x (keep p ss)).1 ((mem-keep p x ss).1 ((elem_iff x ss).0 m, h))
