-- ===== src/Plan/State/Found.antt =====
-- scripts/implementation_plan.py: what the checks of a state say of its fields, and the statuses that
-- are made from the official ones.
use text.Mathlib.Text.{◌==◌}
use text.Mathlib.TextEquality.{eq_iff}
use software_builder.Prelude.{
  ℕ, String, Bool, true, ◌&&◌, Option, none, some, List, [], ◌∷◌, map, ◌≡◌, refl, ap, ◌∙◌, subst,
  arith, is_empty, keep-nil_iff, Bool-cases, inl, inr,
}
use software_builder.Prelude.Dict.{Dict, lookup}
use software_builder.Prelude.Json.{
  Json, null, boolean, int, negative, float, string, array, object, fields, get, keys,
}
use software_builder.Prelude.Members.{elem_iff, all_iff}
use software_builder.Prelude.Outcome.{return, and_then-return}
use software_builder.Prelude.Text.{elem}
use software_builder.Plan.Reports.{without}
use software_builder.Plan.Selection.{TaskStatus, official}
use software_builder.Plan.State.{is_text, status_text}
use software_builder.Plan.State.Checks.{
  check_digest, check_generation, check_statuses, check_head, same_set, all_values, is_status,
}
use software_builder.Plan.State.Advance.{in_text, statuses_keys, official_statuses, equals}
use software_builder.Plan.State.Writes.{refuse-nil}

-- The status that a state has for a task.
pub text_is : (t : String) (j : Json) → is_text t j ≡ true → j ≡ string t
text_is t null h = absurd (cc h)
text_is t (boolean b) h = absurd (cc h)
text_is t (int n) h = absurd (cc h)
text_is t (negative n) h = absurd (cc h)
text_is t (float r) h = absurd (cc h)
text_is t (string s) h = ap string ((eq_iff s t).0 h)
text_is t (array js) h = absurd (cc h)
text_is t (object fs) h = absurd (cc h)

pub digest_is :
    (o : Option String) (j : Json)
    → check_digest o j ≡ []
    → (d : String) × (o ≡ some d) × (j ≡ string d)
digest_is none j h = absurd (cc h)
digest_is (some d) j h = (d, refl, text_is d j (refuse-nil (is_text d j) _ h))

pub head_is :
    (h : String) (o : Option String) (j : Json) → check_head o j ≡ [] → o ≡ some h → j ≡ string h
head_is h none j c e = absurd (cc e)
head_is h (some g) j c e = text_is g j (refuse-nil (is_text g j) _ c) ∙ ap string (cc e)

pub generation_is :
    (float_is : String → ℕ → Bool) (e : ℕ) (j : Json)
    → check_generation (some e) j ≡ []
    → equals float_is j e ≡ true
    → j ≡ int e
unfolding equals
generation_is float_is e null c h = absurd (cc c)
generation_is float_is e (boolean b) c h = absurd (cc c)
generation_is float_is e (int n) c h = ap int (ground (arith, h))
generation_is float_is e (negative n) c h = absurd (cc c)
generation_is float_is e (float r) c h = absurd (cc c)
generation_is float_is e (string s) c h = absurd (cc c)
generation_is float_is e (array js) c h = absurd (cc c)
generation_is float_is e (object fs) c h = absurd (cc c)

empty_is : (xs : List String) → is_empty xs ≡ true → xs ≡ []
empty_is [] h = refl
empty_is (x ∷ xs) h = absurd (cc h)

-- A valid state has a status for every task of the plan.
pub covered :
    (ids tasks : List String) (j : Json) (t : String)
    → check_statuses ids j ≡ []
    → statuses_keys j ≡ return tasks
    → elem t ids ≡ true
    → elem t tasks ≡ true
covered ids tasks null t c k m = absurd (cc c)
covered ids tasks (boolean b) t c k m = absurd (cc c)
covered ids tasks (int n) t c k m = absurd (cc c)
covered ids tasks (negative n) t c k m = absurd (cc c)
covered ids tasks (float r) t c k m = absurd (cc c)
covered ids tasks (string s) t c k m = absurd (cc c)
covered ids tasks (array js) t c k m = absurd (cc c)
covered ids tasks (object fs) t c k m =
    let valid = refuse-nil (same_set (keys (fields fs)) ids && all_values is_status fs) _ c in
    subst (λ ks. elem t ks ≡ true) (cc k)
      ((all_iff (λ x. elem x (keys (fields fs))) ids).0
        ((keep-nil_iff (λ x. elem x (keys (fields fs))) ids).0
          (empty_is (without ids (keys (fields fs))) (ground (arith, valid))))
        t ((elem_iff t ids).0 m))

-- The task's official status is the one that the statuses have for it.
abbrev pub Found : Dict String → String → Dict TaskStatus → Type 0
Found given t d =
    (st : TaskStatus) × (official given t ≡ some st)
    × (get t (map in_text d) ≡ string (status_text st))

pub official_statuses-Found :
    (given : Dict String) (ks : List String) (d : Dict TaskStatus) (t : String)
    → official_statuses given ks ≡ return d
    → elem t ks ≡ true
    → Found given t d
unfolding official_statuses get lookup
official_statuses-Found given [] d t h m = absurd (cc m)
official_statuses-Found given (k ∷ ks) d t h m =
    go (official given k) refl (λ later. official_statuses-Found given ks later t)
  where
    go :
        (o : Option TaskStatus)
        → official given k ≡ o
        → ((later : Dict TaskStatus)
            → official_statuses given ks ≡ return later
            → elem t ks ≡ true
            → Found given t later)
        → Found given t d
    go none e rest = absurd (cc (rw (official_statuses, e) at h))
    go (some st) e rest =
        let (later, ok, done) =
          and_then-return _ (official_statuses given ks) (rw (official_statuses, e) at h) in
        let is_d : (k, st) ∷ later ≡ d = cc done in
        subst (Found given t) is_d (elim (Bool-cases (k == t)) [
          | inl same ↦ (
            st,
            subst (λ x. official given x ≡ some st) ((eq_iff k t).0 same) e,
            rw (get, same) refl,
          )
          | inr other ↦
              let (later_st, found, written) = rest later ok (rw other at m) in
              (later_st, found, rw (get, other) written)
        ])
