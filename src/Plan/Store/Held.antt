-- ===== src/Plan/Store/Held.antt =====
-- scripts/plan_state_store.py: what the file holds before and after a call of `cas_advance` that
-- returns.
use software_builder.Prelude.{
  ℕ, suc, String, Bool, true, ◌||◌, Option, none, some, List, [], ◌++◌, ◌≡◌, refl, ap, sym, ◌∙◌,
  subst, all, keep, Bool-cases, inl, inr, ◌⊎◌, Option-cases,
}
use software_builder.Prelude.Dict.{Dict, lookup}
use software_builder.Prelude.Json.{Json, int, object, array, get, as_mapping, as_list}
use software_builder.Prelude.Outcome.{Outcome, return}
use software_builder.Prelude.Text.{elem, has_text}
use software_builder.Plan.Reports.{non_empty_str}
use software_builder.Plan.Selection.{TaskStatus}
use software_builder.Plan.State.{ImplementationPlan, bad_updated_at, bad_refs}
use software_builder.Plan.State.Checks.{check_refs}
use software_builder.Plan.State.Advance.{Request, to_fields, to_items, sorted_set, normalize}
use software_builder.Plan.State.Writes.{fields-to_fields, get-written, get-kept, refuse-nil}
use software_builder.Plan.State.Stamped.{get-stamped}
use software_builder.Plan.Store.{
  Content, absent, not_json, json, StoreError, with_evidence, durable_refs, current_state,
  initial_plan_execution_state, parse_state_file, well_formed, all_texts,
}
use software_builder.Plan.Store.Refs.{
  refs_of, texts_of, texts-to_items, elem-sorted_set, elem-append, elem-keep,
}
use software_builder.Plan.Store.Commit.{Committed, ref_text, Committed-Next, Committed-Reconciled}

-- The state that the file holds, if any, its generation and its references.
abbrev pub state_in : Content → Option (Dict Json)
state_in (json j) = as_mapping j
state_in _ = none

abbrev pub generation_of : Json → ℕ
generation_of (int n) = n
generation_of _ = 0

abbrev pub generation_of_state : Option (Dict Json) → ℕ
generation_of_state none = 0
generation_of_state (some s) = generation_of (get "state_generation" s)

abbrev pub generation_in : Content → ℕ
generation_in c = generation_of_state (state_in c)

abbrev pub refs_in_state : Option (Dict Json) → List String
refs_in_state none = []
refs_in_state (some s) = refs_of s

abbrev pub refs_in : Content → List String
refs_in c = refs_in_state (state_in c)

parse_state_file-mapping :
    (j : Json) (s : Dict Json) → parse_state_file j ≡ return s → as_mapping j ≡ some s
unfolding parse_state_file
parse_state_file-mapping j s h = elim (Option-cases (as_mapping j)) [
  | inl other ↦ absurd (cc (rw (parse_state_file, other) at h))
  | inr (fs, mapping) ↦ elim (Bool-cases (well_formed fs)) [
    | inl good ↦ mapping ∙ ap some (cc (rw (parse_state_file, mapping, good) at h))
    | inr bad ↦ absurd (cc (rw (parse_state_file, mapping, bad) at h))
  ]
]

durable_refs-refs_of :
    (s : Dict Json) (durable : List String) → durable_refs s ≡ return durable → refs_of s ≡ durable
unfolding durable_refs
durable_refs-refs_of s durable h = elim (Option-cases (as_list (get "completed_evidence_refs" s))) [
  | inl other ↦ absurd (cc (rw (durable_refs, other) at h))
  | inr (js, listed) ↦ elim (Bool-cases (all_texts js)) [
    | inl good ↦ rw listed (cc (rw (durable_refs, listed, good) at h))
    | inr bad ↦ absurd (cc (rw (durable_refs, listed, bad) at h))
  ]
]

refs_of-text :
    (s : Dict Json) (d : String)
    → check_refs (get "completed_evidence_refs" s) ≡ []
    → elem d (refs_of s) ≡ true
    → has_text d ≡ true
refs_of-text s d h m = go (as_list (get "completed_evidence_refs" s)) refl
  where
    go :
        (o : Option (List Json)) → as_list (get "completed_evidence_refs" s) ≡ o → has_text d ≡ true
    go none e = absurd (cc (subst (λ o. elem d (texts_of o) ≡ true) e m))
    go (some js) e =
        ref_text js d (refuse-nil (all non_empty_str js) bad_refs (rw (check_refs, e) at h))
          (subst (λ o. elem d (texts_of o) ≡ true) e m)

refs_of-normalize :
    (plan : ImplementationPlan) (r : Request) (s : Dict Json) (d : Dict TaskStatus)
    (c a ts : Dict Json)
    → get "completed_evidence_refs" (normalize plan r s d c a ts)
      ≡ array (to_items (sorted_set (keep has_text r.evidence)))
unfolding normalize
refs_of-normalize plan r s d c a ts =
    get-kept "comment_threads" "completed_evidence_refs" _ _ refl
    ∙ get-kept "final_check_attempts" "completed_evidence_refs" _ _ refl
    ∙ get-kept "clarifications" "completed_evidence_refs" _ _ refl
    ∙ get-kept "blocked_reason" "completed_evidence_refs" _ _ refl
    ∙ get-kept "observed_head_revision" "completed_evidence_refs" _ _ refl
    ∙ get-written "completed_evidence_refs" _ _

return-eq : {a b : Dict Json} → Path (Outcome StoreError (Dict Json)) (return a) (return b) → a ≡ b
return-eq h = cc h

module _ (plan : ImplementationPlan) (float_is : String → ℕ → Bool) where
  module _ (r : Request) (expected : ℕ) (c : Content) (n : Dict Json)
      (commit : Committed plan float_is r expected c n) where
    pub state-before :
        (state_in c ≡ some commit.before)
        ⊎ ((state_in c ≡ none) × (get "state_generation" commit.before ≡ int 0))
    unfolding current_state initial_plan_execution_state get lookup
    state-before = go c commit.read
      where
        go :
            (c : Content)
            → current_state plan float_is r c ≡ return commit.before
            → (state_in c ≡ some commit.before)
              ⊎ ((state_in c ≡ none) × (get "state_generation" commit.before ≡ int 0))
        go absent h = elim (Option-cases (plan.digest)) [
          | inl unknown ↦
              absurd (cc (rw (current_state, initial_plan_execution_state, unknown) at h))
          | inr (d, known) ↦ inr (
            refl,
            ap (get "state_generation")
                (sym (return-eq (rw (current_state, initial_plan_execution_state, known) at h))),
          )
        ]
        go not_json h = absurd (cc h)
        go (json j) h = inl (parse_state_file-mapping j commit.before h)

    pub refs-after : (d : String) → elem d (refs_in c) ≡ true → elem d (refs_of n) ≡ true
    refs-after d m = elim state-before [
      | inr (empty_file, _) ↦
          absurd (cc (subst (λ o. elem d (refs_in_state o) ≡ true) empty_file m))
      | inl held ↦
          let (k, n_is, step) = Committed-Reconciled plan float_is r expected c n commit in
          let was = subst (λ o. elem d (refs_in_state o) ≡ true) held m in
          let refs = sorted_set (commit.durable ++ r.evidence) in
          let written =
            ap (get "completed_evidence_refs") n_is
            ∙ get-stamped "completed_evidence_refs" (suc expected) r.updated_at k refl refl
            ∙ ap (get "completed_evidence_refs") step.normal
            ∙ refs_of-normalize plan (with_evidence r refs) commit.before step.statuses
                step.clarifications step.attempts step.threads in
          let merged =
            elem-sorted_set d (commit.durable ++ r.evidence)
            ∙ elem-append d commit.durable r.evidence
            ∙ ap (λ b. b || elem d r.evidence)
                (ap (elem d)
                    (sym (durable_refs-refs_of commit.before commit.durable commit.durable_read))
                  ∙ was) in
          ap (λ j. elem d (texts_of (as_list j))) written
          ∙ ap (elem d) (texts-to_items (sorted_set (keep has_text refs)))
          ∙ elem-sorted_set d (keep has_text refs)
          ∙ elem-keep has_text d refs merged (refs_of-text commit.before d step.from.refs was)
    ]

    pub generation-after :
        (expected ≡ generation_in c) × (generation_in (json (object (to_fields n))) ≡ suc expected)
    generation-after =
        let next = Committed-Next plan float_is r expected c n commit in
        (
          elim state-before [
            | inl held ↦ sym (ap generation_of_state held ∙ ap generation_of next.generation_before)
            | inr (empty_file, first) ↦ sym (
                ap generation_of_state empty_file
                ∙ ap generation_of (sym first ∙ next.generation_before))
          ],
          ap (λ s. generation_of (get "state_generation" s)) (fields-to_fields n)
              ∙ ap generation_of next.generation_after,
        )

    pub time-before : non_empty_str (get "updated_at" commit.before) ≡ true
    time-before =
        let (m, n_is, step) = Committed-Reconciled plan float_is r expected c n commit in
        refuse-nil (non_empty_str (get "updated_at" commit.before)) bad_updated_at step.from.updated
