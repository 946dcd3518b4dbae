-- ===== src/Plan/Store/Commit.antt =====
-- scripts/plan_state_store.py: what a call of `cas_advance` that returns has read and written.
use text.Mathlib.Text.{◌==◌}
use text.Mathlib.TextEquality.{eq_iff}
use software_builder.Prelude.{
  ℕ, suc, String, Bool, true, false, none, some, List, [], ◌∷◌, ◌++◌, ◌≡◌, refl, ap, sym, subst,
  arith, all, ltb, length, Bool-cases, Option-cases, inl, inr,
}
use software_builder.Prelude.Dict.{Dict}
use software_builder.Prelude.Json.{
  Json, null, boolean, int, negative, float, string, array, object, Fields, fields,
}
use software_builder.Prelude.Outcome.{Outcome, return, raise, and_then-return}
use software_builder.Prelude.Text.{elem, has_text}
use software_builder.Plan.Reports.{texts, non_empty_str}
use software_builder.Plan.State.{ImplementationPlan, Raised}
use software_builder.Plan.State.Advance.{
  Advanced, advanced, refused, Request, to_fields, sorted_set, advance_plan_execution_state,
}
use software_builder.Plan.State.Writes.{fields-to_fields}
use software_builder.Plan.State.Stamped.{stamped}
use software_builder.Plan.State.Steps.{Reconciled, advance-Reconciled}
use software_builder.Plan.State.Next.{Next, advance-Next}
use software_builder.Plan.Store.{
  Content, json, StoreError, CasCall, max_completed_evidence_refs, with_evidence, durable_refs,
  check_size, committed, current_state, advance_current, proposal, write, cas_advance,
}

-- The references of a valid state have text.
pub ref_text :
    (js : List Json) (d : String)
    → all non_empty_str js ≡ true
    → elem d (texts js) ≡ true
    → has_text d ≡ true
unfolding non_empty_str
ref_text [] d h m = absurd (cc m)
ref_text (null ∷ js) d h m = absurd (cc h)
ref_text (boolean b ∷ js) d h m = absurd (cc h)
ref_text (int n ∷ js) d h m = absurd (cc h)
ref_text (negative n ∷ js) d h m = absurd (cc h)
ref_text (float r ∷ js) d h m = absurd (cc h)
ref_text (array ks ∷ js) d h m = absurd (cc h)
ref_text (object fs ∷ js) d h m = absurd (cc h)
ref_text (string s ∷ js) d h m = elim (Bool-cases (s == d)) [
  | inl same ↦ subst (λ x. has_text x ≡ true) ((eq_iff s d).0 same) (ground (arith, h))
  | inr other ↦ ref_text js d (ground (arith, h)) (rw other at m)
]

module _ (plan : ImplementationPlan) (float_is : String → ℕ → Bool) where
  pub record Committed (r : Request) (expected : ℕ) (c : Content) (n : Dict Json) : Type 0 where
    pub before : Dict Json
    pub read : current_state plan float_is r c ≡ return before
    pub durable : List String
    pub durable_read : durable_refs before ≡ return durable
    pub fits : ltb max_completed_evidence_refs (length (sorted_set (durable ++ r.evidence))) ≡ false
    pub advancing :
        advance_plan_execution_state plan
          (with_evidence r (sorted_set (durable ++ r.evidence)))
          float_is
          expected
          (object (to_fields before))
        ≡ return (advanced n)

  committed-advanced :
      (o : Outcome Raised Advanced) (n : Dict Json)
      → committed o ≡ return n
      → o ≡ return (advanced n)
  unfolding committed
  committed-advanced (return (advanced m)) n h = ap (λ d. return (advanced d)) (cc h)
  committed-advanced (return (refused es)) n h = absurd (cc h)
  committed-advanced (raise e) n h = absurd (cc h)

  check_size-fits :
      (refs kept : List String)
      → check_size refs ≡ return kept
      → (ltb max_completed_evidence_refs (length refs) ≡ false) × (refs ≡ kept)
  unfolding check_size
  check_size-fits refs kept h = elim (Bool-cases (ltb max_completed_evidence_refs (length refs))) [
    | inl over ↦ absurd (cc (rw over at h))
    | inr fits ↦ (fits, cc (rw fits at h))
  ]

  proposal-Committed :
      (r : Request) (expected : ℕ) (c : Content) (n : Dict Json)
      → proposal plan float_is r expected c ≡ return n
      → Committed r expected c n
  unfolding proposal advance_current
  proposal-Committed r expected c n h =
      let (before, read, h) = and_then-return _ (current_state plan float_is r c) h in
      let (durable, durable_read, h) = and_then-return _ (durable_refs before) h in
      let (refs, sized, h) =
        and_then-return _ (check_size (sorted_set (durable ++ r.evidence))) h in
      let (fits, is_refs) = check_size-fits (sorted_set (durable ++ r.evidence)) refs sized in
      record {
        before = before;
        read = read;
        durable = durable;
        durable_read = durable_read;
        fits = fits;
        advancing =
            subst
              (λ rs.
                advance_plan_execution_state plan (with_evidence r rs) float_is expected
                  (object (to_fields before))
                ≡ return (advanced n))
              (sym is_refs) (committed-advanced _ n h);
      }

  -- A call raises and leaves the file, or it returns the state that it has written.
  pub data Result (call : CasCall) (c : Content) : Type 0 where
    refused_call :
        (e : StoreError) → cas_advance plan float_is call c ≡ (c, raise e) → Result call c
    committed_call :
        (n : Dict Json)
        → cas_advance plan float_is call c ≡ (json (object (to_fields n)), return n)
        → Committed call.arguments call.expected_generation c n
        → Result call c

  pub cas_advance-Result : (call : CasCall) (c : Content) → Result call c
  unfolding cas_advance write
  cas_advance-Result call c = elim (Option-cases (call.opening)) [
    | inr (e, opening) ↦ refused_call e (rw (cas_advance, opening) refl)
    | inl opening ↦
        go opening (proposal plan float_is call.arguments call.expected_generation c) refl
  ]
    where
      go :
          call.opening ≡ none
          → (o : Outcome StoreError (Dict Json))
          → proposal plan float_is call.arguments call.expected_generation c ≡ o
          → Result call c
      go opening (raise e) h = refused_call e (rw (cas_advance, opening, h) refl)
      go opening (return n) h =
          committed_call n (rw (cas_advance, opening, h) refl)
            (proposal-Committed call.arguments call.expected_generation c n h)

  module _ (r : Request) (expected : ℕ) (c : Content) (n : Dict Json)
      (commit : Committed r expected c n) where
    abbrev pub arguments : Request
    arguments = with_evidence r (sorted_set (commit.durable ++ r.evidence))

    before_is :
        (fs : Fields) → object (to_fields commit.before) ≡ object fs → fields fs ≡ commit.before
    before_is fs h = cc (h, fields-to_fields commit.before)

    pub Committed-Next : Next plan arguments expected commit.before n
    Committed-Next =
        let (fs, is_object, next) =
          advance-Next plan arguments float_is expected (object (to_fields commit.before)) n
            commit.advancing in
        subst (λ s. Next plan arguments expected s n) (before_is fs is_object) next

    pub Committed-Reconciled :
        (m : Dict Json) × (n ≡ stamped (suc expected) r.updated_at m)
        × Reconciled plan arguments (some expected) commit.before m
    Committed-Reconciled =
        let (fs, is_object, same, (m, n_is, step)) =
          advance-Reconciled plan arguments float_is expected (object (to_fields commit.before)) n
            commit.advancing in
        (
          m,
          n_is,
          subst (λ s. Reconciled plan arguments (some expected) s m) (before_is fs is_object) step,
        )
