-- ===== src/Plan/State/Stamped.antt =====
-- scripts/implementation_plan.py: what of the check of a state depends on its generation and its time.
use mathlib.Core.List.{append-nil}
use text.Mathlib.Text.{◌==◌}
use software_builder.Prelude.{
  join-nil, ℕ, suc, String, true, false, not, Option, none, some, List, [], ◌∷◌, ◌≡◌, refl, ap, ◌∙◌,
  arith, all, map, keep-nil_iff,
}
use software_builder.Prelude.Dict.{Dict, insert}
use software_builder.Prelude.Json.{Json, int, string, get, keys}
use software_builder.Prelude.Text.{elem, has_text}
use software_builder.Plan.Reports.{without, non_empty_str}
use software_builder.Plan.State.{
  ImplementationPlan, refuse, state_fields, invalid_plan, missing, other_plan_id, other_repo,
  bad_clarifications, bad_updated_at, is_text,
}
use software_builder.Plan.State.Checks.{
  undeclared_fields, missing_fields, report_names, check_schema_version, check_digest,
  check_generation, check_statuses, check_official, check_head, check_refs, is_mapping,
  check_attempts, check_threads, check_known, check_current, state_errors, sections,
}
use software_builder.Plan.State.Writes.{get-written, get-kept, keys-insert}

-- No check of the state reports anything.
pub record Clean (plan : ImplementationPlan) (head : Option String) (minimum : Option ℕ)
    (s : Dict Json) : Type 0 where
  pub plan_errors : map invalid_plan plan.errors ≡ []
  pub declared : undeclared_fields (keys s) ≡ []
  pub complete : missing_fields (keys s) ≡ []
  pub schema : check_schema_version (get "schema_version" s) ≡ []
  pub plan_id : refuse (not (is_text plan.plan_id (get "plan_id" s))) other_plan_id ≡ []
  pub digest : check_digest plan.digest (get "plan_digest" s) ≡ []
  pub repo : refuse (not (is_text plan.target_repo (get "target_repo" s))) other_repo ≡ []
  pub generation : check_generation minimum (get "state_generation" s) ≡ []
  pub statuses : check_statuses plan.task_ids (get "task_statuses" s) ≡ []
  pub head_seen : check_head head (get "observed_head_revision" s) ≡ []
  pub refs : check_refs (get "completed_evidence_refs" s) ≡ []
  pub clarified : refuse (not (is_mapping (get "clarifications" s))) bad_clarifications ≡ []
  pub attempts : check_attempts (get "final_check_attempts" s) ≡ []
  pub threads : check_threads (get "comment_threads" s) ≡ []
  pub known : check_known plan.task_ids (get "current_task_id" s) ≡ []
  pub current : check_current (get "task_statuses" s) (get "current_task_id" s) ≡ []
  pub updated : refuse (not (non_empty_str (get "updated_at" s))) bad_updated_at ≡ []

module _ (plan : ImplementationPlan) (head : Option String) (minimum : Option ℕ) where
  pub state_errors-Clean :
      (s : Dict Json) → state_errors plan head minimum none s ≡ [] → Clean plan head minimum s
  unfolding state_errors check_official
  state_errors-Clean s h =
      let (
        plan_errors,
        (
          declared,
          (
            complete,
            (
              schema,
              (
                plan_id,
                (
                  digest,
                  (
                    repo,
                    (
                      generation,
                      (
                        statuses,
                        (
                          official,
                          (
                            head_seen,
                            (
                              refs,
                              (clarified, (attempts, (threads, (known, (current, (updated, _)))))),
                            ),
                          ),
                        ),
                      ),
                    ),
                  ),
                ),
              ),
            ),
          ),
        ),
      ) =
        join-nil (sections plan head minimum none s) h in
      record {
        plan_errors = plan_errors;
        declared = declared;
        complete = complete;
        schema = schema;
        plan_id = plan_id;
        digest = digest;
        repo = repo;
        generation = generation;
        statuses = statuses;
        head_seen = head_seen;
        refs = refs;
        clarified = clarified;
        attempts = attempts;
        threads = threads;
        known = known;
        current = current;
        updated = updated;
      }

abbrev pub stamped : ℕ → String → Dict Json → Dict Json
stamped g u n = insert "updated_at" (string u) (insert "state_generation" (int g) n)

pub get-stamped :
    (j : String) (g : ℕ) (u : String) (n : Dict Json)
    → ("updated_at" == j) ≡ false
    → ("state_generation" == j) ≡ false
    → get j (stamped g u n) ≡ get j n
get-stamped j g u n a b = get-kept "updated_at" j _ _ a ∙ get-kept "state_generation" j _ n b

has_fields : (ks : List String) → missing_fields ks ≡ [] → all (λ k. elem k ks) state_fields ≡ true
unfolding missing_fields
has_fields ks h =
    (keep-nil_iff (λ k. elem k ks) state_fields).0 (none_missing (without state_fields ks) h)
  where
    none_missing : (ks : List String) → report_names missing ks ≡ [] → ks ≡ []
    none_missing [] e = refl
    none_missing (k ∷ ks) e = absurd (cc e)

keys-stamped :
    (g : ℕ) (u : String) (n : Dict Json)
    → elem "state_generation" (keys n) ≡ true
    → elem "updated_at" (keys n) ≡ true
    → keys (stamped g u n) ≡ keys n
keys-stamped g u n generation updated =
    let kept = keys-insert "state_generation" (int g) n generation in
    keys-insert "updated_at" (string u) (insert "state_generation" (int g) n)
      (ap (λ ks. elem "updated_at" ks) kept ∙ updated)
    ∙ kept

same_generation : (e : ℕ) → check_generation (some (suc e)) (int (suc e)) ≡ []
same_generation e = ground arith

module _ (plan : ImplementationPlan) (head : Option String) (e : ℕ) (u : String)
    (n : Dict Json) where
  keys-Clean : Clean plan head (some e) n → keys (stamped (suc e) u n) ≡ keys n
  keys-Clean c =
      let found = has_fields (keys n) c.complete in
      keys-stamped (suc e) u n (ground (arith, found)) (ground (arith, found))

  -- A state with no errors has, one generation on and with another time, the error of that time alone.
  pub state_errors-stamped :
      Clean plan head (some e) n
      → state_errors plan head (some (suc e)) none (stamped (suc e) u n)
        ≡ refuse (not (has_text u)) bad_updated_at
  unfolding state_errors check_official non_empty_str
  state_errors-stamped c =
      rw
        (
          keys-Clean c,
          get-stamped "schema_version" (suc e) u n refl refl,
          get-stamped "plan_id" (suc e) u n refl refl,
          get-stamped "plan_digest" (suc e) u n refl refl,
          get-stamped "target_repo" (suc e) u n refl refl,
          get-kept "updated_at" "state_generation" (string u)
              (insert "state_generation" (int (suc e)) n) refl,
          get-written "state_generation" (int (suc e)) n,
          get-stamped "task_statuses" (suc e) u n refl refl,
          get-stamped "observed_head_revision" (suc e) u n refl refl,
          get-stamped "completed_evidence_refs" (suc e) u n refl refl,
          get-stamped "clarifications" (suc e) u n refl refl,
          get-stamped "final_check_attempts" (suc e) u n refl refl,
          get-stamped "comment_threads" (suc e) u n refl refl,
          get-stamped "current_task_id" (suc e) u n refl refl,
          get-written "updated_at" (string u) (insert "state_generation" (int (suc e)) n),
        )
        (rw
          (
            c.plan_errors,
            c.declared,
            c.complete,
            c.schema,
            c.plan_id,
            c.digest,
            c.repo,
            same_generation e,
            c.statuses,
            c.head_seen,
            c.refs,
            c.clarified,
            c.attempts,
            c.threads,
            c.known,
            c.current,
          )
          (append-nil (refuse (not (has_text u)) bad_updated_at)))
