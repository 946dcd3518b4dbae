-- ===== src/Plan/Store/Calls.antt =====
-- scripts/plan_state_store.py: the file over a sequence of calls of `cas_advance`, from several
-- processes or one.
use software_builder.Prelude.{
  ℕ, suc, ◌+◌, ◌<◌, String, Bool, true, false, List, [], ◌∷◌, ◌≡◌, refl, ap, sym, ◌∙◌, subst, arith,
  inl, inr, if◌then◌else◌,
}
use software_builder.Prelude.Dict.{Dict}
use software_builder.Prelude.Json.{Json, string, object, get}
use software_builder.Prelude.Outcome.{Outcome, return, raise}
use software_builder.Prelude.Text.{elem, has_text}
use software_builder.Plan.Reports.{non_empty_str}
use software_builder.Plan.State.{ImplementationPlan}
use software_builder.Plan.State.Advance.{to_fields}
use software_builder.Plan.State.Writes.{fields-to_fields, get-written}
use software_builder.Plan.Store.{Content, json, CasCall, cas_advance}
use software_builder.Plan.Store.Refs.{refs_of}
use software_builder.Plan.Store.Held.{
  generation_in, refs_in, refs-after, generation-after, time-before, state-before,
}
use software_builder.Plan.Store.Commit.{
  Result, refused_call, committed_call, cas_advance-Result, Committed-Reconciled,
}

abbrev returned : {E A : Type 0} → Outcome E A → Bool
returned (return a) = true
returned (raise e) = false

text_only : (s : String) → non_empty_str (string s) ≡ has_text s
unfolding non_empty_str
text_only s = refl

module _ (plan : ImplementationPlan) (float_is : String → ℕ → Bool) where
  -- The file behind the calls, and how many of them returned.
  unfoldable pub run_calls : Content → List CasCall → Content × ℕ
  run_calls c [] = (c, 0)
  run_calls c (call ∷ calls) =
      let step = cas_advance plan float_is call c in
      let later = run_calls step.0 calls in
      (later.0, if returned step.1 then suc later.1 else later.1)

  -- What holds of the file and the count behind the calls.
  pub record Kept (c : Content) (later : Content × ℕ) : Type 0 where
    pub counted : generation_in later.0 ≡ generation_in c + later.1
    pub refs_kept : (d : String) → elem d (refs_in c) ≡ true → elem d (refs_in later.0) ≡ true

  Kept-run : (c : Content) (calls : List CasCall) → Kept c (run_calls c calls)
  unfolding run_calls
  Kept-run c [] = record { counted = omega arith; refs_kept = λ d m. m }
  Kept-run c (call ∷ calls) =
      step (cas_advance-Result plan float_is call c) (λ c'. Kept-run c' calls)
    where
      step :
          Result plan float_is call c
          → ((c' : Content) → Kept c' (run_calls c' calls))
          → Kept c (run_calls c (call ∷ calls))
      step (refused_call e is) rest = rw is (rest c)
      step (committed_call n is commit) rest =
          let held = json (object (to_fields n)) in
          let later = rest held in
          let (was, becomes) =
            generation-after plan float_is call.arguments call.expected_generation c n commit in
          rw is record {
            counted = omega (arith, later.counted, was, becomes);
            refs_kept = λ d m. later.refs_kept d (
                ap (λ s. elem d (refs_of s)) (fields-to_fields n)
                ∙ refs-after plan float_is call.arguments call.expected_generation c n commit d m);
          }

  stuck :
      (n : Dict Json)
      → non_empty_str (get "updated_at" n) ≡ false
      → (calls : List CasCall)
      → run_calls (json (object (to_fields n))) calls ≡ (json (object (to_fields n)), 0)
  unfolding run_calls
  stuck n blank [] = refl
  stuck n blank (call ∷ calls) =
      step (cas_advance-Result plan float_is call (json (object (to_fields n))))
        (stuck n blank calls)
    where
      step :
          Result plan float_is call (json (object (to_fields n)))
          → run_calls (json (object (to_fields n))) calls ≡ (json (object (to_fields n)), 0)
          → run_calls (json (object (to_fields n))) (call ∷ calls)
            ≡ (json (object (to_fields n)), 0)
      step (refused_call e is) rest = rw is rest
      step (committed_call m is commit) rest =
          let c = json (object (to_fields n)) in
          let time = time-before plan float_is call.arguments call.expected_generation c m commit in
          elim (state-before plan float_is call.arguments call.expected_generation c m commit) [
            | inr (none_held, _) ↦ absurd (cc none_held)
            | inl held ↦
                let same : commit.before ≡ n = cc (held, fields-to_fields n) in
                absurd (
                  cc (
                    sym (subst (λ s. non_empty_str (get "updated_at" s) ≡ true) same time) ∙ blank))
          ]

-- Over any sequence of calls of `cas_advance`, whoever makes them and whatever they are given, the
-- generation in the file rises by exactly the number of calls that return, and no reference of evidence
-- that the file holds is ever lost.
pub run_calls-Kept :
    (plan : ImplementationPlan) (float_is : String → ℕ → Bool) (c : Content) (calls : List CasCall)
    → Kept plan float_is c (run_calls plan float_is c calls)
run_calls-Kept plan float_is c calls = Kept-run plan float_is c calls

-- A call that returns expects the generation that the file has, and leaves the next one.
returned-generation :
    (plan : ImplementationPlan) (float_is : String → ℕ → Bool) (call : CasCall) (c : Content)
    (n : Dict Json)
    → (cas_advance plan float_is call c).1 ≡ return n
    → (call.expected_generation ≡ generation_in c)
      × (generation_in (cas_advance plan float_is call c).0 ≡ suc call.expected_generation)
returned-generation plan float_is call c n h = go (cas_advance-Result plan float_is call c)
  where
    go :
        Result plan float_is call c
        → (call.expected_generation ≡ generation_in c)
          × (generation_in (cas_advance plan float_is call c).0 ≡ suc call.expected_generation)
    go (refused_call e is) = absurd (cc (rw is at h))
    go (committed_call m is commit) =
        rw is (generation-after plan float_is call.arguments call.expected_generation c m commit)

-- Of two calls of `cas_advance` that both return, with any calls between them, the later one expects a
-- greater generation: two writers that have read the same state do not both write.
pub run_calls-exclusive :
    (plan : ImplementationPlan) (float_is : String → ℕ → Bool) (first second : CasCall)
    (c : Content) (calls : List CasCall) (n m : Dict Json)
    → (cas_advance plan float_is first c).1 ≡ return n
    → (cas_advance plan float_is second
        (run_calls plan float_is (cas_advance plan float_is first c).0 calls).0).1
      ≡ return m
    → first.expected_generation < second.expected_generation
run_calls-exclusive plan float_is first second c calls n m h k =
    let held = (cas_advance plan float_is first c).0 in
    let between = run_calls-Kept plan float_is held calls in
    let (_, left) = returned-generation plan float_is first c n h in
    let (found, _) =
      returned-generation plan float_is second (run_calls plan float_is held calls).0 m k in
    omega (arith, between.counted, left, found)

-- After a call of `cas_advance` that returns with a time of whitespace alone, no later call on the file
-- returns, whatever it is given, and the file stays as it is.
pub run_calls-blank :
    (plan : ImplementationPlan) (float_is : String → ℕ → Bool) (call : CasCall) (c : Content)
    (n : Dict Json) (calls : List CasCall)
    → (cas_advance plan float_is call c).1 ≡ return n
    → has_text call.arguments.updated_at ≡ false
    → run_calls plan float_is (cas_advance plan float_is call c).0 calls
      ≡ ((cas_advance plan float_is call c).0, 0)
run_calls-blank plan float_is call c n calls h blank = go (cas_advance-Result plan float_is call c)
  where
    go :
        Result plan float_is call c
        → run_calls plan float_is (cas_advance plan float_is call c).0 calls
          ≡ ((cas_advance plan float_is call c).0, 0)
    go (refused_call e is) = absurd (cc (rw is at h))
    go (committed_call m is commit) =
        let (k, m_is, step) =
          Committed-Reconciled plan float_is call.arguments call.expected_generation c m commit in
        let time =
          ap (λ s. non_empty_str (get "updated_at" s)) m_is
          ∙ ap non_empty_str (get-written "updated_at" (string call.arguments.updated_at) _)
          ∙ text_only call.arguments.updated_at
          ∙ blank in
        rw is (stuck plan float_is m time calls)
