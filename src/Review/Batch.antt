-- ===== src/Review/Batch.antt =====
-- skills/pr-review/scripts/pr_review_policy_guards.py, `execute_guarded_write_batch` and
-- `gitlab_ambiguous_write_decision`. `fetch` and `post` give what the calls of `fetch_head` and `post`
-- answer, by their number.
use text.Mathlib.Text.{◌==◌}
use text.Mathlib.TextEquality.{eq_iff}
use mathlib.Core.List.{append_assoc, append-nil}
use software_builder.Prelude.{
  ℕ, suc, String, Bool, true, false, not, Option, none, some, List, [], ◌∷◌, ◌++◌, ◌≡◌, ◌≢◌, ◌⊎◌,
  inl, inr, refl, sym, ap, ◌∙◌, Bool-cases, if◌then◌else◌,
}
use software_builder.Prelude.Text.{elem}

pub data Provider : Type 0 where
  github gitlab : Provider

pub data BatchStatus : Type 0 where
  revision_mismatch write_delivery_uncertain batch_complete : BatchStatus

pub record Batch : Type 0 where
  pub status : BatchStatus
  pub posted : List String
  pub uncertain : Option String
  pub remaining : List String
  pub expected_head : String
  pub observed_head : String

pub record AmbiguousDecision : Type 0 where
  pub outcome : String
  pub retry : Bool
  pub readback : Bool
  pub stop_remaining_writes : Bool

-- None is the ValueError.
unfoldable pub gitlab_ambiguous_write_decision : String → Option AmbiguousDecision
gitlab_ambiguous_write_decision response =
    if not (elem response ("timeout" ∷ "server_error" ∷ []))
    then none
    else some record {
      outcome = "delivery_uncertain";
      retry = false;
      readback = false;
      stop_remaining_writes = true;
    }

unfoldable pub is_ambiguous : Provider → String → Bool
is_ambiguous github outcome = false
is_ambiguous gitlab outcome = elem outcome ("timeout" ∷ "server_error" ∷ [])

-- A call of `fetch_head`, with the head it answers, or of `post`, with the id.
pub data Call : Type 0 where
  fetched sent : String → Call

module _ (provider : Provider) (captured : String) (fetch : ℕ → String)
    (post : ℕ → String → String) where
  unfoldable pub stopped : BatchStatus → List String → Option String → List String → String → Batch
  stopped status posted uncertain remaining observed = record {
    status = status;
    posted = posted;
    uncertain = uncertain;
    remaining = remaining;
    expected_head = captured;
    observed_head = observed;
  }

  unfoldable pub record_write : ℕ → String → List String → List String
  record_write n write posted = if post n write == "accepted" then posted ++ write ∷ [] else posted

  -- The loop, from the n-th call on, with the calls that it makes.
  unfoldable pub write_from : ℕ → List String → String → List String → List Call × Batch
  write_from n posted observed [] = ([], stopped batch_complete posted none [] observed)
  write_from n posted observed (write ∷ writes) =
      let rest = write_from (suc n) (record_write n write posted) (fetch n) writes in
      if not (fetch n == captured)
      then (
        fetched (fetch n) ∷ [],
        stopped revision_mismatch posted none (write ∷ writes) (fetch n),
      )
      else if is_ambiguous provider (post n write)
      then (
        fetched (fetch n) ∷ sent write ∷ [],
        stopped write_delivery_uncertain posted (some write) writes (fetch n),
      )
      else (fetched (fetch n) ∷ sent write ∷ rest.0, rest.1)

  unfoldable pub execute_guarded_write_batch : List String → List Call × Batch
  execute_guarded_write_batch writes = write_from 0 [] captured writes

  -- The host had the captured head before each of these writes, and answered each without doubt.
  abbrev pub Written : ℕ → List String → Type 0
  Written n [] = Unit
  Written n (write ∷ writes) =
      (fetch n ≡ captured) × (is_ambiguous provider (post n write) ≡ false) × Written (suc n) writes

  -- Those of the writes that the host answered with "accepted", in their order.
  abbrev pub accepted : ℕ → List String → List String
  accepted n [] = []
  accepted n (write ∷ writes) =
      let later = accepted (suc n) writes in
      if post n write == "accepted" then write ∷ later else later

  -- Each write is sent directly behind a look at the head that found the captured one.
  abbrev pub guarded : List String → List Call
  guarded [] = []
  guarded (write ∷ writes) = fetched captured ∷ sent write ∷ guarded writes

  abbrev pub calls : ℕ → List String → ℕ
  calls n [] = n
  calls n (write ∷ writes) = calls (suc n) writes

  -- Why the batch ends at the n-th call, with these writes ahead, and the last calls it makes.
  abbrev pub Ends : Batch → ℕ → List String → List Call → Type 0
  Ends b n ahead last_calls =
      ((b.status ≡ batch_complete)
        × (ahead ≡ [])
        × (b.uncertain ≡ none)
        × (b.remaining ≡ [])
        × (last_calls ≡ []))
      ⊎ (((b.status ≡ revision_mismatch)
            × (ahead ≢ [])
            × (fetch n ≢ captured)
            × (b.observed_head ≡ fetch n)
            × (b.uncertain ≡ none)
            × (b.remaining ≡ ahead)
            × (last_calls ≡ fetched (fetch n) ∷ []))
          ⊎ ((write : String) × (b.status ≡ write_delivery_uncertain)
              × (fetch n ≡ captured)
              × (is_ambiguous provider (post n write) ≡ true)
              × (b.uncertain ≡ some write)
              × (ahead ≡ write ∷ b.remaining)
              × (last_calls ≡ fetched captured ∷ sent write ∷ [])))

  abbrev pub Described : List Call × Batch → ℕ → List String → List String → Type 0
  Described (trace, b) n posted writes =
      (before : List String) × (ahead : List String) × (last_calls : List Call) × (writes
        ≡ before ++ ahead)
      × (trace ≡ guarded before ++ last_calls)
      × Written n before
      × (b.posted ≡ posted ++ accepted n before)
      × Ends b (calls n before) ahead last_calls

  record_write-accepted :
      (n : ℕ) (write : String) (posted writes : List String)
      → record_write n write posted ++ accepted (suc n) writes
        ≡ posted ++ accepted n (write ∷ writes)
  unfolding record_write
  record_write-accepted n write posted writes = elim (Bool-cases (post n write == "accepted")) [
    | inl yes_ ↦ rw yes_ (append_assoc posted (write ∷ []) (accepted (suc n) writes))
    | inr no_ ↦ rw no_ refl
  ]

  write_from-Described :
      (n : ℕ) (posted : List String) (observed : String) (writes : List String)
      → Described (write_from n posted observed writes) n posted writes
  unfolding write_from stopped
  write_from-Described n posted observed [] =
      ([], [], [], refl, refl, tt, sym (append-nil posted), inl (refl, refl, refl, refl, refl))
  write_from-Described n posted observed (write ∷ writes) =
      let nil = sym (append-nil posted) in
      elim (Bool-cases (fetch n == captured)) [
        | inr moved ↦
            let other : fetch n ≢ captured = λ e. cc ((eq_iff (fetch n) captured).1 e, moved) in
            rw moved (
              [],
              write ∷ writes,
              fetched (fetch n) ∷ [],
              refl,
              refl,
              tt,
              nil,
              inr (inl (refl, λ e. cc e, other, refl, refl, refl, refl)),
            )
        | inl same ↦
            let at_head = (eq_iff (fetch n) captured).0 same in
            elim (Bool-cases (is_ambiguous provider (post n write))) [
              | inl doubt ↦
                  let last = fetched (fetch n) ∷ sent write ∷ [] in
                  rw (same, doubt)
                    (
                      [],
                      write ∷ writes,
                      last,
                      refl,
                      refl,
                      tt,
                      nil,
                      inr (inr (write, refl, at_head, doubt, refl, refl, cc at_head)),
                    )
              | inr clear ↦
                  let (before, ahead, last, split, trace, written, listed, ends) =
                    write_from-Described (suc n) (record_write n write posted) (fetch n) writes in
                  rw (same, clear)
                    (
                      write ∷ before,
                      ahead,
                      last,
                      ap (λ ws. write ∷ ws) split,
                      cc (at_head, trace),
                      (at_head, clear, written),
                      listed ∙ record_write-accepted n write posted before,
                      ends,
                    )
            ]
      ]

  -- A batch writes a prefix of its ids. The calls it makes are a look at the head and a write for
  -- each of these ids in order, where each look finds the captured head; and it lists as posted exactly
  -- those ids that the host answered with "accepted", in order. It ends where the ids do, with no call
  -- more; or at one more look at a head that is another, of which the rest is left and nothing is sent;
  -- or, on GitLab, at a further guarded write whose answer is in doubt, which is named and of which the
  -- ids behind it are left.
  pub execute_guarded_write_batch-Described :
      (writes : List String) → Described (execute_guarded_write_batch writes) 0 [] writes
  unfolding execute_guarded_write_batch
  execute_guarded_write_batch-Described writes = write_from-Described 0 [] captured writes
