-- ===== src/RunLog/Budget/Window/Reselect.antt =====
-- skills/loop-task-implementer/scripts/run_log.py, `_task_window_start` and `check_budget`: a task
-- that is selected again keeps its window.
use text.Mathlib.Text.{◌==◌}
use text.Mathlib.TextEquality.{eq_iff}
use software_builder.Prelude.{
  ℕ, zero, suc, ◌+◌, ◌≤◌, ◌<◌, ◌≡◌, refl, sym, ◌∙◌, ap, inl, inr, Bool, true, false, not, ◌&&◌,
  Option, none, some, List, [], ◌∷◌, ◌++◌, arith, length, leb, get_last?, if◌then◌else◌, Bool-cases,
}
use software_builder.RunLog.Request.{datum_eq}
use software_builder.Prelude.{All}
use software_builder.RunLog.{Record, Datum, string, flag, count, json, tokens_of}
use software_builder.RunLog.Budget.Window.{
  Totals, tokens, elapsed_minutes, no_usage, add_usage, usage_totals, is_selected, task_id_of,
  selections, same_task, walk_back, latest_run, is_finish, behind_finish, task_window_start, drop,
  over_cap, check_budget, has_tokens,
}

selections-snoc :
    (earlier : List (ℕ × Option Datum)) (index : ℕ) (rs : List Record) (r : Record)
    → selections earlier index (rs ++ r ∷ []) ≡ (
        if is_selected r.event
        then (index + length rs, task_id_of r) ∷ selections earlier index rs
        else selections earlier index rs)
unfolding selections
selections-snoc earlier index [] r =
    ap (λ n. if is_selected r.event then (n, task_id_of r) ∷ earlier else earlier) (here index)
  where
    here : (n : ℕ) → n ≡ n + 0
    here n = omega arith
selections-snoc earlier index (s ∷ rs) r =
    selections-snoc before (suc index) rs r
    ∙ ap
        (λ n.
          if is_selected r.event
          then (n, task_id_of r) ∷ selections before (suc index) rs
          else selections before (suc index) rs)
        (further index (length rs))
  where
    before : List (ℕ × Option Datum)
    before = if is_selected s.event then (index, task_id_of s) ∷ earlier else earlier

    further : (n m : ℕ) → suc n + m ≡ n + suc m
    further n m = omega arith

-- The record that stands last is not a finish.
abbrev pub NotFinished : List Record → Type 0
NotFinished rs = (last : Record) → get_last? rs ≡ some last → is_finish last ≡ false

behind_finish-snoc :
    (found index : ℕ) (rs : List Record) (r : Record)
    → NotFinished rs
    → behind_finish found index (rs ++ r ∷ []) ≡ behind_finish found index rs
unfolding behind_finish
behind_finish-snoc found index [] r clear = refl
behind_finish-snoc found index (s ∷ []) r clear = rw (clear s refl) refl
behind_finish-snoc found index (s ∷ t ∷ rs) r clear =
    behind_finish-snoc (if is_finish s then suc index else found) (suc index) (t ∷ rs) r clear

second_test : (a b : Bool) → (a && b) ≡ true → b ≡ true
second_test a b h = ground arith

same_task-eq : (a b : Option Datum) → same_task a b ≡ true → a ≡ b
unfolding same_task datum_eq
same_task-eq (some (string s)) (some (string t)) h = ap (λ x. some (string x)) ((eq_iff s t).0 h)
same_task-eq (some (json s)) (some (json t)) h =
    ap (λ x. some (json x)) ((eq_iff s t).0 (second_test (not (s == "null")) (s == t) h))
same_task-eq (some (count m)) (some (count n)) h =
    let e : m ≡ n = ground arith in ap (λ x. some (count x)) e
same_task-eq (some (flag true)) (some (flag b)) h = ground arith
same_task-eq (some (flag false)) (some (flag b)) h = ground arith
same_task-eq (some (flag true)) (some (string x)) h = absurd (cc h)
same_task-eq (some (flag true)) (some (count x)) h = absurd (cc h)
same_task-eq (some (flag true)) (some (json x)) h = absurd (cc h)
same_task-eq (some (flag false)) (some (string x)) h = absurd (cc h)
same_task-eq (some (flag false)) (some (count x)) h = absurd (cc h)
same_task-eq (some (flag false)) (some (json x)) h = absurd (cc h)
same_task-eq a b h = absurd (cc h)

-- The task of the latest selection is selected again.
pub record Reselects (rs : List Record) (r : Record) : Type 0 where
  pub index : ℕ
  pub task : Option Datum
  pub earlier : List (ℕ × Option Datum)
  pub latest : selections [] 0 rs ≡ (index, task) ∷ earlier
  pub selected : is_selected r.event ≡ true
  pub same : same_task (task_id_of r) task ≡ true

latest_run-same :
    (n i : ℕ) (a b : Option Datum) (earlier : List (ℕ × Option Datum))
    → same_task a b ≡ true
    → latest_run ((n, a) ∷ (i, b) ∷ earlier) ≡ latest_run ((i, b) ∷ earlier)
unfolding latest_run walk_back
latest_run-same n i a b earlier same =
    rw same (ap (λ t. walk_back t i earlier) (same_task-eq a b same))

pub task_window_start-reselect :
    (rs : List Record) (r : Record)
    → Reselects rs r
    → NotFinished rs
    → task_window_start (rs ++ r ∷ []) ≡ task_window_start rs
unfolding task_window_start
task_window_start-reselect rs r again clear =
    let chosen : selections [] 0 (rs ++ r ∷ [])
        ≡ (0 + length rs, task_id_of r) ∷ (again.index, again.task) ∷ again.earlier =
      selections-snoc [] 0 rs r ∙ rw (again.selected, again.latest) refl in
    let run : latest_run (selections [] 0 (rs ++ r ∷ [])) ≡ latest_run (selections [] 0 rs) =
      ap latest_run chosen
      ∙ latest_run-same (0 + length rs) again.index (task_id_of r) again.task again.earlier
          again.same
      ∙ ap latest_run (sym again.latest) in
    rw (run, behind_finish-snoc 0 0 rs r clear) refl

abbrev Below : ℕ → List (ℕ × Option Datum) → Type 0
Below n earlier = All (λ p. p.0 < n) earlier

selections-Below :
    (n : ℕ) (earlier : List (ℕ × Option Datum)) (index : ℕ) (rs : List Record)
    → Below n earlier
    → index + length rs ≤ n
    → Below n (selections earlier index rs)
unfolding selections
selections-Below n earlier index [] below h = below
selections-Below n earlier index (r ∷ rs) below h = elim (Bool-cases (is_selected r.event)) [
  | inl e ↦ rw e (
      selections-Below n ((index, task_id_of r) ∷ earlier) (suc index) rs (omega arith, below)
        (omega arith))
  | inr e ↦ rw e (selections-Below n earlier (suc index) rs below (omega arith))
]

walk_back_bound :
    (n : ℕ) (task : Option Datum) (start : ℕ) (earlier : List (ℕ × Option Datum))
    → start ≤ n
    → Below n earlier
    → walk_back task start earlier ≤ n
unfolding walk_back
walk_back_bound n task start [] h below = h
walk_back_bound n task start ((index, other) ∷ earlier) h below =
    let further =
      walk_back_bound n task index earlier (let first = below.0 in omega arith) (below.1) in
    ground arith

latest_run_bound :
    (n : ℕ) (earlier : List (ℕ × Option Datum)) → Below n earlier → latest_run earlier ≤ n
unfolding latest_run
latest_run_bound n [] below = omega arith
latest_run_bound n ((index, task) ∷ earlier) below =
    walk_back_bound n task index earlier (let first = below.0 in omega arith) (below.1)

behind_finish_bound :
    (found index : ℕ) (rs : List Record)
    → found ≤ index
    → behind_finish found index rs ≤ index + length rs
unfolding behind_finish
behind_finish_bound found index [] h = omega arith
behind_finish_bound found index (r ∷ []) h = omega arith
behind_finish_bound found index (r ∷ s ∷ rs) h =
    let rest =
      behind_finish_bound (if is_finish r then suc index else found) (suc index) (s ∷ rs)
        (ground arith) in
    omega arith

task_window_start_bound : (rs : List Record) → task_window_start rs ≤ length rs
unfolding task_window_start
task_window_start_bound rs =
    let run =
      latest_run_bound (length rs) (selections [] 0 rs)
        (selections-Below (length rs) [] 0 rs tt (omega arith)) in
    let finish = behind_finish_bound 0 0 rs (omega arith) in ground arith

drop-snoc :
    (n : ℕ) (rs : List Record) (r : Record)
    → n ≤ length rs
    → drop n (rs ++ r ∷ []) ≡ drop n rs ++ r ∷ []
unfolding drop
drop-snoc zero rs r h = refl
drop-snoc (suc n) [] r h = absurd (omega arith)
drop-snoc (suc n) (s ∷ rs) r h = drop-snoc n rs r (omega arith)

total_tokens-snoc :
    (totals : Totals) (rs : List Record) (r : Record)
    → (usage_totals totals (rs ++ r ∷ [])).total_tokens
      ≡ (usage_totals totals rs).total_tokens + tokens_of r.usage
unfolding usage_totals add_usage
total_tokens-snoc totals [] r = refl
total_tokens-snoc totals (s ∷ rs) r = total_tokens-snoc (add_usage totals s.usage) rs r

reached : Option ℕ → ℕ → Bool
reached none n = false
reached (some limit) n = leb limit n

has_tokens-over_cap :
    (max_tokens max_time : Option ℕ) (n active : ℕ)
    → has_tokens (over_cap max_tokens n tokens ++ over_cap max_time active elapsed_minutes)
      ≡ reached max_tokens n
unfolding over_cap reached
has_tokens-over_cap none none n active = refl
has_tokens-over_cap none (some l) n active = ground arith
has_tokens-over_cap (some k) none n active = ground arith
has_tokens-over_cap (some k) (some l) n active = ground arith

reached_mono : (cap : Option ℕ) (m n : ℕ) → m ≤ n → reached cap m ≡ true → reached cap n ≡ true
unfolding reached
reached_mono none m n h e = e
reached_mono (some k) m n h e = ground arith

-- Selecting the task of the latest selection again, behind records the last of which is not a finish,
-- leaves its window with the new record at the end: `check_budget` reads the tokens of before and
-- those of that record, so a token cap that was reached stays reached.
pub check_budget-reselect :
    (moment : ℕ) (max_tokens max_time : Option ℕ) (rs : List Record) (r : Record)
    → Reselects rs r
    → NotFinished rs
    → let old = check_budget moment max_tokens max_time rs in
      let new = check_budget moment max_tokens max_time (rs ++ r ∷ []) in
      (new.window ≡ old.window ++ r ∷ [])
      × (new.estimated_tokens ≡ old.estimated_tokens + tokens_of r.usage)
      × (has_tokens old.exceeded ≡ true → has_tokens new.exceeded ≡ true)
unfolding check_budget
check_budget-reselect moment max_tokens max_time rs r again clear =
    let start = task_window_start-reselect rs r again clear in
    let window : drop (task_window_start (rs ++ r ∷ [])) (rs ++ r ∷ [])
        ≡ drop (task_window_start rs) rs ++ r ∷ [] =
      rw start (drop-snoc (task_window_start rs) rs r (task_window_start_bound rs)) in
    let spent = total_tokens-snoc no_usage (drop (task_window_start rs) rs) r in
    let old_tokens = (usage_totals no_usage (drop (task_window_start rs) rs)).total_tokens in
    let new_spent : (usage_totals no_usage
          (drop (task_window_start (rs ++ r ∷ [])) (rs ++ r ∷ []))).total_tokens
        ≡ old_tokens + tokens_of r.usage =
      rw window spent in
    let more = reached_mono max_tokens old_tokens (old_tokens + tokens_of r.usage) (omega arith) in
    (
      window,
      new_spent,
      λ e.
          has_tokens-over_cap max_tokens max_time _ _
          ∙ ap (reached max_tokens) new_spent
          ∙ more (sym (has_tokens-over_cap max_tokens max_time old_tokens _) ∙ e),
    )
