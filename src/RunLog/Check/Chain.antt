-- ===== src/RunLog/Check/Chain.antt =====
-- skills/loop-task-implementer/scripts/run_log.py, `_full_check`: which logs it accepts.
use text.Mathlib.TextEquality.{eq_iff}
use software_builder.Prelude.{
  ℕ, suc, ◌≤◌, String, ◌≡◌, refl, sym, ap, ◌∙◌, ◌↔◌, Bool, true, false, Option, none, some, List,
  [], ◌∷◌, ◌++◌, arith, map, if◌then◌else◌, subst,
}
use mathlib.Core.List.{append_assoc, append-nil}
use software_builder.RunLog.{Event, Body, Record, transition_error, is_completed, is_resumed}
use software_builder.RunLog.Check.{
  Line, unreadable, misshapen, shaped, Problem, Progress, record_errors, check_record, check_line,
  check_lines,
}

abbrev pub NotBefore : Option ℕ → ℕ → Type 0
NotBefore none moment = Unit
NotBefore (some previous) moment = previous ≤ moment

module _ (record_hash : Body → String) (now_limit : ℕ) where
  -- A record fits at the end of a log of `index - 1` records, whose last record has the hash `head`
  -- and the time `prev_ts`.
  pub record Fits (index : ℕ) (head : String) (prev_ts : Option ℕ) (completed : Bool) (r : Record)
      : Type 0 where
    pub numbered : r.seq ≡ index
    pub linked : r.prev_hash ≡ head
    pub sealed : r.hash ≡ record_hash r.body
    pub ordered : NotBefore prev_ts r.ts
    pub dated : r.ts ≤ now_limit
    pub allowed : transition_error index r.event completed ≡ none

  -- Each record of the list fits behind the ones before it. A record that fits leaves the run
  -- completed exactly if it is a completion.
  abbrev pub Chained : ℕ → String → Option ℕ → Bool → List Record → Type 0
  Chained index head prev_ts completed [] = Unit
  Chained index head prev_ts completed (r ∷ rs) =
      Fits index head prev_ts completed r
      × Chained (suc index) r.hash (some r.ts) (is_completed r.event) rs

  append-nil_iff : (xs ys : List Problem) → (xs ++ ys ≡ []) ↔ ((xs ≡ []) × (ys ≡ []))
  append-nil_iff [] ys = (λ e. (refl, e), λ h. h.1)
  append-nil_iff (x ∷ xs) ys = (λ e. absurd (cc e), λ h. absurd (cc (h.0)))

  record_errors-nil_iff :
      (index : ℕ) (p : Progress) (r : Record)
      → (record_errors record_hash now_limit index p r ≡ [])
        ↔ Fits index p.head p.prev_ts p.completed r
  unfolding record_errors
  record_errors-nil_iff index p r =
      ground (arith, eq_iff r.prev_hash p.head, eq_iff r.hash (record_hash r.body))

  completed_step :
      (index : ℕ) (event : Event) (completed : Bool)
      → transition_error index event completed ≡ none
      → (if is_completed event then true else if is_resumed event then false else completed)
        ≡ is_completed event
  unfolding transition_error
  completed_step index event completed h = ground arith

  -- The hash of the last record of the list, or the one before it.
  abbrev pub last_hash : String → List Record → String
  last_hash head [] = head
  last_hash head (r ∷ rs) = last_hash r.hash rs

  check_line-errors :
      (index : ℕ) (p : Progress) (line : Line)
      → (check_line record_hash now_limit index p line).errors ≡ []
      → (p.errors ≡ [])
        × ((r : Record) × (line ≡ shaped r) × Fits index p.head p.prev_ts p.completed r)
  unfolding check_line check_record
  check_line-errors index p unreadable h = absurd (cc ((append-nil_iff p.errors _).0 h).1)
  check_line-errors index p (misshapen first others) h =
      absurd (cc ((append-nil_iff p.errors _).0 h).1)
  check_line-errors index p (shaped r) h =
      let (old, new) = (append-nil_iff p.errors _).0 h in
      (old, (r, refl, (record_errors-nil_iff index p r).0 new))

  pub check_lines-errors :
      (index : ℕ) (p : Progress) (lines : List Line)
      → (check_lines record_hash now_limit index p lines).errors ≡ []
      → p.errors ≡ []
  unfolding check_lines
  check_lines-errors index p [] h = h
  check_lines-errors index p (line ∷ lines) h =
      (check_line-errors index p line
        (check_lines-errors (suc index) (check_line record_hash now_limit index p line) lines h)).0

  -- The records behind lines that were checked with no error.
  pub record Accepted (index : ℕ) (p : Progress) (lines : List Line) (q : Progress) : Type 0 where
    pub rs : List Record
    pub shaped_lines : lines ≡ map shaped rs
    pub chained : Chained index p.head p.prev_ts p.completed rs
    pub kept : q.records ≡ p.records ++ rs
    pub last : q.head ≡ last_hash p.head rs

  pub check_lines_sound :
      (index : ℕ) (p : Progress) (lines : List Line)
      → (check_lines record_hash now_limit index p lines).errors ≡ []
      → Accepted index p lines (check_lines record_hash now_limit index p lines)
  unfolding check_lines check_line check_record
  check_lines_sound index p [] h = record {
    rs = [];
    shaped_lines = refl;
    chained = tt;
    kept = sym (append-nil p.records);
    last = refl;
  }
  check_lines_sound index p (unreadable ∷ lines) h =
      absurd
        (cc ((check_line-errors index p unreadable (check_lines-errors (suc index) _ lines h)).1.1))
  check_lines_sound index p (misshapen first others ∷ lines) h = absurd (
      cc (
        (check_line-errors index p (misshapen first others)
          (check_lines-errors (suc index) _ lines h)).1.1))
  check_lines_sound index p (shaped r ∷ lines) h =
      let next = check_line record_hash now_limit index p (shaped r) in
      let fits =
        (record_errors-nil_iff index p r).0
          ((append-nil_iff p.errors _).0 (check_lines-errors (suc index) next lines h)).1 in
      let rest = check_lines_sound (suc index) next lines h in
      record {
        rs = r ∷ rest.rs;
        shaped_lines = ap (λ (l : List Line). shaped r ∷ l) rest.shaped_lines;
        chained = (
          fits,
          subst (λ c. Chained (suc index) r.hash (some r.ts) c rest.rs)
              (completed_step index r.event p.completed fits.allowed) rest.chained,
        );
        kept = rest.kept ∙ append_assoc p.records (r ∷ []) rest.rs;
        last = rest.last;
      }

  pub check_lines_complete :
      (index : ℕ) (p : Progress) (rs : List Record)
      → p.errors ≡ []
      → Chained index p.head p.prev_ts p.completed rs
      → let q = check_lines record_hash now_limit index p (map shaped rs) in
        (q.errors ≡ []) × (q.records ≡ p.records ++ rs)
  unfolding check_lines check_line check_record
  check_lines_complete index p [] clean chained = (clean, sym (append-nil p.records))
  check_lines_complete index p (r ∷ rs) clean chained =
      let fits = chained.0 in
      let (errors, records) =
        check_lines_complete (suc index) (check_record record_hash now_limit index p r) rs
          ((append-nil_iff p.errors _).1 (clean, (record_errors-nil_iff index p r).1 fits))
          (subst (λ c. Chained (suc index) r.hash (some r.ts) c rs)
            (sym (completed_step index r.event p.completed fits.allowed)) chained.1) in
      (errors, records ∙ append_assoc p.records (r ∷ []) rs)
