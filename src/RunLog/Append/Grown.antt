-- ===== src/RunLog/Append/Grown.antt =====
-- skills/loop-task-implementer/scripts/run_log.py, `append_event` and `_full_check`: the record that
-- an append builds fits behind the log that it has read.
use software_builder.Prelude.{
  ℕ, suc, ◌≤◌, String, ◌≡◌, ◌≢◌, refl, sym, ap, ◌∙◌, ◌%◌, All, Bool, true, false, Option, none,
  some, List, [], ◌∷◌, ◌++◌, arith, map, get_last?, subst,
}
use software_builder.Prelude.Outcome.{return, and_then-return}
use software_builder.RunLog.{Body, Record, is_completed, TransitionError, transition_error}
use software_builder.RunLog.Request.{Request, request_data}
use software_builder.RunLog.Check.{Line, shaped, Fragment, Raw, zero_hash, full_check}
use software_builder.RunLog.Check.Chain.{Fits, Chained, NotBefore}
use software_builder.RunLog.Check.Accepts.{Whole-ok}
use software_builder.RunLog.Append.Tails.{Torn, end_tail, get_last?-nil}
use software_builder.RunLog.Append.{
  Tail, check_clock, moment_of, check_transition, make_record, recovered, fmt_ts, check_size,
  next_record,
}

-- A time of whole milliseconds.
abbrev pub IsWhole : Record → Type 0
IsWhole r = r.ts % 1000 ≡ 0

abbrev pub WholeTail : Option ℕ → Type 0
WholeTail none = Unit
WholeTail (some ts) = ts % 1000 ≡ 0

module _ (record_hash : Body → String) (encoded_bytes : Record → ℕ) where
  moment_of-NotBefore :
      (now moment : ℕ) (given ts : Option ℕ)
      → moment_of record_hash encoded_bytes now given ts ≡ return moment
      → NotBefore ts moment
  unfolding moment_of
  moment_of-NotBefore now moment given none e = tt
  moment_of-NotBefore now moment none (some ts) e = ground arith
  moment_of-NotBefore now moment (some g) (some ts) e = ground arith

  -- The stamp of a moment is not before a time of whole milliseconds that the moment is not before.
  fmt_ts-NotBefore :
      (ts : Option ℕ) (moment : ℕ)
      → WholeTail ts
      → NotBefore ts moment
      → NotBefore ts (fmt_ts record_hash encoded_bytes moment)
  unfolding fmt_ts
  fmt_ts-NotBefore none moment whole behind = tt
  fmt_ts-NotBefore (some ts) moment whole behind = omega arith

  fmt_ts-whole : (moment : ℕ) → fmt_ts record_hash encoded_bytes moment % 1000 ≡ 0
  unfolding fmt_ts
  fmt_ts-whole moment = omega arith

  check_transition-none :
      (e : Option TransitionError)
      → check_transition record_hash encoded_bytes e ≡ return tt
      → e ≡ none
  unfolding check_transition
  check_transition-none none h = refl
  check_transition-none (some e) h = cc

  check_size-same : (r s : Record) → check_size record_hash encoded_bytes r ≡ return s → r ≡ s
  unfolding check_size
  check_size-same r s h = ground arith

  -- A record that the append has built fits behind the tail, if it is not dated beyond the limit.
  pub next_record-Fits :
      (limit now : ℕ) (q : Request) (fragment : Option Fragment) (tail : Tail) (r : Record)
      → next_record record_hash encoded_bytes now q fragment tail ≡ return r
      → r.ts ≤ limit
      → WholeTail tail.ts
      → Fits record_hash limit (suc tail.seq) tail.head tail.ts tail.completed r
  unfolding next_record make_record
  next_record-Fits limit now q fragment tail r h dated whole =
      let (moment, timed, built) = and_then-return _ _ h in
      let (_, _, chosen) =
        and_then-return _ (check_clock record_hash encoded_bytes now tail.ts) timed in
      let (_, allowed, sized) = and_then-return _ _ built in
      let same = check_size-same _ r sized in
      subst (Fits record_hash limit (suc tail.seq) tail.head tail.ts tail.completed) same (record {
        numbered = refl;
        linked = refl;
        sealed = refl;
        ordered =
            fmt_ts-NotBefore tail.ts moment whole
              (moment_of-NotBefore now moment q.given_ts tail.ts chosen);
        dated = subst (λ x. x.ts ≤ limit) (sym same) dated;
        allowed = check_transition-none _ allowed;
      })

  pub next_record-IsWhole :
      (now : ℕ) (q : Request) (fragment : Option Fragment) (tail : Tail) (r : Record)
      → next_record record_hash encoded_bytes now q fragment tail ≡ return r
      → IsWhole r
  unfolding next_record make_record
  next_record-IsWhole now q fragment tail r h =
      let (moment, timed, built) = and_then-return _ _ h in
      let (_, _, chosen) =
        and_then-return _ (check_clock record_hash encoded_bytes now tail.ts) timed in
      let data_ = recovered record_hash encoded_bytes fragment tail (request_data q) in
      let made = make_record record_hash encoded_bytes (suc tail.seq) tail.head q data_ moment in
      let allowed =
        check_transition record_hash encoded_bytes
          (transition_error (suc tail.seq) q.event tail.completed) in
      let (_, _, sized) =
        and_then-return (λ (u : Unit {0}). check_size record_hash encoded_bytes made) allowed
          built in
      ap (λ (s : Record). s.ts % 1000) (sym (check_size-same made r sized)) ∙ fmt_ts-whole moment

  Chained-last :
      (limit index : ℕ) (head : String) (prev_ts : Option ℕ) (completed : Bool) (rs : List Record)
      (last new : Record)
      → get_last? rs ≡ some last
      → Chained record_hash limit index head prev_ts completed rs
      → Fits record_hash limit (suc last.seq) last.hash (some last.ts) (is_completed last.event) new
      → Chained record_hash limit index head prev_ts completed (rs ++ new ∷ [])
  Chained-last limit index head prev_ts completed [] last new e chained fits = cc
  Chained-last limit index head prev_ts completed (r ∷ []) last new e (first, _) fits =
      let same : last ≡ r = cc in
      let behind =
        subst
          (λ l. Fits record_hash limit (suc l.seq) l.hash (some l.ts) (is_completed l.event) new)
          same fits in
      (
        first,
        (
          subst (λ n. Fits record_hash limit (suc n) r.hash (some r.ts) (is_completed r.event) new)
              first.numbered behind,
          tt,
        ),
      )
  Chained-last limit index head prev_ts completed (r ∷ s ∷ rs) last new e (first, chained) fits = (
    first,
    Chained-last limit (suc index) r.hash (some r.ts) (is_completed r.event) (s ∷ rs) last new e
        chained fits,
  )

  -- The log after a record was written behind the records `rs` of a log.
  abbrev pub Grown : ℕ → List Record → Record → Raw → Type 0
  Grown limit rs r log =
      ((full_check record_hash limit log).ok ≡ true)
      × ((full_check record_hash limit log).records ≡ rs ++ r ∷ [])
      × IsWhole r

  -- The lines are records, each of which fits behind the ones before, and what follows the last
  -- newline is not. The records are dated to whole milliseconds.
  pub record Sound (limit : ℕ) (raw : Raw) (rs : List Record) : Type 0 where
    pub lines : raw.lines ≡ map shaped rs
    pub chained : Chained record_hash limit 1 zero_hash none false rs
    pub torn : Torn raw.fragment
    pub whole_times : All IsWhole rs

  abbrev pub FitsTail : ℕ → Tail → Record → Type 0
  FitsTail limit tail r = Fits record_hash limit (suc tail.seq) tail.head tail.ts tail.completed r

  map-snoc :
      (rs : List Record) (r : Record) → map shaped rs ++ shaped r ∷ [] ≡ map shaped (rs ++ r ∷ [])
  map-snoc [] r = refl
  map-snoc (s ∷ rs) r = ap (λ (l : List Line). shaped s ∷ l) (map-snoc rs r)

  snoc-nonempty : (rs : List Record) (r : Record) → rs ++ r ∷ [] ≢ []
  snoc-nonempty [] r e = cc e
  snoc-nonempty (s ∷ rs) r e = cc e

  pub Sound-Grown :
      (limit : ℕ) (raw : Raw) (rs : List Record) (r : Record)
      → Sound limit raw rs
      → FitsTail limit (end_tail (get_last? rs)) r
      → IsWhole r
      → Grown limit rs r (record { lines = raw.lines ++ shaped r ∷ []; fragment = none })
  Sound-Grown limit raw rs r sound fits whole_time =
      let checked = Whole-ok record_hash limit _ (rs ++ r ∷ []) (record {
        ended = refl;
        shaped_lines = ap (λ (l : List Line). l ++ shaped r ∷ []) sound.lines ∙ map-snoc rs r;
        nonempty = snoc-nonempty rs r;
        chained = go (get_last? rs) refl;
      }) in
      (checked.0, checked.1, whole_time)
    where
      go :
          (last : Option Record)
          → get_last? rs ≡ last
          → Chained record_hash limit 1 zero_hash none false (rs ++ r ∷ [])
      go none e =
          subst (λ xs. Chained record_hash limit 1 zero_hash none false (xs ++ r ∷ []))
            (sym (get_last?-nil rs e)) (rw e at fits, tt)
      go (some last) e =
          Chained-last limit 1 zero_hash none false rs last r e sound.chained (rw e at fits)
