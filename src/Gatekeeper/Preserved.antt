-- ===== src/Gatekeeper/Preserved.antt =====
-- skills/pr-gatekeeper/scripts/idempotency_store.py: what every step of the processes keeps.
use text.Mathlib.TextEquality.{eq_iff}
use software_builder.Prelude.{
  ℕ, String, true, false, Option, none, some, List, ◌∷◌, ◌≡◌, ◌≢◌, ◌⊎◌, inl, inr, refl, sym, ◌∙◌,
  ap, subst, arith, nat_eq, Bool-cases,
}
use software_builder.Gatekeeper.{ReturnCode, Child, should_process, mark_processed, conclude}
use software_builder.Gatekeeper.Runs.{
  Phase, waiting, holding, running, marking, orphaned, ended, Shared, set, succeeds, released, Step,
  acquire, time_out, skip, launch, fail, succeed, write_mark, die, die_running, orphan_ends, Steps,
  start, next, newest, NoRepeat, InLock, IsActive, Current, Orphan, Inv, Start,
}

nat_eq-same : (p q : ℕ) → nat_eq p q ≡ true → p ≡ q
nat_eq-same p q h = ground arith

-- The phases behind a step of one process.
set-elim :
    (P : ℕ → Phase → Type 0) (p q : ℕ) (ph : Phase) (phases : ℕ → Phase)
    → P p ph
    → (nat_eq p q ≡ false → P q (phases q))
    → P q (set p ph phases q)
unfolding set
set-elim P p q ph phases here there = elim (Bool-cases (nat_eq p q)) [
  | inl same ↦ rw same (subst (λ x. P x ph) (nat_eq-same p q same) here)
  | inr other ↦ rw other (there other)
]

-- Only the holder of the lock is in it.
others-out :
    {s : Shared} (i : Inv s) (p q : ℕ)
    → s.lock ≡ some p
    → nat_eq p q ≡ false
    → ¬ (InLock (s.phase q))
others-out i p q h other inside = ground (arith, i.owned q inside)

outside-Current : (last : Option String) (ph : Phase) → ¬ (InLock ph) → Current last ph
outside-Current last (waiting h) out = tt
outside-Current last (holding h) out = tt
outside-Current last (running h) out = absurd (out tt)
outside-Current last (marking h child) out = absurd (out tt)
outside-Current last (orphaned h) out = tt
outside-Current last (ended o) out = tt

-- A step that leaves the record, and moves a process to a phase of its own.
move :
    {s : Shared} (i : Inv s) (p : ℕ) (lock : Option ℕ) (ph : Phase)
    → (InLock ph → lock ≡ some p)
    → Current s.last ph
    → ¬ (Orphan ph)
    → ((q : ℕ) → nat_eq p q ≡ false → InLock (s.phase q) → lock ≡ some q)
    → Inv record s { lock = lock; phase = set p ph s.phase }
move {s = s} i p lock ph here now held others = record {
  owned = λ q. set-elim (λ x y. InLock y → lock ≡ some x) p q ph _ here (others q);
  current = λ q. set-elim (λ x y. Current s.last y) p q ph _ now (λ _. i.current q);
  recorded = i.recorded;
  fresh = i.fresh;
  orphans = λ q.
      set-elim (λ x y. Orphan y → s.killed_running ≡ true) p q ph _ (λ h. absurd (held h))
        (λ _. i.orphans q);
}

-- The phase that a process is in says whether it is in the lock.
at_phase : (P : Phase → Type 0) {ph other : Phase} → ph ≡ other → P other → P ph
at_phase P e h = subst P (sym e) h

in_lock : {ph other : Phase} → ph ≡ other → InLock other → InLock ph
in_lock = at_phase (λ x. InLock x)

released-other :
    (lock : Option ℕ) (p q : ℕ) → lock ≡ some q → nat_eq p q ≡ false → released lock p ≡ some q
unfolding released
released-other none p q h other = cc h
released-other (some r) p q h other = ground arith

none-in : {s : Shared} → Inv s → s.lock ≡ none → (q : ℕ) → ¬ (InLock (s.phase q))
none-in i free q h = cc (free, i.owned q h)

-- A child without success leaves the record.
conclude-fails :
    (last : Option String) (head : String) (child : Child)
    → succeeds child ≡ false
    → (conclude last head child).1 ≡ last
unfolding conclude succeeds
conclude-fails last head child h = ground arith

conclude-succeeds :
    (last : Option String) (head : String) (child : Child)
    → succeeds child ≡ true
    → (conclude last head child).1 ≡ some head
unfolding conclude succeeds mark_processed
conclude-succeeds last head child h = ground arith

-- A head that is to be processed is not the one of the record.
new-head :
    (last : Option String) (head : String) → should_process last head ≡ true → last ≢ some head
unfolding should_process
new-head last head new same = cc (rw (same, should_process, (eq_iff head head).1 refl) at new)

-- The holder of the lock ends, and what it wrote is the record.
ends :
    {s : Shared} (i : Inv s) (p : ℕ) (last : Option String) (processed : List String)
    (code : Option ReturnCode)
    → s.lock ≡ some p
    → last ≡ newest processed
    → NoRepeat processed
    → Inv record s {
      lock = none;
      last = last;
      processed = processed;
      phase = set p (ended code) s.phase;
    }
ends {s = s} i p last processed code held recorded fresh =
    let out = λ (q : ℕ) (other : nat_eq p q ≡ false). others-out i p q held other in
    record {
      owned = λ q.
          set-elim (λ x y. InLock y → none ≡ some x) p q _ s.phase (λ h. absurd h)
            (λ other h. absurd (out q other h));
      current = λ q.
          set-elim (λ x y. Current last y) p q _ s.phase tt
            (λ other. outside-Current _ (s.phase q) (out q other));
      recorded = recorded;
      fresh = fresh;
      orphans = λ q.
          set-elim (λ x y. Orphan y → s.killed_running ≡ true) p q _ s.phase (λ h. absurd h)
            (λ _. i.orphans q);
    }

pub Step-Inv : {s r : Shared} → Inv s → Step s r → Inv r
Step-Inv i (acquire p free waits) =
    move i p (some p) _ (λ _. refl) tt (λ h. absurd h) (λ q other h. absurd (none-in i free q h))
Step-Inv {s = s} i (time_out p waits) =
    move i p s.lock _ (λ h. absurd h) tt (λ h. absurd h) (λ q other h. i.owned q h)
Step-Inv i (skip p holds old) =
    move i p none _ (λ h. absurd h) tt (λ h. absurd h)
      (λ q other h. absurd (others-out i p q (i.owned p (in_lock holds tt)) other h))
Step-Inv {s = s} i (launch p holds new) =
    move i p s.lock _ (λ _. i.owned p (in_lock holds tt)) new (λ h. absurd h)
      (λ q other h. i.owned q h)
Step-Inv {s = s} i (fail p {head = head} child runs fails) =
    ends i p _ s.processed _ (i.owned p (in_lock runs tt))
      (conclude-fails s.last head child fails ∙ i.recorded) i.fresh
Step-Inv {s = s} i (succeed p {head = head} child runs done) =
    let now : should_process s.last head ≡ true =
      subst (λ ph. Current s.last ph) runs (i.current p) in
    move i p s.lock _ (λ _. i.owned p (in_lock runs tt)) (now, done) (λ h. absurd h)
      (λ q other h. i.owned q h)
Step-Inv {s = s} i (write_mark p {head = head} {child = child} marks) =
    let now : Current s.last (marking head child) =
      subst (λ ph. Current s.last ph) marks (i.current p) in
    ends i p _ (head ∷ s.processed) _ (i.owned p (in_lock marks tt))
      (conclude-succeeds s.last head child now.1)
      ((λ e. new-head s.last head now.0 (i.recorded ∙ e)), i.fresh)
Step-Inv {s = s} i (die p before) =
    move i p (released s.lock p) _ (λ h. absurd h) tt (λ h. absurd h)
      (λ q other h. released-other s.lock p q (i.owned q h) other)
Step-Inv {s = s} i (die_running p {head = head} runs) =
    let held = i.owned p (in_lock runs tt) in
    let out = λ (q : ℕ) (other : nat_eq p q ≡ false). others-out i p q held other in
    record {
      owned = λ q.
          set-elim (λ x y. InLock y → none ≡ some x) p q _ s.phase (λ h. absurd h)
            (λ other h. absurd (out q other h));
      current =
          λ q. set-elim (λ x y. Current s.last y) p q (orphaned head) s.phase tt (λ _. i.current q);
      recorded = i.recorded;
      fresh = i.fresh;
      orphans = λ q _. refl;
    }
Step-Inv {s = s} i (orphan_ends p orphan) =
    move i p s.lock _ (λ h. absurd h) tt (λ h. absurd h) (λ q other h. i.owned q h)

Start-Inv : {s : Shared} → Start s → Inv s
Start-Inv {s = s} st = record {
  owned = λ p h. absurd (subst (λ ph. InLock ph) (st.all_waiting p).1 h);
  current = λ p. subst (λ ph. Current s.last ph) (sym (st.all_waiting p).1) tt;
  recorded = st.unwritten ∙ sym (ap newest st.unprocessed);
  fresh = subst (λ hs. NoRepeat hs) (sym st.unprocessed) tt;
  orphans = λ p h. absurd (subst (λ ph. Orphan ph) (st.all_waiting p).1 h);
}

Steps-Inv : {s r : Shared} → Start s → Steps s r → Inv r
Steps-Inv st start = Start-Inv st
Steps-Inv st (next steps step) = Step-Inv (Steps-Inv st steps) step

active-cases : (ph : Phase) → IsActive ph → InLock ph ⊎ Orphan ph
active-cases (running h) active = inl tt
active-cases (orphaned h) active = inr tt
active-cases (waiting h) active = absurd active
active-cases (holding h) active = absurd active
active-cases (marking h child) active = absurd active
active-cases (ended o) active = absurd active

-- Where no process was killed as its command ran, an active command has the lock.
active-owner :
    {s : Shared} (i : Inv s)
    → s.killed_running ≡ false
    → (p : ℕ) → IsActive (s.phase p)
    → s.lock ≡ some p
active-owner {s = s} i whole p active = elim (active-cases (s.phase p) active) [
  | inl inside ↦ i.owned p inside
  | inr orphan ↦ absurd (cc (whole, i.orphans p orphan))
]

same-owner : {lock : Option ℕ} (p q : ℕ) → lock ≡ some p → lock ≡ some q → p ≡ q
same-owner p q a b = ground arith

-- However the processes on a merge request interleave, and wherever they are killed: two of them that
-- are alive never wait for their commands at once; two commands never run at once, as long as no
-- process was killed while its command ran, which frees the lock and leaves the command running; the
-- record is the last head that was marked as processed, and no head is marked twice in a row.
pub Steps-exclusive :
    {s r : Shared}
    → Start s
    → Steps s r
    → ((p q : ℕ) (g h : String) → r.phase p ≡ running g → r.phase q ≡ running h → p ≡ q)
      × (r.killed_running ≡ false → (p q : ℕ) → IsActive (r.phase p) → IsActive (r.phase q) → p ≡ q)
      × (r.last ≡ newest r.processed)
      × NoRepeat r.processed
Steps-exclusive st steps =
    let i = Steps-Inv st steps in
    (
      λ p q g h a b. same-owner p q (i.owned p (in_lock a tt)) (i.owned q (in_lock b tt)),
      λ whole p q a b. same-owner p q (active-owner i whole p a) (active-owner i whole q b),
      i.recorded,
      i.fresh,
    )
