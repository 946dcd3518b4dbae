-- ===== src/RunLog/Append/Tails.antt =====
-- skills/loop-task-implementer/scripts/run_log.py, `_tail_state`: the tail that it finds where the log is
-- sound but for what follows its last newline.
use text.Mathlib.TextEquality.{eq_iff}
use software_builder.Prelude.{
  ℕ, String, ◌≡◌, ◌≢◌, refl, sym, ap, ◌∙◌, inl, inr, ◌⊎◌, Bool, true, false, not, ◌&&◌, Option,
  none, some, List, [], ◌∷◌, ◌++◌, arith, map, get_last?, is_empty, any, Bool-cases, subst,
}
use software_builder.Prelude.Outcome.{return, and_then-return}
use software_builder.RunLog.{Body, Record}
use software_builder.RunLog.Check.{Line, unreadable, misshapen, shaped, Fragment, Raw}
use software_builder.RunLog.Append.{
  Window, Tail, empty_tail, tail_of, finish_tail, tail_from, tail_state, finished, has_fragment,
  is_unreadable,
}

-- The tail of a log with the records `rs`.
abbrev pub end_tail : Option Record → Tail
end_tail none = empty_tail
end_tail (some last) = tail_of last

pub get_last?-nil : {A : Type 0} (xs : List A) → get_last? xs ≡ none → xs ≡ []
get_last?-nil [] e = refl
get_last?-nil (x ∷ []) e = absurd (cc e)
get_last?-nil (x ∷ y ∷ xs) e = absurd (cc (get_last?-nil (y ∷ xs) e))

get_last?-map :
    (rs : List Record) (last : Record)
    → get_last? rs ≡ some last
    → get_last? (map shaped rs) ≡ some (shaped last)
get_last?-map [] last e = absurd (cc e)
get_last?-map (r ∷ []) last e = cc
get_last?-map (r ∷ s ∷ rs) last e = get_last?-map (s ∷ rs) last e

get_last?-skip :
    {A : Type 0} (xs : List A) (y : A) (ys : List A) → get_last? (xs ++ y ∷ ys) ≡ get_last? (y ∷ ys)
get_last?-skip [] y ys = refl
get_last?-skip (x ∷ []) y ys = refl
get_last?-skip (x ∷ z ∷ xs) y ys = get_last?-skip (z ∷ xs) y ys

abbrev pub with_truncate : Bool → Tail → Tail
with_truncate b tail = record tail { truncate = b }

-- What follows the last newline is not a record.
abbrev pub Torn : Option Fragment → Type 0
Torn none = Unit
Torn (some f) = (r : Record) → f.line ≢ shaped r

module _ (record_hash : Body → String) (encoded_bytes : Record → ℕ) where
  -- The window shows the end of the log: all of it, or at least its last line.
  pub record Shows (raw : Raw) (window : Window) : Type 0 where
    pub earlier : List Line
    pub split : raw.lines ≡ earlier ++ window.lines
    pub reaches : window.lines ≡ [] → (raw.lines ≡ []) × (window.partial ≡ false)

  Shows-last :
      (raw : Raw) (window : Window)
      → Shows raw window
      → get_last? window.lines ≡ get_last? raw.lines
  Shows-last raw window shows = go (window.lines) refl
    where
      go : (lines : List Line) → window.lines ≡ lines → get_last? window.lines ≡ get_last? raw.lines
      go [] e = rw e (rw ((shows.reaches e).0) refl)
      go (line ∷ lines) e = rw (shows.split, e) (sym (get_last?-skip shows.earlier line lines))

  tail_from-end :
      (raw : Raw) (window : Window) (rs : List Record) (tail : Tail)
      → Shows raw window
      → raw.lines ≡ map shaped rs
      → tail_from record_hash encoded_bytes raw window ≡ return tail
      → tail ≡ end_tail (get_last? rs)
  unfolding tail_from
  tail_from-end raw window rs tail shows lines found = go (get_last? rs) refl
    where
      go : (last : Option Record) → get_last? rs ≡ last → tail ≡ end_tail (get_last? rs)
      go none e =
          let empty = get_last?-nil rs e in
          let nothing : get_last? window.lines ≡ none =
            Shows-last raw window shows ∙ ap get_last? (lines ∙ ap (map shaped) empty) in
          let whole = (shows.reaches (get_last?-nil window.lines nothing)).1 in
          let plain = rw (tail_from, nothing, whole) at found in rw e cc
      go (some last) e =
          let seen : get_last? window.lines ≡ some (shaped last) =
            Shows-last raw window shows ∙ ap get_last? lines ∙ get_last?-map rs last e in
          let plain = rw (tail_from, seen) at found in
          rw e (ground (arith, eq_iff last.hash (record_hash last.body)))

  finish_tail-Torn :
      (fragment : Option Fragment) (tail : Tail)
      → Torn fragment
      → (b : Bool) × (finish_tail record_hash encoded_bytes fragment tail ≡ with_truncate b tail)
  unfolding finish_tail
  finish_tail-Torn none tail torn = (tail.truncate, refl)
  finish_tail-Torn (some f) tail torn = go (f.line) refl
    where
      go :
          (line : Line)
          → f.line ≡ line
          → (b : Bool) × (finish_tail record_hash encoded_bytes (some f) tail
              ≡ with_truncate b tail)
      go unreadable e = rw e (true, refl)
      go (misshapen first others) e = rw e (true, refl)
      go (shaped r) e = absurd (torn r e)

  no_records : (rs : List Record) → is_empty (map shaped rs) ≡ true → get_last? rs ≡ none
  no_records [] e = refl
  no_records (r ∷ rs) e = absurd (cc e)

  tail_state-steps :
      (raw : Raw) (window : Window) (tail : Tail)
      → tail_state record_hash encoded_bytes raw window ≡ return tail
      → ((is_empty raw.lines ≡ true) × (tail ≡ empty_tail))
        ⊎ ((found : Tail) × (tail_from record_hash encoded_bytes raw window ≡ return found)
            × (tail ≡ finish_tail record_hash encoded_bytes raw.fragment found))
  unfolding tail_state
  tail_state-steps raw window tail found =
      elim (Bool-cases (is_empty raw.lines && not (has_fragment raw))) [
        | inl e ↦ inl (ground arith, cc (rw e at found))
        | inr e ↦ elim (Bool-cases (has_fragment raw && window.unbroken && window.partial)) [
          | inl f ↦ absurd (cc (rw (e, f) at found))
          | inr f ↦ elim (Bool-cases (any is_unreadable window.lines)) [
            | inl g ↦ absurd (cc (rw (e, f, g) at found))
            | inr g ↦
                let (seen, from, ended) = and_then-return _ _ (rw (e, f, g) at found) in
                inr (seen, from, cc ended)
          ]
        ]
      ]

  pub tail_state-end :
      (raw : Raw) (window : Window) (rs : List Record) (tail : Tail)
      → Shows raw window
      → raw.lines ≡ map shaped rs
      → Torn raw.fragment
      → tail_state record_hash encoded_bytes raw window ≡ return tail
      → (b : Bool) × (tail ≡ with_truncate b (end_tail (get_last? rs)))
  tail_state-end raw window rs tail shows lines torn found =
      elim (tail_state-steps raw window tail found) [
        | inl (empty, e) ↦
            (false, rw (no_records rs (subst (λ l. is_empty l ≡ true) lines empty)) e)
        | inr (seen, from, e) ↦
            let (b, finished) = finish_tail-Torn raw.fragment seen torn in
            (
              b,
              e
                  ∙ finished
                  ∙ ap (with_truncate b) (tail_from-end raw window rs seen shows lines from),
            )
      ]
