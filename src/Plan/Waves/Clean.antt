-- ===== src/Plan/Waves/Clean.antt =====
-- scripts/implementation_plan.py, `validate_implementation_plan`: what the loops over
-- `execution_waves` have passed where they have no message.
use software_builder.Prelude.{
  ℕ, suc, String, Bool, true, false, List, [], ◌∷◌, ◌++◌, ◌≡◌, sym, subst, ap, ◌∙◌, refl,
}
use software_builder.Prelude.Dict.{Dict, insert}
use software_builder.Prelude.Text.{elem}
use software_builder.Prelude.Json.{
  Json, string, array, object, null, boolean, int, negative, float, as_list,
}
use software_builder.Plan.Reports.{PlanError, texts, list_of, report_if}
use software_builder.Plan.Waves.{Placing, place_id, place, place_wave, place_listed, place_waves}
use software_builder.Plan.Waves.Placed.{put, put_all, Fresh, AllFresh}

pub report_if-nil :
    (b : Bool) (e : PlanError) (es : List PlanError)
    → report_if b e ++ es ≡ []
    → (b ≡ false) × (es ≡ [])
report_if-nil true e es h = absurd (cc h)
report_if-nil false e es h = (refl, h)

pub append-nil : (xs ys : List PlanError) → xs ++ ys ≡ [] → (xs ≡ []) × (ys ≡ [])
append-nil [] ys h = (refl, h)
append-nil (x ∷ xs) ys h = absurd (cc h)

-- The texts of each wave.
abbrev pub layers : List Json → List (List String)
layers [] = []
layers (wave ∷ waves) = texts (list_of wave) ∷ layers waves

module _ (ids : List String) where
  -- A step without a message, from positions to positions.
  abbrev Placed : ℕ → List String → Placing → Placing → Type 0
  Placed w ts s r =
      (s.errors ≡ []) × Fresh ids w s.positions ts × (r.positions ≡ put w s.positions ts)

  place_id-clean :
      (w : ℕ) (t : String) (b : Bool) (s : Placing)
      → elem t ids ≡ b
      → (place_id ids w t b s).errors ≡ []
      → Placed w (t ∷ []) s (place_id ids w t b s)
  unfolding place_id
  place_id-clean w t false s e h = absurd (cc h)
  place_id-clean w t true s e h =
      let (new, clean) = report_if-nil _ _ s.errors h in (clean, (e, new, tt), refl)

  place-clean :
      (w : ℕ) (j : Json) (s : Placing)
      → (place ids w j s).errors ≡ []
      → Placed w (texts (j ∷ [])) s (place ids w j s)
  unfolding place
  place-clean w null s h = absurd (cc h)
  place-clean w (boolean b) s h = absurd (cc h)
  place-clean w (int n) s h = absurd (cc h)
  place-clean w (negative n) s h = absurd (cc h)
  place-clean w (float f) s h = absurd (cc h)
  place-clean w (string t) s h = place_id-clean w t (elem t ids) s refl h
  place-clean w (array js) s h = absurd (cc h)
  place-clean w (object fs) s h = absurd (cc h)

  texts-head : (j : Json) (js : List Json) → texts (j ∷ js) ≡ texts (j ∷ []) ++ texts js
  texts-head null js = refl
  texts-head (boolean b) js = refl
  texts-head (int n) js = refl
  texts-head (negative n) js = refl
  texts-head (float f) js = refl
  texts-head (string t) js = refl
  texts-head (array items) js = refl
  texts-head (object fs) js = refl

  put-append :
      (w : ℕ) (p : Dict ℕ) (ts us : List String) → put w p (ts ++ us) ≡ put w (put w p ts) us
  put-append w p [] us = refl
  put-append w p (t ∷ ts) us = put-append w (insert t w p) ts us

  append-Fresh :
      (w : ℕ) (p : Dict ℕ) (ts us : List String)
      → Fresh ids w p ts
      → Fresh ids w (put w p ts) us
      → Fresh ids w p (ts ++ us)
  append-Fresh w p [] us f g = g
  append-Fresh w p (t ∷ ts) us (known, new, f) g =
      (known, new, append-Fresh w (insert t w p) ts us f g)

  Placed-then :
      (w : ℕ) (ts us : List String) (s r q : Placing)
      → Placed w ts s r
      → Placed w us r q
      → Placed w (ts ++ us) s q
  Placed-then w ts us s r q (clean, f, e) (_, g, d) = (
    clean,
    append-Fresh w s.positions ts us f (subst (λ p. Fresh ids w p us) e g),
    rw (d, e, put-append w s.positions ts us) refl,
  )

  place_wave-clean :
      (w : ℕ) (js : List Json) (s : Placing)
      → (place_wave ids w js s).errors ≡ []
      → Placed w (texts js) s (place_wave ids w js s)
  unfolding place_wave
  place_wave-clean w [] s h = (h, tt, refl)
  place_wave-clean w (j ∷ js) s h =
      let later = place_wave-clean w js (place ids w j s) h in
      subst (λ ts. Placed w ts s (place_wave ids w js (place ids w j s))) (sym (texts-head j js))
        (Placed-then w (texts (j ∷ [])) (texts js) s (place ids w j s)
          (place_wave ids w js (place ids w j s)) (place-clean w j s later.0) later)

  place_listed-clean :
      (w : ℕ) (j : Json) (s : Placing)
      → (place_listed ids w (as_list j) s).errors ≡ []
      → Placed w (texts (list_of j)) s (place_listed ids w (as_list j) s)
  unfolding place_listed
  place_listed-clean w null s h = absurd (cc h)
  place_listed-clean w (boolean b) s h = absurd (cc h)
  place_listed-clean w (int n) s h = absurd (cc h)
  place_listed-clean w (negative n) s h = absurd (cc h)
  place_listed-clean w (float f) s h = absurd (cc h)
  place_listed-clean w (string t) s h = absurd (cc h)
  place_listed-clean w (array js) s h = place_wave-clean w _ s h
  place_listed-clean w (object fs) s h = absurd (cc h)

  pub place_waves-clean :
      (w : ℕ) (waves : List Json) (s : Placing)
      → (place_waves ids w waves s).errors ≡ []
      → (s.errors ≡ [])
        × AllFresh ids w s.positions (layers waves)
        × ((place_waves ids w waves s).positions ≡ put_all w s.positions (layers waves))
  unfolding place_waves
  place_waves-clean w [] s h = (h, tt, refl)
  place_waves-clean w (wave ∷ waves) s h =
      let (clean, fresh, same) =
        place_waves-clean (suc w) waves (place_listed ids w (as_list wave) s) h in
      let (before, first, moved) = place_listed-clean w wave s clean in
      (
        before,
        (first, subst (λ p. AllFresh ids (suc w) p (layers waves)) moved fresh),
        same ∙ ap (λ p. put_all (suc w) p (layers waves)) moved,
      )
