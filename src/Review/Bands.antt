-- ===== src/Review/Bands.antt =====
-- docs/skill-framework/shared/confidence_bands.py, and `apply_confidence_cap` of
-- skills/pr-review/scripts/pr_review_policy_guards.py over it. The argument `upper` is `str.upper` of
-- a text without the blanks around it; a value that is no text is none.
use software_builder.Prelude.{
  ℕ, zero, suc, String, Bool, true, false, ◌&&◌, ◌||◌, Option, none, some, [], ◌∷◌, ◌≡◌, refl, ap,
  arith, Option-cases, inl, inr, if◌then◌else◌, ltb,
}
use software_builder.Prelude.Dict.{Dict, lookup}

pub data Band : Type 0 where
  high medium low unknown : Band

-- BAND_ORDER
unfoldable pub band_order : Band → ℕ
band_order high = 3
band_order medium = 2
band_order low = 1
band_order unknown = 0

unfoldable pub band_names : Dict Band
band_names = ("HIGH", high) ∷ ("MEDIUM", medium) ∷ ("LOW", low) ∷ ("UNKNOWN", unknown) ∷ []

-- None is the ValueError.
unfoldable pub normalize_band : (String → String) → Option String → Option Band
normalize_band upper none = none
normalize_band upper (some value) = lookup (upper value) band_names

unfoldable pub rank : (String → String) → Option String → Option ℕ
rank upper value = elim (normalize_band upper value) [ none ↦ none | some b ↦ some (band_order b) ]

unfoldable pub cap_at : Band → Band → Band
cap_at band ceiling = if ltb (band_order ceiling) (band_order band) then ceiling else band

pub record Evidence : Type 0 where
  pub single_source : Bool
  pub unresolved_contradiction : Bool
  pub assumed_only : Bool
  pub partial_report : Bool

is_high : Band → Bool
is_high high = true
is_high _ = false

-- The cap of a band that is read.
unfoldable pub cap : Evidence → Band → Band
unfolding is_high
cap evidence band =
    let assumed = if evidence.assumed_only then cap_at band low else band in
    let sourced =
      if is_high assumed && (evidence.single_source || evidence.unresolved_contradiction)
      then medium
      else assumed in
    if evidence.partial_report then cap_at sourced medium else sourced

unfoldable pub apply_confidence_cap : (String → String) → Evidence → Option String → Option Band
apply_confidence_cap upper evidence proposed = elim (normalize_band upper proposed) [
  | none ↦ none
  | some band ↦ some (cap evidence band)
]

-- The highest order of a band that the evidence supports.
abbrev pub ceiling : Evidence → ℕ
ceiling e =
    if e.assumed_only
    then 1
    else if e.single_source || (e.unresolved_contradiction || e.partial_report)
    then 2
    else 3

abbrev lesser : ℕ → ℕ → ℕ
lesser a b = if ltb a b then a else b

-- The evidence that holds what either holds.
abbrev pub either : Evidence → Evidence → Evidence
either e f = record {
  single_source = e.single_source || f.single_source;
  unresolved_contradiction = e.unresolved_contradiction || f.unresolved_contradiction;
  assumed_only = e.assumed_only || f.assumed_only;
  partial_report = e.partial_report || f.partial_report;
}

cap-order : (e : Evidence) (b : Band) → band_order (cap e b) ≡ lesser (ceiling e) (band_order b)
unfolding cap cap_at band_order is_high
cap-order e high = ground arith
cap-order e medium = ground arith
cap-order e low = ground arith
cap-order e unknown = ground arith

band_of : ℕ → Band
band_of zero = unknown
band_of (suc zero) = low
band_of (suc (suc zero)) = medium
band_of _ = high

band_of-order : (b : Band) → band_of (band_order b) ≡ b
unfolding band_of band_order
band_of-order high = refl
band_of-order medium = refl
band_of-order low = refl
band_of-order unknown = refl

same_order : (a b : Band) → band_order a ≡ band_order b → a ≡ b
same_order a b h = cc (band_of-order a, band_of-order b, ap band_of h)

ceiling-either : (e f : Evidence) → ceiling (either e f) ≡ lesser (ceiling e) (ceiling f)
ceiling-either e f = ground arith

-- The caps of two pieces of evidence, one behind the other, are the cap of what either holds: they
-- compose in any order.
pub cap-cap : (e f : Evidence) (b : Band) → cap e (cap f b) ≡ cap (either e f) b
cap-cap e f b = same_order _ _ (
    ground
      (arith, cap-order e (cap f b), cap-order f b, cap-order (either e f) b, ceiling-either e f))

abbrev pub orders : Option Band → Option ℕ
orders none = none
orders (some b) = some (band_order b)

abbrev pub lowered : ℕ → Option ℕ → Option ℕ
lowered n none = none
lowered n (some m) = some (lesser n m)

-- A capped band is the proposed one or the ceiling of the evidence, whichever is lower; a value that
-- is no band has none.
pub apply_confidence_cap-rank :
    (upper : String → String) (e : Evidence) (proposed : Option String)
    → orders (apply_confidence_cap upper e proposed) ≡ lowered (ceiling e) (rank upper proposed)
unfolding apply_confidence_cap rank
apply_confidence_cap-rank upper e proposed = elim (Option-cases (normalize_band upper proposed)) [
  | inl unread ↦ rw (apply_confidence_cap, rank, unread) refl
  | inr (band, read) ↦ rw (apply_confidence_cap, rank, read) (ap some (cap-order e band))
]
