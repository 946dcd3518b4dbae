-- ===== src/Prelude/Dict.antt =====
-- Dictionaries of Python with text keys: association lists in insertion order. A write to a key
-- that is there keeps its place.
use mathlib.Core.List.Memᴰ
use mathlib.Core.List.{List, [], ◌∷◌, Memᴰ}
use mathlib.Core.Path.{◌≡◌, refl, ap}
use mathlib.Core.Logic.{inl, inr}
use mathlib.Core.Option.{Option, none, some}
use Prim.Native.String.{String}
use native.Mathlib.Omega.{arith}
use text.Mathlib.Text.{◌==◌}
use text.Mathlib.TextEquality.{eq_iff}
use software_builder.Prelude.Tests.{if◌then◌else◌, Bool-cases}

abbrev pub Dict {ℓ} : Type ℓ → Type ℓ
Dict V = List (String × V)

module _ {ℓ} {V : Type ℓ} where
  -- `d.get(k)`
  unfoldable pub lookup : String → Dict V → Option V
  lookup k [] = none
  lookup k ((j, v) ∷ d) = if j == k then some v else lookup k d

  -- `d[k] = v`
  unfoldable pub insert : String → V → Dict V → Dict V
  insert k v [] = (k, v) ∷ []
  insert k v ((j, w) ∷ d) = if j == k then (j, v) ∷ d else (j, w) ∷ insert k v d

  -- `d.update(pairs)`
  unfoldable pub update : Dict V → List (String × V) → Dict V
  update d [] = d
  update d ((k, v) ∷ pairs) = update (insert k v d) pairs

  -- The value that the last of the pairs gives to a key.
  unfoldable pub lookup_last : String → List (String × V) → Option V
  lookup_last k [] = none
  lookup_last k ((j, v) ∷ pairs) = elim (lookup_last k pairs) [
    | some w ↦ some w
    | none ↦ if j == k then some v else none
  ]

  abbrev pub or_else : Option V → Option V → Option V
  or_else (some v) o = some v
  or_else none o = o

  pub lookup-insert :
      (k j : String) (v : V) (d : Dict V)
      → lookup j (insert k v d) ≡ (if k == j then some v else lookup j d)
  unfolding lookup insert
  lookup-insert k j v [] = refl
  lookup-insert k j v ((i, w) ∷ d) =
      ground (arith, eq_iff k j, eq_iff i k, eq_iff i j, lookup-insert k j v d)

  pub lookup-update :
      (j : String) (d : Dict V) (pairs : List (String × V))
      → lookup j (update d pairs) ≡ or_else (lookup_last j pairs) (lookup j d)
  unfolding update lookup_last
  lookup-update j d [] = refl
  lookup-update j d ((k, v) ∷ pairs) =
      ground (arith, lookup-update j (insert k v d) pairs, lookup-insert k j v d)

  -- No key stands twice.
  abbrev pub Unique : Dict V → Type ℓ
  Unique [] = Unit
  Unique ((k, v) ∷ d) = (lookup k d ≡ none) × Unique d

  pub insert-Unique : (k : String) (v : V) (d : Dict V) → Unique d → Unique (insert k v d)
  unfolding insert lookup
  insert-Unique k v [] u = (refl, u)
  insert-Unique k v ((j, w) ∷ d) u = elim (Bool-cases (j == k)) [
    | inl same ↦ rw same u
    | inr other ↦ rw other (
      ground (arith, u.0, lookup-insert k j v d, eq_iff k j, eq_iff j k),
      insert-Unique k v d u.1,
    )
  ]

  pub update-Unique : (d : Dict V) (pairs : List (String × V)) → Unique d → Unique (update d pairs)
  unfolding update
  update-Unique d [] u = u
  update-Unique d ((k, v) ∷ pairs) u = update-Unique (insert k v d) pairs (insert-Unique k v d u)

  pub mem_of_lookup : (k : String) (v : V) (d : Dict V) → lookup k d ≡ some v → Memᴰ (k, v) d
  unfolding lookup
  mem_of_lookup k v [] h = absurd (cc h)
  mem_of_lookup k v ((j, w) ∷ d) h = elim (Bool-cases (j == k)) [
    | inl same ↦ Memᴰ.head (ground (arith, eq_iff j k, h))
    | inr other ↦ Memᴰ.tail (mem_of_lookup k v d (rw other at h))
  ]

  pub lookup_of_mem :
      (k : String) (v : V) (d : Dict V) → Unique d → Memᴰ (k, v) d → lookup k d ≡ some v
  unfolding lookup
  lookup_of_mem k v [] u m = absurd (Memᴰ.not-nil m)
  lookup_of_mem k v ((j, w) ∷ d) u m = elim (Memᴰ.cases_cons m) [
    | inl e ↦
        ground (arith, eq_iff j k, ap (λ (p : String × V). p.0) e, ap (λ (p : String × V). p.1) e)
    | inr later ↦ ground (arith, lookup_of_mem k v d u.1 later, u.0, eq_iff j k)
  ]

  pub lookup_last-Unique : (k : String) (d : Dict V) → Unique d → lookup_last k d ≡ lookup k d
  unfolding lookup lookup_last
  lookup_last-Unique k [] u = refl
  lookup_last-Unique k ((j, v) ∷ d) u = ground (arith, lookup_last-Unique k d u.1, u.0, eq_iff j k)
