-- ===== src/Prelude/Json.antt =====
-- The values that `json.loads` gives: an object is the list of its entries, and a number that is no
-- integer is its `repr`.
use Prim.Native.Nat.{ℕ}
use Prim.Native.String.{String}
use mathlib.Core.Path.{◌≡◌, refl}
use mathlib.Core.Logic.{◌⊎◌, inl, inr}
use mathlib.Core.Bool.{Bool}
use mathlib.Core.Option.{Option, none, some}
use mathlib.Core.List.{List, [], ◌∷◌}
use software_builder.Prelude.Dict.{Dict, lookup}

mutual
  pub data Json : Type 0 where
    null : Json
    boolean : Bool → Json
    int : ℕ → Json
    -- The integer below zero by one more than the number.
    negative : ℕ → Json
    float : String → Json
    string : String → Json
    array : Items → Json
    object : Fields → Json

  pub data Items : Type 0 where
    end : Items
    item : Json → Items → Items

  pub data Fields : Type 0 where
    empty : Fields
    field : String → Json → Fields → Fields

abbrev pub items : Items → List Json
items end = []
items (item j js) = j ∷ items js

abbrev pub fields : Fields → Dict Json
fields empty = []
fields (field k j fs) = (k, j) ∷ fields fs

-- `value.get(key)`, with None where there is no such key.
unfoldable pub get : String → Dict Json → Json
get key d = elim (lookup key d) [ none ↦ null | some j ↦ j ]

-- The entries of a mapping, and the items of a list.
abbrev pub as_mapping : Json → Option (Dict Json)
as_mapping (object fs) = some (fields fs)
as_mapping _ = none

abbrev pub as_list : Json → Option (List Json)
as_list (array js) = some (items js)
as_list _ = none

abbrev pub as_text : Json → Option String
as_text (string s) = some s
as_text _ = none

abbrev pub keys : Dict Json → List String
keys [] = []
keys ((k, j) ∷ d) = k ∷ keys d

pub as_mapping-cases : (j : Json) → ((fs : Fields) × (j ≡ object fs)) ⊎ (as_mapping j ≡ none)
as_mapping-cases null = inr refl
as_mapping-cases (boolean b) = inr refl
as_mapping-cases (int n) = inr refl
as_mapping-cases (negative n) = inr refl
as_mapping-cases (float r) = inr refl
as_mapping-cases (string s) = inr refl
as_mapping-cases (array js) = inr refl
as_mapping-cases (object fs) = inl (fs, refl)
