-- ===== src/Capability.antt =====
-- scripts/registry/capability_engine.py: which capabilities of a skill a host lacks, and the status
-- that follows. The records are those of scripts/registry/models.py.
pub mod Laws
pub mod Optional
mod Examples
use software_builder.Prelude.{
  ℕ, String, Bool, true, false, not, Option, none, some, List, [], ◌∷◌, ◌++◌, map, if◌then◌else◌,
  keep, all, any, count_if, min_by, is_empty,
}
use software_builder.Prelude.Text.{elem}

pub record CapabilityOptional : Type 0 where
  pub name : String
  pub enables : String

pub record CapabilityPath : Type 0 where
  pub name : String
  pub required : List String
  pub optional : List CapabilityOptional

pub data Status : Type 0 where
  unspecified blocked degraded ready : Status

-- The result of `capability_status`.
pub record Resolution : Type 0 where
  pub missing_required : List String
  pub missing_optional : List String
  pub status : Status
  pub active_path : Option CapabilityPath

abbrev pub option_names : List CapabilityOptional → List String
option_names = map (λ item. item.name)

-- `[item.name for item in active_path.optional]`, where there is an active path
abbrev pub active_optional : Option CapabilityPath → List String
active_optional none = []
active_optional (some path) = option_names path.optional

module _ (available : List String) where
  -- `[cap for cap in caps if cap not in available]`
  abbrev pub missing : List String → List String
  missing = keep (λ cap. not (elem cap available))

  -- `all(cap in available for cap in caps)`
  abbrev pub covers : List String → Bool
  covers = all (λ cap. elem cap available)

  abbrev pub complete_paths : List CapabilityPath → List CapabilityPath
  complete_paths = keep (λ path. covers path.required)

  abbrev pub lacking_required : CapabilityPath → ℕ
  lacking_required path = count_if (λ cap. not (elem cap available)) path.required

  abbrev pub lacking_optional : CapabilityPath → ℕ
  lacking_optional path = count_if (λ item. not (elem item.name available)) path.optional

  -- The part of `capability_status` behind the `any_of` block.
  pub with_path : List String → Option CapabilityPath → Resolution
  with_path entry_optional active_path =
      let missing_optional = missing (entry_optional ++ active_optional active_path) in
      record {
        missing_required = [];
        missing_optional = missing_optional;
        status = if is_empty missing_optional then ready else degraded;
        active_path = active_path;
      }

  -- The `any_of` block: `first` is the first path that the entry lists.
  pub choose_path : List String → CapabilityPath → List CapabilityPath → Resolution
  choose_path entry_optional first rest = elim (complete_paths (first ∷ rest)) [
    | [] ↦ record {
      missing_required = missing (min_by lacking_required first rest).required;
      missing_optional = [];
      status = blocked;
      active_path = none;
    }
    | path ∷ paths ↦ with_path entry_optional (some (min_by lacking_optional path paths))
  ]

  pub resolve_available : List String → List String → List CapabilityPath → Resolution
  resolve_available entry_required entry_optional entry_any_of =
      if is_empty (missing entry_required)
      then elim entry_any_of [
        | [] ↦ with_path entry_optional none
        | first ∷ rest ↦ choose_path entry_optional first rest
      ]
      else record {
        missing_required = missing entry_required;
        missing_optional = [];
        status = blocked;
        active_path = none;
      }

unfoldable pub capability_status :
    List String → List String → List CapabilityPath → Option (List String) → Resolution
unfolding resolve_available choose_path with_path
capability_status entry_required entry_optional entry_any_of none = record {
  missing_required = [];
  missing_optional = [];
  status = unspecified;
  active_path = none;
}
capability_status entry_required entry_optional entry_any_of (some available) =
    resolve_available available entry_required entry_optional entry_any_of
