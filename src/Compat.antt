-- ===== src/Compat.antt =====
-- scripts/registry/compatibility_resolver.py: whether a host can run a skill. The host records are
-- those of scripts/registry/host_registry.py, with the fields that the resolver reads.
pub mod Surface
pub mod Verified
mod Examples
use text.Mathlib.Text.{◌==◌}
use software_builder.Prelude.{
  String, Bool, true, false, not, Option, none, some, List, [], ◌∷◌, map, if◌then◌else◌, keep, any,
  is_empty,
}
use software_builder.Prelude.Outcome.{Outcome, return, raise, ◌>>=◌}
use software_builder.Prelude.Dict.{Dict, lookup, update}
use software_builder.Capability
use software_builder.Capability.{
  CapabilityOptional, CapabilityPath, Status, Resolution, option_names, capability_status,
}

pub data CapabilityState : Type 0 where
  available unavailable unknown : CapabilityState

pub data HostVerification : Type 0 where
  conflicted stale unverified verified : HostVerification

-- `CapabilitySpec.values`
abbrev pub CapabilitySpec : Type 0
CapabilitySpec = List (String × CapabilityState)

pub record SurfaceSpec : Type 0 where
  pub kind : String
  pub discovery : List String
  pub capabilities : CapabilitySpec

pub record HostSpec : Type 0 where
  pub id : String
  pub surfaces : List SurfaceSpec
  pub capabilities : CapabilitySpec
  pub verification : HostVerification

pub record HostRegistry : Type 0 where
  pub hosts : Dict HostSpec
  pub aliases : Dict HostSpec

-- `CapabilitiesSpec` of a skill's entry
pub record SkillEntry : Type 0 where
  pub required : List String
  pub optional : List CapabilityOptional
  pub any_of : List CapabilityPath

abbrev is_available : String × CapabilityState → Bool
is_available (name, available) = true
is_available (name, _) = false

-- `CapabilitySpec.available`
pub spec_available : CapabilitySpec → List String
spec_available values = map (λ entry. entry.0) (keep is_available values)

pub data CompatStatus : Type 0 where
  unspecified blocked degraded ready conflicted_host unverified_host : CompatStatus

abbrev pub from_status : Status → CompatStatus
from_status Status.unspecified = unspecified
from_status Status.blocked = blocked
from_status Status.degraded = degraded
from_status Status.ready = ready

unfoldable pub combine_status : Status → HostVerification → CompatStatus
combine_status Status.blocked verification = blocked
combine_status status conflicted = conflicted_host
combine_status status unverified = unverified_host
combine_status status _ = from_status status

pub data Error : Type 0 where
  unknown_host unknown_skill : String → Error

unfoldable pub resolve_host : HostRegistry → String → Outcome Error HostSpec
resolve_host registry host_id = elim (lookup host_id registry.hosts) [
  | some host ↦ return host
  | none ↦ elim (lookup host_id registry.aliases) [
    | some host ↦ return host
    | none ↦ raise (unknown_host host_id)
  ]
]

-- `next((item for item in host.surfaces if item.kind == surface_kind), None)`
unfoldable pub find_surface : String → List SurfaceSpec → Option SurfaceSpec
find_surface kind [] = none
find_surface kind (s ∷ surfaces) = if s.kind == kind then some s else find_surface kind surfaces

-- `merged.update(dict(surface.capabilities.values))` over `dict(host.capabilities.values)`
merged : CapabilitySpec → CapabilitySpec → Dict CapabilityState
merged host surface = update (update [] host) (update [] surface)

unfoldable pub available_capabilities : HostSpec → Option String → List String
unfolding find_surface merged spec_available
available_capabilities host none = spec_available host.capabilities
available_capabilities host (some kind) = elim (find_surface kind host.surfaces) [
  | none ↦ spec_available host.capabilities
  | some surface ↦
      if is_empty surface.capabilities
      then spec_available host.capabilities
      else spec_available (merged host.capabilities surface.capabilities)
]

pub is_discoverable : HostSpec → Bool
is_discoverable host = any (λ surface. not (is_empty surface.discovery)) host.surfaces

unfoldable pub resolve_capability : SkillEntry → List String → Resolution
resolve_capability entry names =
    capability_status entry.required (option_names entry.optional) entry.any_of (some names)

pub record CompatibilityResult : Type 0 where
  pub host_id : String
  pub skill_id : String
  pub status : CompatStatus
  pub resolution : Resolution
  pub host_verification : HostVerification
  pub discoverable : Bool
  pub surface_kind : Option String

lookup_skill : Dict SkillEntry → String → Outcome Error SkillEntry
lookup_skill skills skill_id = elim (lookup skill_id skills) [
  | none ↦ raise (unknown_skill skill_id)
  | some entry ↦ return entry
]

pub resolve :
    HostRegistry
    → Dict SkillEntry
    → String
    → String
    → Option String
    → Outcome Error CompatibilityResult
unfolding lookup_skill
resolve host_registry skills host_id skill_id surface_kind = do
  host ← resolve_host host_registry host_id
  entry ← lookup_skill skills skill_id
  let resolution = resolve_capability entry (available_capabilities host surface_kind)
  return (record {
    host_id = host_id;
    skill_id = skill_id;
    status = combine_status resolution.status host.verification;
    resolution = resolution;
    host_verification = host.verification;
    discoverable = is_discoverable host;
    surface_kind = surface_kind;
  })
