-- ===== src/Compat/Examples.antt =====
-- Runs of scripts/registry/compatibility_resolver.py.
use mathlib.Core.List.{Memᴰ}
use software_builder.Prelude.{◌≡◌, refl, ◌↔◌, inl, true, none, some, [], ◌∷◌}
use software_builder.Prelude.Dict.{Dict, lookup, update, insert, lookup_last, or_else}
use software_builder.Capability
use software_builder.Capability.{Resolution, capability_status}
use software_builder.Compat.{
  available, unavailable, unknown, verified, SurfaceSpec, HostSpec, HostRegistry, SkillEntry, ready,
  CompatibilityResult, is_discoverable, find_surface, available_capabilities, resolve_host,
  combine_status, resolve_capability, resolve,
}
use software_builder.Prelude.Outcome.{return}
use software_builder.Compat.Surface.{available_capabilities-surface}
use software_builder.Compat.Verified.{Credible, resolve-Credible}

abbrev ide : SurfaceSpec
ide = record {
  kind = "ide";
  discovery = "global" ∷ [];
  capabilities = ("git", unavailable) ∷ ("mcp", available) ∷ [];
}

abbrev cursor : HostSpec
cursor = record {
  id = "cursor";
  surfaces = ide ∷ [];
  capabilities = ("git", available) ∷ ("net", unknown) ∷ [];
  verification = verified;
}

abbrev registry : HostRegistry
registry = record { hosts = ("cursor", cursor) ∷ []; aliases = [] }

abbrev skills : Dict SkillEntry
skills = ("review", record { required = "mcp" ∷ []; optional = []; any_of = [] }) ∷ []

available_capabilities-surface_example : Memᴰ "git" (available_capabilities cursor (some "ide")) ↔ (
    or_else (lookup_last "git" ide.capabilities) (lookup_last "git" cursor.capabilities)
    ≡ some available)
unfolding find_surface
available_capabilities-surface_example =
    available_capabilities-surface cursor "ide" "git" ide refl refl

surface_run : available_capabilities cursor (some "ide") ≡ "mcp" ∷ []
unfolding available_capabilities update insert
surface_run = refl

abbrev answer : CompatibilityResult
answer = record {
  host_id = "cursor";
  skill_id = "review";
  status = ready;
  resolution = record {
    missing_required = [];
    missing_optional = [];
    status = Capability.ready;
    active_path = none;
  };
  host_verification = verified;
  discoverable = true;
  surface_kind = some "ide";
}

resolve_run : resolve registry skills "cursor" "review" (some "ide") ≡ return answer
unfolding resolve resolve_host resolve_capability capability_status combine_status
    available_capabilities is_discoverable lookup update insert
resolve_run = refl

resolve-Credible_example : Credible registry skills "cursor" "review" (some "ide")
resolve-Credible_example =
    resolve-Credible registry skills "cursor" "review" (some "ide") answer resolve_run (inl refl)
