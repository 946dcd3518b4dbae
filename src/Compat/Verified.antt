-- ===== src/Compat/Verified.antt =====
-- scripts/registry/compatibility_resolver.py, `resolve`: what a credible answer needs.
use software_builder.Prelude.{String, ◌≡◌, ◌≢◌, ◌⊎◌, Option, some, arith}
use software_builder.Prelude.Dict.{Dict, lookup}
use software_builder.Capability.{Status, option_names}
use software_builder.Prelude.Outcome.{return, and_then-return}
use software_builder.Capability.Laws.{Has, HasPath, capability_status_blocked}
use software_builder.Compat.{
  HostVerification, stale, verified, HostSpec, HostRegistry, SkillEntry, CompatStatus, degraded,
  ready, combine_status, resolve_host, available_capabilities, resolve_capability,
  CompatibilityResult, lookup_skill, resolve,
}

-- The two answers that say a skill works on a host.
abbrev pub IsUsable : CompatStatus → Type 0
IsUsable status = (status ≡ ready) ⊎ (status ≡ degraded)

combine_status-IsUsable :
    (status : Status) (verification : HostVerification)
    → IsUsable (combine_status status verification)
    → (status ≢ Status.blocked) × ((verification ≡ verified) ⊎ (verification ≡ stale))
unfolding combine_status
combine_status-IsUsable Status.blocked v h = ground arith
combine_status-IsUsable Status.unspecified v h = ground arith
combine_status-IsUsable Status.degraded v h = ground arith
combine_status-IsUsable Status.ready v h = ground arith

-- What stands behind an answer of `resolve`.
record Resolved (registry : HostRegistry) (skills : Dict SkillEntry) (host_id skill_id : String)
    (surface_kind : Option String) (r : CompatibilityResult) : Type 0 where
  host : HostSpec
  entry : SkillEntry
  found :
      (lookup host_id registry.hosts ≡ some host) ⊎ (lookup host_id registry.aliases ≡ some host)
  listed : lookup skill_id skills ≡ some entry
  verification : r.host_verification ≡ host.verification
  resolution : r.resolution ≡ resolve_capability entry (available_capabilities host surface_kind)
  status : r.status ≡ combine_status r.resolution.status r.host_verification

resolve_host-found :
    (registry : HostRegistry) (host_id : String) (host : HostSpec)
    → resolve_host registry host_id ≡ return host
    → (lookup host_id registry.hosts ≡ some host) ⊎ (lookup host_id registry.aliases ≡ some host)
unfolding resolve_host
resolve_host-found registry host_id host h = ground arith

lookup_skill-listed :
    (skills : Dict SkillEntry) (skill_id : String) (entry : SkillEntry)
    → lookup_skill skills skill_id ≡ return entry
    → lookup skill_id skills ≡ some entry
unfolding lookup_skill
lookup_skill-listed skills skill_id entry h = ground arith

resolve-Resolved :
    (registry : HostRegistry) (skills : Dict SkillEntry) (host_id skill_id : String)
    (surface_kind : Option String) {r : CompatibilityResult}
    → resolve registry skills host_id skill_id surface_kind ≡ return r
    → Resolved registry skills host_id skill_id surface_kind r
unfolding resolve
resolve-Resolved registry skills host_id skill_id surface_kind h =
    let (host, found, rest) = and_then-return _ (resolve_host registry host_id) h in
    let (entry, listed, answer) = and_then-return _ (lookup_skill skills skill_id) rest in
    record {
      host = host;
      entry = entry;
      found = resolve_host-found registry host_id host found;
      listed = lookup_skill-listed skills skill_id entry listed;
      verification = cc answer;
      resolution = cc answer;
      status = cc answer;
    }

-- The host and the skill behind an answer that says the skill works.
pub record Credible (registry : HostRegistry) (skills : Dict SkillEntry) (host_id skill_id : String)
    (surface_kind : Option String) : Type 0 where
  pub host : HostSpec
  pub entry : SkillEntry
  pub found :
      (lookup host_id registry.hosts ≡ some host) ⊎ (lookup host_id registry.aliases ≡ some host)
  pub listed : lookup skill_id skills ≡ some entry
  pub trusted : (host.verification ≡ verified) ⊎ (host.verification ≡ stale)
  pub required : Has (available_capabilities host surface_kind) entry.required
  pub alternative : HasPath (available_capabilities host surface_kind) entry.any_of

-- `resolve` answers READY or DEGRADED only for a host of the registry that is VERIFIED or STALE and
-- has every required capability of the skill, and a complete alternative if the skill lists any.
pub resolve-Credible :
    (registry : HostRegistry) (skills : Dict SkillEntry) (host_id skill_id : String)
    (surface_kind : Option String) (r : CompatibilityResult)
    → resolve registry skills host_id skill_id surface_kind ≡ return r
    → IsUsable r.status
    → Credible registry skills host_id skill_id surface_kind
unfolding resolve_capability
resolve-Credible registry skills host_id skill_id surface_kind r h usable =
    let b = resolve-Resolved registry skills host_id skill_id surface_kind h in
    let names = available_capabilities b.host surface_kind in
    let (open_, trusted) =
      combine_status-IsUsable r.resolution.status r.host_verification (rw (b.status) at usable) in
    let needs =
      ((capability_status_blocked names b.entry.required (option_names b.entry.optional)
        b.entry.any_of).0
      ).0
        (λ e. open_ (rw (b.resolution) e)) in
    record {
      host = b.host;
      entry = b.entry;
      found = b.found;
      listed = b.listed;
      trusted = rw (← b.verification) trusted;
      required = needs.0;
      alternative = needs.1;
    }
