-- ===== src/Compat/Surface.antt =====
-- scripts/registry/compatibility_resolver.py, `available_capabilities`: the surface's entries
-- against the host's.
use mathlib.Core.List.Memᴰ
use mathlib.Core.List.{Memᴰ}
use software_builder.Prelude.{
  String, ◌≡◌, refl, sym, ◌↔◌, true, false, none, some, [], arith, keep, is_empty, ◌∙◌,
}
use software_builder.Prelude.Dict.{
  lookup, update, lookup_last, or_else, lookup-update, update-Unique, Unique, mem_of_lookup,
  lookup_of_mem, lookup_last-Unique,
}
use software_builder.Prelude.Members.{mem-keep}
use software_builder.Compat.{
  CapabilityState, available, unavailable, unknown, CapabilitySpec, SurfaceSpec, HostSpec,
  is_available, spec_available, find_surface, merged, available_capabilities,
}

state_available :
    (entry : String × CapabilityState) → is_available entry ≡ true → entry ≡ (entry.0, available)
state_available (name, available) h = refl
state_available (name, unavailable) h = cc
state_available (name, unknown) h = cc

mem-spec_available :
    (name : String) (values : CapabilitySpec)
    → Memᴰ name (spec_available values) ↔ Memᴰ (name, available) values
unfolding spec_available
mem-spec_available name values = (
  λ m.
      let (entry, kept, e) =
        Memᴰ.of_map (λ (entry : String × CapabilityState). entry.0) (keep is_available values) m in
      let (there, state) = (mem-keep is_available entry values).0 kept in
      Memᴰ.cast (λ i. (sym e i, available)) (Memᴰ.cast (sym (state_available entry state)) there),
  λ m.
      Memᴰ.map (λ (entry : String × CapabilityState). entry.0)
        ((mem-keep is_available (name, available) values).1 (m, refl)),
)

lookup-nil : (name : String) → lookup {V = CapabilityState} name [] ≡ none
unfolding lookup
lookup-nil name = refl

lookup-merged :
    (name : String) (host surface : CapabilitySpec)
    → lookup name (merged host surface) ≡ or_else (lookup_last name surface) (lookup_last name host)
unfolding merged
lookup-merged name host surface = ground (
  arith,
  lookup-update name (update [] host) (update [] surface),
  lookup_last-Unique name (update [] surface) (update-Unique [] surface tt),
  lookup-update name [] surface,
  lookup-update name [] host,
  lookup-nil name,
)

merged-Unique : (host surface : CapabilitySpec) → Unique (merged host surface)
unfolding merged
merged-Unique host surface =
    update-Unique (update [] host) (update [] surface) (update-Unique [] host tt)

-- On a surface that declares capabilities of its own, a capability counts as available exactly when
-- the surface says AVAILABLE of it, or says nothing of it and the host says AVAILABLE: the last
-- entry for a name counts.
pub available_capabilities-surface :
    (host : HostSpec) (kind name : String) (surface : SurfaceSpec)
    → find_surface kind host.surfaces ≡ some surface
    → is_empty surface.capabilities ≡ false
    → Memᴰ name (available_capabilities host (some kind)) ↔ (
        or_else (lookup_last name surface.capabilities) (lookup_last name host.capabilities)
        ≡ some available)
unfolding available_capabilities
available_capabilities-surface host kind name surface found declares =
    let m = mem-spec_available name (merged host.capabilities surface.capabilities) in
    let dict = merged host.capabilities surface.capabilities in
    let e = lookup-merged name host.capabilities surface.capabilities in
    rw (found, available_capabilities)
      (rw declares (
        λ h.
            sym e
            ∙ lookup_of_mem name available dict
                (merged-Unique host.capabilities surface.capabilities) (m.0 h),
        λ h. m.1 (mem_of_lookup name available dict (e ∙ h)),
      ))
