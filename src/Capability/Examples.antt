-- ===== src/Capability/Examples.antt =====
-- Runs of scripts/registry/capability_engine.py.
use software_builder.Prelude.{String, ◌≡◌, refl, ◌≢◌, ◌↔◌, some, List, [], ◌∷◌}
use software_builder.Capability.{CapabilityPath, blocked, degraded, capability_status}
use software_builder.Capability.Laws.{
  Has, HasPath, NamesMissing, NamesClosest, capability_status_blocked,
}
use software_builder.Capability.Optional.{Describes, capability_status-Describes}

abbrev mcp : CapabilityPath
mcp = record {
  name = "mcp";
  required = "mcp" ∷ [];
  optional = record { name = "threads"; enables = "" } ∷ [];
}

abbrev api : CapabilityPath
api = record { name = "api"; required = "token" ∷ "net" ∷ []; optional = [] }

abbrev host : List String
host = "git" ∷ "mcp" ∷ []

run_degraded : (capability_status ("git" ∷ []) [] (api ∷ mcp ∷ []) (some host)).status ≡ degraded
unfolding capability_status
run_degraded = refl

run_blocked :
    (capability_status ("git" ∷ []) [] (api ∷ []) (some host)).missing_required
    ≡ "token" ∷ "net" ∷ []
unfolding capability_status
run_blocked = refl

capability_status_blocked_example :
    let r = capability_status ("git" ∷ []) [] (api ∷ mcp ∷ []) (some host) in
    ((r.status ≢ blocked) ↔ (Has host ("git" ∷ []) × HasPath host (api ∷ mcp ∷ [])))
    × ((r.missing_required ≡ []) ↔ (r.status ≢ blocked))
    × ((¬ Has host ("git" ∷ [])) → NamesMissing host ("git" ∷ []) r.missing_required)
    × (Has host ("git" ∷ [])
        → r.status ≡ blocked
        → NamesClosest host (api ∷ mcp ∷ []) r.missing_required)
capability_status_blocked_example = capability_status_blocked host ("git" ∷ []) [] (api ∷ mcp ∷ [])

run_not_blocked : (capability_status ("git" ∷ []) [] (api ∷ mcp ∷ []) (some host)).status ≢ blocked
unfolding capability_status
run_not_blocked = λ e. cc e

capability_status-Describes_example :
    Describes host []
      (api ∷ mcp ∷ [])
      (capability_status ("git" ∷ []) [] (api ∷ mcp ∷ []) (some host))
capability_status-Describes_example =
    capability_status-Describes host ("git" ∷ []) [] (api ∷ mcp ∷ []) run_not_blocked
