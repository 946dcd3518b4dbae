-- ===== src/Capability/Optional.antt =====
-- scripts/registry/capability_engine.py: the active path and the optional capabilities of an answer
-- that does not block.
use mathlib.Core.List.{Memᴰ}
use software_builder.Prelude.{
  ◌≤◌, String, ◌≡◌, refl, sym, ◌≢◌, ◌↔◌, inl, inr, true, not, Option, none, some, List, [], ◌∷◌,
  ◌++◌, if◌then◌else◌, is_empty, Bool-cases, subst,
}
use software_builder.Prelude.Text.{elem}
use software_builder.Prelude.Members.{elem_iff, mem-keep}
use software_builder.Capability.{
  CapabilityPath, blocked, degraded, ready, Resolution, active_optional, missing, lacking_optional,
  with_path, capability_status,
}
use software_builder.Capability.Laws.{
  Has, missing-nil_iff, none_complete, chosen, Answer, lacks_required, no_paths, by_choice, answer,
}

-- The optional capabilities that an answer takes into account: the skill's own, and those of its
-- active path.
abbrev pub considered : List String → Resolution → List String
considered optional r = optional ++ active_optional r.active_path

module _ (available : List String) where
  -- The active path is the complete alternative that lacks the fewest optional capabilities, if the
  -- skill lists alternatives at all.
  abbrev pub IsActive : List CapabilityPath → Option CapabilityPath → Type 0
  IsActive any_of none = any_of ≡ []
  IsActive any_of (some path) =
      Memᴰ path any_of
      × Has available path.required
      × ((other : CapabilityPath)
          → Memᴰ other any_of
          → Has available other.required
          → lacking_optional available path ≤ lacking_optional available other)

  pub record Describes (optional : List String) (any_of : List CapabilityPath) (r : Resolution)
      : Type 0 where
    pub active : IsActive any_of r.active_path
    pub ready_iff : (r.status ≡ ready) ↔ Has available (considered optional r)
    pub missing_iff :
        (cap : String)
        → Memᴰ cap r.missing_optional ↔ (Memᴰ cap (considered optional r) × (¬ Memᴰ cap available))

  not-elem_iff : (cap : String) → (not (elem cap available) ≡ true) ↔ (¬ Memᴰ cap available)
  not-elem_iff cap =
      let e = elem_iff cap available in
      elim (Bool-cases (elem cap available)) [
        | inl yes_ ↦ rw yes_ (λ h. cc, λ n. absurd (n (e.0 yes_)))
        | inr no_ ↦ rw no_ (λ _ m. absurd (cc (e.1 m)), λ _. refl)
      ]

  with_path-Describes :
      (optional : List String) (any_of : List CapabilityPath) (path : Option CapabilityPath)
      → IsActive any_of path
      → Describes optional any_of (with_path available optional path)
  unfolding with_path
  with_path-Describes optional any_of path active =
      let caps = optional ++ active_optional path in
      record {
        active = active;
        ready_iff = (
          λ h. (missing-nil_iff available caps).0 (nil_of_ready (missing available caps) h),
          λ h. rw ((missing-nil_iff available caps).1 h),
        );
        missing_iff = λ cap.
            let kept = mem-keep (λ (c : String). not (elem c available)) cap caps in
            let out = not-elem_iff cap in
            (λ m. ((kept.0 m).0, out.0 (kept.0 m).1), λ h. kept.1 (h.0, out.1 h.1));
      }
    where
      nil_of_ready :
          (caps : List String) → (if is_empty caps then ready else degraded) ≡ ready → caps ≡ []
      nil_of_ready [] h = refl
      nil_of_ready (cap ∷ caps) h = cc

  Answer-Describes :
      (required optional : List String) (any_of : List CapabilityPath) {r : Resolution}
      → Answer available required optional any_of r
      → r.status ≢ blocked
      → Describes optional any_of r
  Answer-Describes required optional any_of (lacks_required h b m names) n = absurd (n b)
  Answer-Describes required optional any_of (no_paths h e r) n =
      subst (Describes optional any_of) (sym r) (with_path-Describes optional any_of none e)
  Answer-Describes required optional any_of (by_choice h (none_complete k b m names)) n =
      absurd (n b)
  Answer-Describes required optional any_of (by_choice h (chosen path listed has least r)) n =
      subst (Describes optional any_of) (sym r)
        (with_path-Describes optional any_of (some path) (listed, has, least))

-- Where the answer is not BLOCKED, its active path is a complete alternative that lacks the fewest
-- optional capabilities (there is none exactly if the skill lists no alternative); it is READY
-- exactly when every optional capability of the skill and of the active path is available; and
-- `missing_optional` holds exactly those that are not.
pub capability_status-Describes :
    (available required optional : List String) (any_of : List CapabilityPath)
    → (capability_status required optional any_of (some available)).status ≢ blocked
    → Describes available optional any_of
        (capability_status required optional any_of (some available))
unfolding capability_status
capability_status-Describes available required optional any_of =
    Answer-Describes available required optional any_of (answer available required optional any_of)
