-- ===== src/Capability/Laws.antt =====
-- scripts/registry/capability_engine.py: what the statuses of `capability_status` mean.
use mathlib.Core.List.Memᴰ
use mathlib.Core.List.{Memᴰ}
use software_builder.Prelude.{
  ◌≤◌, String, ◌≡◌, refl, sym, ◌≢◌, ◌↔◌, ◌⊎◌, inl, inr, true, not, Bool-cases, ap, Option, none,
  some, List, [], ◌∷◌, arith, keep-nil_iff, min_by, subst,
}
use software_builder.Prelude.Text.{elem}
use software_builder.Prelude.Members.{elem_iff, all_iff, mem-keep, min_by-mem, min_by-le}
use software_builder.Capability.{
  CapabilityPath, blocked, Resolution, missing, covers, complete_paths, lacking_required,
  lacking_optional, with_path, choose_path, resolve_available, capability_status,
}

module _ (available : List String) where
  -- Every capability of the list is available.
  abbrev pub Has : List String → Type 0
  Has caps = (cap : String) → Memᴰ cap caps → Memᴰ cap available

  -- Some alternative is complete, or the entry lists none.
  abbrev pub HasPath : List CapabilityPath → Type 0
  HasPath any_of = (any_of ≡ []) ⊎ ((path : CapabilityPath) × Memᴰ path any_of × Has path.required)

  covers_iff : (caps : List String) → (covers available caps ≡ true) ↔ Has caps
  covers_iff caps = (
    λ h cap m. (elem_iff cap available).0 ((all_iff _ caps).0 h cap m),
    λ h.
        (all_iff (λ cap. elem cap available) caps).1
          (λ cap m. (elem_iff cap available).1 (h cap m)),
  )

  pub missing-nil_iff : (caps : List String) → (missing available caps ≡ []) ↔ Has caps
  missing-nil_iff caps = (
    λ e. (covers_iff caps).0 ((keep-nil_iff (λ cap. elem cap available) caps).0 e),
    λ h. (keep-nil_iff (λ cap. elem cap available) caps).1 ((covers_iff caps).1 h),
  )

  -- The list holds the capabilities of `caps` that are not available, and no others.
  abbrev pub NamesMissing : List String → List String → Type 0
  NamesMissing caps names =
      (cap : String) → Memᴰ cap names ↔ (Memᴰ cap caps × (¬ Memᴰ cap available))

  missing-NamesMissing : (caps : List String) → NamesMissing caps (missing available caps)
  missing-NamesMissing caps cap =
      let kept = mem-keep (λ (c : String). not (elem c available)) cap caps in
      let is_mem = elem_iff cap available in
      (
        λ m. let h = kept.0 m in (h.0, λ there. cc (h.1, ap not (is_mem.1 there))),
        λ h. kept.1 (
          h.0,
          elim (Bool-cases (elem cap available)) [
            | inl there ↦ absurd (h.1 (is_mem.0 there))
            | inr absent ↦ cc (ap not absent)
          ],
        ),
      )

  -- The list names what the alternative that lacks the fewest capabilities lacks.
  abbrev pub NamesClosest : List CapabilityPath → List String → Type 0
  NamesClosest any_of names =
      (path : CapabilityPath) × Memᴰ path any_of
      × ((other : CapabilityPath)
          → Memᴰ other any_of
          → lacking_required available path ≤ lacking_required available other)
      × NamesMissing path.required names

  with_path_status :
      (optional : List String) (path : Option CapabilityPath)
      → (with_path available optional path).status ≢ blocked
  unfolding with_path
  with_path_status optional path = ground arith

  complete_paths_iff :
      (path : CapabilityPath) (paths : List CapabilityPath)
      → Memᴰ path (complete_paths available paths) ↔ (Memᴰ path paths × Has path.required)
  complete_paths_iff path paths =
      let kept = mem-keep (λ (p : CapabilityPath). covers available p.required) path paths in
      let has = covers_iff path.required in
      (λ m. ((kept.0 m).0, has.0 (kept.0 m).1), λ h. kept.1 (h.0, has.1 h.1))

  -- What the `any_of` block answers: a block where no alternative is complete, and otherwise the
  -- complete alternative that lacks the fewest optional capabilities.
  pub data Choice (optional : List String) (any_of : List CapabilityPath) (r : Resolution)
      : Type 0 where
    none_complete :
        ¬ HasPath any_of
        → r.status ≡ blocked
        → r.missing_required ≢ []
        → NamesClosest any_of r.missing_required
        → Choice optional any_of r
    chosen :
        (path : CapabilityPath)
        → Memᴰ path any_of
        → Has path.required
        → ((other : CapabilityPath)
            → Memᴰ other any_of
            → Has other.required
            → lacking_optional available path ≤ lacking_optional available other)
        → r ≡ with_path available optional (some path)
        → Choice optional any_of r

  module _ (optional : List String) (first : CapabilityPath) (rest : List CapabilityPath) where
    no_HasPath : complete_paths available (first ∷ rest) ≡ [] → ¬ HasPath (first ∷ rest)
    no_HasPath e (inl none_listed) = cc
    no_HasPath e (inr (path, m, has)) =
        Memᴰ.not-nil (subst (Memᴰ path) e ((complete_paths_iff path (first ∷ rest)).1 (m, has)))

    choose_path-Choice : Choice optional (first ∷ rest) (choose_path available optional first rest)
    unfolding choose_path
    choose_path-Choice = go (complete_paths available (first ∷ rest)) refl
      where
        go :
            (paths : List CapabilityPath)
            → complete_paths available (first ∷ rest) ≡ paths
            → Choice optional (first ∷ rest) (choose_path available optional first rest)
        go [] e =
            let closest = min_by (lacking_required available) first rest in
            rw (e, choose_path)
              (none_complete (no_HasPath e) refl
                (λ covered. no_HasPath e (
                  inr (
                    closest,
                    min_by-mem (lacking_required available) first rest,
                    (missing-nil_iff closest.required).0 covered,
                  )))
                (
                  closest,
                  min_by-mem (lacking_required available) first rest,
                  min_by-le (lacking_required available) first rest,
                  missing-NamesMissing closest.required,
                ))
        go (path ∷ paths) e =
            let best = min_by (lacking_optional available) path paths in
            let is_best =
              (complete_paths_iff best (first ∷ rest)).0
                (subst (Memᴰ best) (sym e) (min_by-mem (lacking_optional available) path paths)) in
            rw (e, choose_path)
              (chosen best is_best.0 is_best.1
                (λ other m has.
                  min_by-le (lacking_optional available) path paths other
                    (subst (Memᴰ other) e ((complete_paths_iff other (first ∷ rest)).1 (m, has))))
                refl)

  -- How `capability_status` comes to its answer.
  pub data Answer (required optional : List String) (any_of : List CapabilityPath) (r : Resolution)
      : Type 0 where
    lacks_required :
        ¬ Has required
        → r.status ≡ blocked
        → r.missing_required ≢ []
        → NamesMissing required r.missing_required
        → Answer required optional any_of r
    no_paths :
        Has required
        → any_of ≡ []
        → r ≡ with_path available optional none
        → Answer required optional any_of r
    by_choice : Has required → Choice optional any_of r → Answer required optional any_of r

  pub answer :
      (required optional : List String) (any_of : List CapabilityPath)
      → Answer required optional any_of (resolve_available available required optional any_of)
  unfolding resolve_available
  answer required optional any_of = go (missing available required) refl any_of
    where
      go :
          (lacking : List String)
          → missing available required ≡ lacking
          → (any_of : List CapabilityPath)
          → Answer required optional any_of (resolve_available available required optional any_of)
      go [] e [] = rw (e, resolve_available) (no_paths ((missing-nil_iff required).0 e) refl refl)
      go [] e (first ∷ rest) =
          rw (e, resolve_available)
            (by_choice ((missing-nil_iff required).0 e) (choose_path-Choice optional first rest))
      go (name ∷ names_left) e any_of =
          let names = subst (NamesMissing required) e (missing-NamesMissing required) in
          let lacks : ¬ Has required = λ h. cc (e, (missing-nil_iff required).1 h) in
          rw (e, resolve_available) (lacks_required lacks refl (λ empty. cc empty) names)

  -- The statement of `capability_status_blocked`, for any result that an `Answer` describes.
  abbrev BlockedIff : List String → List CapabilityPath → Resolution → Type 0
  BlockedIff required any_of r =
      ((r.status ≢ blocked) ↔ (Has required × HasPath any_of))
      × ((r.missing_required ≡ []) ↔ (r.status ≢ blocked))
      × ((¬ Has required) → NamesMissing required r.missing_required)
      × (Has required → r.status ≡ blocked → NamesClosest any_of r.missing_required)

  with_path-BlockedIff :
      (required optional : List String) (any_of : List CapabilityPath)
      (path : Option CapabilityPath)
      → Has required
      → HasPath any_of
      → BlockedIff required any_of (with_path available optional path)
  unfolding with_path
  with_path-BlockedIff required optional any_of path h p = (
    (λ _. (h, p), λ _. with_path_status optional path),
    (λ _. with_path_status optional path, λ _. refl),
    λ n. absurd (n h),
    λ _ b. absurd (with_path_status optional path b),
  )

  Answer-BlockedIff :
      (required optional : List String) (any_of : List CapabilityPath) {r : Resolution}
      → Answer required optional any_of r
      → BlockedIff required any_of r
  Answer-BlockedIff required optional any_of (lacks_required h b m names) = (
    (λ n. absurd (n b), λ k. absurd (h k.0)),
    (λ e. absurd (m e), λ n. absurd (n b)),
    λ _. names,
    λ has. absurd (h has),
  )
  Answer-BlockedIff required optional any_of (no_paths h e r) =
      subst (BlockedIff required any_of) (sym r)
        (with_path-BlockedIff required optional any_of none h (inl e))
  Answer-BlockedIff required optional any_of (by_choice h (none_complete n b m names)) = (
    (λ k. absurd (k b), λ k. absurd (n k.1)),
    (λ e. absurd (m e), λ k. absurd (k b)),
    λ lacks. absurd (lacks h),
    λ _ _. names,
  )
  Answer-BlockedIff required optional any_of (by_choice h (chosen path listed has least r)) =
      subst (BlockedIff required any_of) (sym r)
        (with_path-BlockedIff required optional any_of (some path) h (inr (path, listed, has)))

-- On a host whose capabilities are known, a skill is BLOCKED exactly when a required capability is
-- not available, or the skill lists alternatives and none of them is complete; and a BLOCKED
-- answer, and no other, names missing required capabilities: exactly the required ones that are not
-- available where there are such, and otherwise exactly those that a listed alternative requires and
-- that are not available, of an alternative that lacks the fewest.
pub capability_status_blocked :
    (available required optional : List String) (any_of : List CapabilityPath)
    → let r = capability_status required optional any_of (some available) in
      ((r.status ≢ blocked) ↔ (Has available required × HasPath available any_of))
      × ((r.missing_required ≡ []) ↔ (r.status ≢ blocked))
      × ((¬ Has available required) → NamesMissing available required r.missing_required)
      × (Has available required
          → r.status ≡ blocked
          → NamesClosest available any_of r.missing_required)
unfolding capability_status
capability_status_blocked available required optional any_of =
    Answer-BlockedIff available required optional any_of (answer available required optional any_of)
