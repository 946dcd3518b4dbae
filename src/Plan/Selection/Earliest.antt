-- ===== src/Plan/Selection/Earliest.antt =====
-- scripts/implementation_plan.py, `select_next_task`: the task that it chooses.
use software_builder.Prelude.{
  String, ◌≡◌, ◌≢◌, ◌↔◌, refl, sym, ◌∙◌, inl, inr, ◌⊎◌, Bool, true, false, ◌&&◌, Option, none, some,
  List, [], ◌∷◌, arith, all, any, All, Bool-cases, ap, subst,
}
use software_builder.Prelude.Dict.{Dict, lookup}
use software_builder.Plan.Selection.{
  TaskStatus, pending, complete, blocked, Task, is_pending, is_complete, is_blocked,
  dependency_complete, wave_blocked, eligible, eligible_tasks, decide_wave, first_eligible,
}

module _ (tasks : Dict Task) (statuses : Dict TaskStatus) where
  -- A task of the plan that waits, and all that it depends on is complete.
  pub record Eligible (task_id : String) (t : Task) : Type 0 where
    pub known : lookup task_id tasks ≡ some t
    pub waiting : lookup task_id statuses ≡ some pending
    pub unblocked : All (λ d. lookup d statuses ≡ some complete) t.dependencies

  all_complete :
      (ds : List String)
      → (all (dependency_complete tasks statuses) ds ≡ true)
        ↔ All (λ d. lookup d statuses ≡ some complete) ds
  unfolding dependency_complete is_complete
  all_complete [] = (λ _. tt, λ _. refl)
  all_complete (d ∷ ds) = ground (arith, all_complete ds)

  both : {a b : Bool} → a && b ≡ true → (a ≡ true) × (b ≡ true)
  both {a = true} {b = true} h = (refl, refl)
  both {a = true} {b = false} h = absurd (cc h)
  both {a = false} h = absurd (cc h)

  is_pending-some : (o : Option TaskStatus) → is_pending o ≡ true → o ≡ some pending
  unfolding is_pending
  is_pending-some o h = ground arith

  eligible_iff :
      (task_id : String) (t : Task)
      → (eligible tasks statuses task_id ≡ some t) ↔ Eligible task_id t
  unfolding eligible is_pending
  eligible_iff task_id t = (
    (λ h. go (lookup task_id tasks) refl h),
    λ e. rw (eligible, e.known, e.waiting, (all_complete t.dependencies).1 e.unblocked) refl,
  )
    where
      go :
          (found : Option Task)
          → lookup task_id tasks ≡ found
          → eligible tasks statuses task_id ≡ some t
          → Eligible task_id t
      go none e h = absurd (cc (rw (eligible, e) at h))
      go (some s) e h =
          elim (Bool-cases (
            is_pending (lookup task_id statuses)
            && all (dependency_complete tasks statuses) s.dependencies)) [
              | inr b ↦ absurd (cc (rw (eligible, e, b) at h))
              | inl b ↦
                  let same : s ≡ t = cc (rw (eligible, e, b) at h) in
                  let (waits, all_done) = both b in
                  record {
                    known = e ∙ ap some same;
                    waiting = is_pending-some (lookup task_id statuses) waits;
                    unblocked =
                        subst (λ x. All (λ d. lookup d statuses ≡ some complete) x.dependencies)
                          same ((all_complete s.dependencies).0 all_done);
                  }
            ]

  -- The first eligible task of a wave.
  abbrev pub FirstOf : List String → Task → Type 0
  FirstOf [] t = ⊥
  FirstOf (task_id ∷ wave) t =
      Eligible task_id t ⊎ (((s : Task) → ¬ (Eligible task_id s)) × FirstOf wave t)

  -- It stands in the earliest wave that has one, and no wave before has a blocked task.
  abbrev pub Earliest : List (List String) → Task → Type 0
  Earliest [] t = ⊥
  Earliest (wave ∷ waves) t =
      FirstOf wave t
      ⊎ (((s : Task) → ¬ (FirstOf wave s))
          × All (λ task_id. lookup task_id statuses ≢ some blocked) wave
          × Earliest waves t)

  not_eligible :
      (task_id : String)
      → eligible tasks statuses task_id ≡ none
      → (s : Task) → ¬ (Eligible task_id s)
  not_eligible task_id e s h = cc ((eligible_iff task_id s).1 h, e)

  -- What the eligible tasks of a wave say of its first one.
  First : List String → Option Task → Type 0
  First wave none = (s : Task) → ¬ (FirstOf wave s)
  First wave (some t) = FirstOf wave t

  abbrev head_of : List Task → Option Task
  head_of [] = none
  head_of (t ∷ ts) = some t

  eligible_tasks-First :
      (wave : List String) → First wave (head_of (eligible_tasks tasks statuses wave))
  unfolding eligible_tasks First
  eligible_tasks-First [] = λ s f. f
  eligible_tasks-First (task_id ∷ wave) =
      go (eligible tasks statuses task_id) refl (eligible_tasks-First wave)
    where
      with_first : Option Task → List Task
      with_first o = elim o [
        | none ↦ eligible_tasks tasks statuses wave
        | some t ↦ t ∷ eligible_tasks tasks statuses wave
      ]

      at_head :
          (o : Option Task)
          → eligible tasks statuses task_id ≡ o
          → First (task_id ∷ wave) (head_of (with_first o))
          → First (task_id ∷ wave) (head_of (eligible_tasks tasks statuses (task_id ∷ wave)))
      at_head o e h = subst (λ x. First (task_id ∷ wave) (head_of (with_first x))) (sym e) h

      go :
          (o : Option Task)
          → eligible tasks statuses task_id ≡ o
          → First wave (head_of (eligible_tasks tasks statuses wave))
          → First (task_id ∷ wave) (head_of (eligible_tasks tasks statuses (task_id ∷ wave)))
      go none e rest = at_head none e (skip (head_of (eligible_tasks tasks statuses wave)) rest)
        where
          skip : (o : Option Task) → First wave o → First (task_id ∷ wave) o
          skip none r =
              λ s f. elim f [ inl h ↦ not_eligible task_id e s h | inr (_, deeper) ↦ r s deeper ]
          skip (some t) r = inr (not_eligible task_id e, r)
      go (some t) e rest = at_head (some t) e (inl ((eligible_iff task_id t).0 e))

  none_blocked :
      (wave : List String)
      → (any (wave_blocked tasks statuses) wave ≡ false)
        ↔ All (λ task_id. lookup task_id statuses ≢ some blocked) wave
  unfolding wave_blocked is_blocked
  none_blocked [] = (λ _. tt, λ _. refl)
  none_blocked (task_id ∷ wave) = ground (arith, none_blocked wave)

  first_unique : (wave : List String) (s t : Task) → FirstOf wave s → FirstOf wave t → s ≡ t
  first_unique [] s t f g = absurd f
  first_unique (task_id ∷ wave) s t (inl h) (inl k) =
      cc ((eligible_iff task_id s).1 h, (eligible_iff task_id t).1 k)
  first_unique (task_id ∷ wave) s t (inl h) (inr k) = absurd (k.0 s h)
  first_unique (task_id ∷ wave) s t (inr h) (inl k) = absurd (h.0 t k)
  first_unique (task_id ∷ wave) s t (inr h) (inr k) = first_unique wave s t (h.1) (k.1)

  decide_wave_iff :
      (ts : List Task) (stuck : Bool) (later : Option Task) (wave : List String)
      (waves : List (List String)) (t : Task)
      → First wave (head_of ts)
      → any (wave_blocked tasks statuses) wave ≡ stuck
      → ((later ≡ some t) ↔ Earliest waves t)
      → (decide_wave tasks statuses ts stuck later ≡ some t) ↔ Earliest (wave ∷ waves) t
  unfolding decide_wave First
  decide_wave_iff (s ∷ ts) stuck later wave waves t first h rest = (
    (λ e. let same : s ≡ t = cc in inl (subst (FirstOf wave) same first)),
    λ e. elim e [
      | inl f ↦ ap some (first_unique wave s t first f)
      | inr (unmet, _, _) ↦ absurd (unmet s first)
    ],
  )
  decide_wave_iff [] true later wave waves t first h rest = (
    (λ e. absurd (cc e)),
    λ e. elim e [
      | inl f ↦ absurd (first t f)
      | inr (_, clear, _) ↦ absurd (cc ((none_blocked wave).1 clear, h))
    ],
  )
  decide_wave_iff [] false later wave waves t first h rest = (
    (λ e. inr (first, (none_blocked wave).0 h, rest.0 e)),
    λ e. elim e [ inl f ↦ absurd (first t f) | inr (_, _, deeper) ↦ rest.1 deeper ],
  )

  -- The selection over the waves is the earliest eligible task, unless a wave without one is blocked
  -- before it.
  pub first_eligible_iff :
      (waves : List (List String)) (t : Task)
      → (first_eligible tasks statuses waves ≡ some t) ↔ Earliest waves t
  unfolding first_eligible
  first_eligible_iff [] t = (λ h. absurd (cc h), λ e. absurd e)
  first_eligible_iff (wave ∷ waves) t =
      decide_wave_iff (eligible_tasks tasks statuses wave) _ _ wave waves t
        (eligible_tasks-First wave) refl (first_eligible_iff waves t)
