-- ===== src/Plan/Waves/Layered.antt =====
-- scripts/implementation_plan.py, `validate_implementation_plan`: what the order of
-- `execution_waves` is where the checks of the dependencies have no message.
use text.Mathlib.Text.{◌==◌}
use text.Mathlib.TextEquality.{eq_iff}
use mathlib.Core.List.Memᴰ
use mathlib.Core.List.{Memᴰ}
use software_builder.Prelude.{
  ℕ, suc, keep, ◌≤◌, String, true, false, not, some, List, [], ◌∷◌, ◌++◌, ◌≡◌, subst, refl, inl,
  inr, arith, Bool-cases, Option-cases, if◌then◌else◌,
}
use software_builder.Prelude.Dict.{Dict, lookup}
use software_builder.Prelude.Text.{elem}
use software_builder.Plan.Cycle.{Graph, dependencies}
use software_builder.Plan.Cycle.Paths.{Edge}
use software_builder.Plan.Waves.{
  is_placed, known_graph, dependency_errors, graph_errors, absent_errors, is_late, late_of,
  late_errors,
}
use software_builder.Plan.Waves.Placed.{
  elem-append, put, put_all, AllFresh, lookup-put, lookup-put_all, lookup-put_all-origin,
}
use software_builder.Plan.Waves.Clean.{report_if-nil, append-nil}

-- Each dependency of a task stands in a layer before that of the task.
abbrev pub Layered : Graph → List String → List (List String) → Type 0
Layered graph done [] = Unit
Layered graph done (l ∷ ls) =
    ((t d : String) → elem t l ≡ true → Edge graph t d → elem d done ≡ true)
    × Layered graph (l ++ done) ls

-- What holds of each entry of the map holds of each dependency.
abbrev Entries : (String → String → Type 0) → Graph → Type 0
Entries P [] = Unit
Entries P ((t, ds) ∷ graph) = ((d : String) → Memᴰ d ds → P t d) × Entries P graph

dependencies-cons :
    (s t : String) (ds : List String) (graph : Graph)
    → dependencies ((s, ds) ∷ graph) t ≡ (if s == t then ds else dependencies graph t)
unfolding dependencies lookup
dependencies-cons s t ds graph = ground arith

Entries-Edge :
    (P : String → String → Type 0) (graph : Graph)
    → Entries P graph
    → (t d : String) → Edge graph t d
    → P t d
unfolding dependencies lookup
Entries-Edge P [] h t d m = absurd (Memᴰ.not-nil m)
Entries-Edge P ((s, ds) ∷ graph) (first, rest) t d m =
    let among = subst (λ xs. Memᴰ d xs) (dependencies-cons s t ds graph) m in
    elim (Bool-cases (s == t)) [
      | inl same ↦ subst (λ x. P x d) ((eq_iff s t).0 same) (first d (rw same at among))
      | inr other ↦ Entries-Edge P graph rest t d (rw other at among)
    ]

module _ (ids : List String) where
  dependency_errors-nil :
      (t : String) (ds : List String)
      → dependency_errors ids t ds ≡ []
      → (d : String) → Memᴰ d ds
      → elem d ids ≡ true
  unfolding dependency_errors
  dependency_errors-nil t [] h d m = absurd (Memᴰ.not-nil m)
  dependency_errors-nil t (x ∷ ds) h d m =
      let (known, rest) = report_if-nil (not (elem x ids)) _ _ h in
      elim (Memᴰ.cases_cons m) [
        | inl e ↦ rw e (ground arith)
        | inr later ↦ dependency_errors-nil t ds (report_if-nil (x == t) _ _ rest).1 d later
      ]

  graph_errors-Entries :
      (graph : Graph) → graph_errors ids graph ≡ [] → Entries (λ t d. elem d ids ≡ true) graph
  unfolding graph_errors
  graph_errors-Entries [] h = tt
  graph_errors-Entries ((t, ds) ∷ graph) h =
      let (first, rest) = append-nil (dependency_errors ids t ds) (graph_errors ids graph) h in
      (dependency_errors-nil t ds first, graph_errors-Entries graph rest)

  pub graph_errors-known :
      (graph : Graph)
      → graph_errors ids graph ≡ []
      → (t d : String) → Edge graph t d
      → elem d ids ≡ true
  graph_errors-known graph h = Entries-Edge _ graph (graph_errors-Entries graph h)

  known_dependencies :
      (t : String) (ds : List String)
      → dependency_errors ids t ds ≡ []
      → keep (λ d. elem d ids) ds ≡ ds
  unfolding dependency_errors
  known_dependencies t [] h = refl
  known_dependencies t (x ∷ ds) h =
      let (known, rest) = report_if-nil (not (elem x ids)) _ _ h in
      let later = known_dependencies t ds (report_if-nil (x == t) _ _ rest).1 in
      ground (arith, later)

  pub known_graph-same :
      (graph : Graph) → graph_errors ids graph ≡ [] → known_graph ids graph ≡ graph
  unfolding graph_errors known_graph
  known_graph-same [] h = refl
  known_graph-same ((t, ds) ∷ graph) h =
      let (first, rest) = append-nil (dependency_errors ids t ds) (graph_errors ids graph) h in
      rw (known_dependencies t ds first, known_graph-same graph rest) refl

module _ (p : Dict ℕ) where
  abbrev OnTime : String → String → Type 0
  OnTime t d = is_late (lookup d p) (lookup t p) ≡ false

  late_of-nil :
      (t : String) (ds : List String) → late_of p t ds ≡ [] → (d : String) → Memᴰ d ds → OnTime t d
  unfolding late_of
  late_of-nil t [] h d m = absurd (Memᴰ.not-nil m)
  late_of-nil t (x ∷ ds) h d m =
      let (first, rest) = report_if-nil (is_late (lookup x p) (lookup t p)) _ _ h in
      elim (Memᴰ.cases_cons m) [ inl e ↦ rw e first | inr later ↦ late_of-nil t ds rest d later ]

  late_errors-Entries : (graph : Graph) → late_errors p graph ≡ [] → Entries OnTime graph
  unfolding late_errors
  late_errors-Entries [] h = tt
  late_errors-Entries ((t, ds) ∷ graph) h =
      let (first, rest) = append-nil (late_of p t ds) (late_errors p graph) h in
      (late_of-nil t ds first, late_errors-Entries graph rest)

  pub late_errors-OnTime :
      (graph : Graph) → late_errors p graph ≡ [] → (t d : String) → Edge graph t d → OnTime t d
  late_errors-OnTime graph h = Entries-Edge _ graph (late_errors-Entries graph h)

  pub absent_errors-nil :
      (ids : List String)
      → absent_errors p ids ≡ []
      → (t : String) → elem t ids ≡ true
      → is_placed t p ≡ true
  unfolding absent_errors
  absent_errors-nil [] h t m = absurd (cc m)
  absent_errors-nil (x ∷ ids) h t m =
      let (first, rest) = report_if-nil (not (is_placed x p)) _ _ h in
      elim (Bool-cases (x == t)) [
        | inl same ↦ subst (λ y. is_placed y p ≡ true) ((eq_iff x t).0 same) (ground arith)
        | inr other ↦ absent_errors-nil ids rest t (rw other at m)
      ]

is_late-le : (j w : ℕ) → w ≤ j → is_late (some j) (some w) ≡ true
unfolding is_late
is_late-le j w h = ground arith

module _ (ids : List String) (graph : Graph) where
  pub AllFresh-Layered :
      (w : ℕ) (p : Dict ℕ) (ls : List (List String)) (done : List String)
      → AllFresh ids w p ls
      → ((d : String) (j : ℕ) → lookup d p ≡ some j → elem d done ≡ true)
      → ((t d : String) → Edge graph t d → is_placed d (put_all w p ls) ≡ true)
      → ((t d : String) → Edge graph t d → OnTime (put_all w p ls) t d)
      → Layered graph done ls
  unfolding is_placed
  AllFresh-Layered w p [] done f before placed on_time = tt
  AllFresh-Layered w p (l ∷ ls) done f before placed on_time = (
    λ t d m edge. elim (Option-cases (lookup d (put_all w p (l ∷ ls)))) [
      | inl absent ↦ absurd (cc (rw (is_placed, absent) at (placed t d edge)))
      | inr (j, here) ↦ elim (lookup-put_all-origin d j w p (l ∷ ls) here) [
        | inl e ↦ before d j e
        | inr le ↦
            let at_w : lookup t (put_all w p (l ∷ ls)) ≡ some w =
              lookup-put_all ids t w (suc w) (put w p l) ls f.1 (rw (lookup-put t w p l, m) refl) in
            let late : is_late (some j) (some w) ≡ false = rw (here, at_w) at (on_time t d edge) in
            absurd (cc (late, is_late-le j w le))
      ]
    ],
    AllFresh-Layered (suc w) (put w p l) ls (l ++ done) f.1
        (λ d j e. ground (arith, elem-append d l done, lookup-put d w p l, e, before d j)) placed
        on_time,
  )
