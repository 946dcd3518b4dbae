-- ===== src/Plan/Cycle/Stack.antt =====
-- scripts/implementation_plan.py, `_graph_has_cycle`: the stack as a path, and what its
-- iterators have yielded.
use mathlib.Core.List.Memᴰ
use mathlib.Core.List.{Memᴰ}
use software_builder.Prelude.{
  String, ◌≡◌, refl, sym, inl, inr, ◌⊎◌, Option, none, some, List, [], ◌∷◌, map, subst,
}
use software_builder.Plan.Cycle.{Graph, Frame}
use software_builder.Plan.Cycle.Paths.{Edge, Plus, one, more, Star, Star-Edge}

abbrev pub names : List Frame → List String
names stack = map Frame.node stack

module _ (graph : Graph) (start : String) where
  abbrev pub Yields : Frame → Type 0
  Yields f = (d : String) → Memᴰ d f.rest → Edge graph f.node d

  -- The stack is a path from the start, and what the iterators have yet to yield are dependencies.
  abbrev pub Stacked : List Frame → Type 0
  Stacked [] = Unit
  Stacked (f ∷ []) = (f.node ≡ start) × Yields f
  Stacked (f ∷ g ∷ below) = Edge graph g.node f.node × Yields f × Stacked (g ∷ below)

  -- What an iterator has yielded was visited, or stands above on the stack.
  abbrev pub Done : List String → Option String → List Frame → Type 0
  Done visited above [] = Unit
  Done visited above (f ∷ below) =
      ((d : String) → Edge graph f.node d → Memᴰ d f.rest ⊎ (Memᴰ d visited ⊎ (above ≡ some d)))
      × Done visited (some f.node) below

  pub to_top :
      (f : Frame) (below : List Frame) {x : String}
      → Stacked (f ∷ below)
      → Memᴰ x (names (f ∷ below))
      → Star graph x f.node
  to_top f [] st m = elim (Memᴰ.cases_cons m) [
    | inl same ↦ inl same
    | inr later ↦ absurd (Memᴰ.not-nil later)
  ]
  to_top f (g ∷ below) st m = elim (Memᴰ.cases_cons m) [
    | inl same ↦ inl same
    | inr later ↦ inr (Star-Edge graph (to_top g below (st.2) later) (st.0))
  ]

  pub from_start : (f : Frame) (below : List Frame) → Stacked (f ∷ below) → Star graph start f.node
  from_start f [] st = inl (sym (st.0))
  from_start f (g ∷ below) st = inr (Star-Edge graph (from_start g below (st.2)) (st.0))

  -- A dependency that leads back.
  pub round : {v w : String} → Edge graph v w → Star graph w v → Plus graph v v
  round {v} {w} e (inl same) = one (subst (λ x. Edge graph v x) same e)
  round e (inr back) = more e back

  Done-more :
      (visited : List String) (n : String) (above : Option String) (stack : List Frame)
      → Done visited above stack
      → Done (n ∷ visited) above stack
  Done-more visited n above [] done = tt
  Done-more visited n above (f ∷ below) (here, done) = (
    (λ d e. elim (here d e) [
      | inl later ↦ inl later
      | inr (inl old) ↦ inr (inl (Memᴰ.tail old))
      | inr (inr up) ↦ inr (inr up)
    ]),
    Done-more visited n (some f.node) below done,
  )

  -- The node above leaves the stack, and is visited.
  pub Done-pop :
      (visited : List String) (n : String) (stack : List Frame)
      → Done visited (some n) stack
      → Done (n ∷ visited) none stack
  Done-pop visited n [] done = tt
  Done-pop visited n (f ∷ below) (here, done) = (
    (λ d e. elim (here d e) [
      | inl later ↦ inl later
      | inr (inl old) ↦ inr (inl (Memᴰ.tail old))
      | inr (inr up) ↦ inr (inl (Memᴰ.head cc))
    ]),
    Done-more visited n (some f.node) below done,
  )

  pub Stacked-drop :
      (node d : String) (ds : List String) (below : List Frame)
      → Stacked (record { node = node; rest = d ∷ ds } ∷ below)
      → Stacked (record { node = node; rest = ds } ∷ below)
  Stacked-drop node d ds [] (bottom, yields) = (bottom, λ x m. yields x (Memᴰ.tail m))
  Stacked-drop node d ds (g ∷ below) (e, yields, st) = (e, (λ x m. yields x (Memᴰ.tail m)), st)

  pub Stacked-Edge :
      (node d : String) (ds : List String) (below : List Frame)
      → Stacked (record { node = node; rest = d ∷ ds } ∷ below)
      → Edge graph node d
  Stacked-Edge node d ds [] (bottom, yields) = yields d (Memᴰ.head refl)
  Stacked-Edge node d ds (g ∷ below) (e, yields, st) = yields d (Memᴰ.head refl)

  pub Stacked-pop : (f : Frame) (below : List Frame) → Stacked (f ∷ below) → Stacked below
  Stacked-pop f [] st = tt
  Stacked-pop f (g ∷ below) (e, yields, st) = st

  pub bottom_start :
      (f : Frame) (below : List Frame) → Stacked (f ∷ below) → below ≡ [] → f.node ≡ start
  bottom_start f [] st e = st.0
  bottom_start f (g ∷ below) st e = absurd (cc e)

  -- The dependency that the top's iterator yields is accounted for.
  pub Done-yield :
      (visited : List String) (above : Option String) (node d : String) (ds : List String)
      (below : List Frame)
      → Done visited none (record { node = node; rest = d ∷ ds } ∷ below)
      → Memᴰ d visited ⊎ (above ≡ some d)
      → Done visited above (record { node = node; rest = ds } ∷ below)
  Done-yield visited above node d ds below (here, done) seen = (
    (λ x e. elim (here x e) [
      | inl m ↦ elim (Memᴰ.cases_cons m) [
        | inl same ↦ inr (subst (λ y. Memᴰ y visited ⊎ (above ≡ some y)) (sym same) seen)
        | inr later ↦ inl later
      ]
      | inr (inl old) ↦ inr (inl old)
      | inr (inr up) ↦ absurd (cc up)
    ]),
    done,
  )
