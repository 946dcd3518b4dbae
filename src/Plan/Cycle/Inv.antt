-- ===== src/Plan/Cycle/Inv.antt =====
-- scripts/implementation_plan.py, `_graph_has_cycle`: what holds of the search from one start.
use text.Mathlib.Text.{◌==◌}
use text.Mathlib.TextEquality.{eq_iff}
use mathlib.Core.List.Memᴰ
use mathlib.Core.List.{Memᴰ}
use software_builder.Prelude.{
  String, ◌≡◌, refl, sym, inl, inr, true, false, not, none, some, List, [], ◌∷◌, Bool-cases,
}
use software_builder.Prelude.Text.{elem}
use software_builder.Prelude.Members.{elem_iff, mem-keep}
use software_builder.Plan.Cycle.{Graph, Frame, Search, advance}
use software_builder.Plan.Cycle.Paths.{Plus, Star, Ordered}
use software_builder.Plan.Cycle.Stack.{
  names, Stacked, Done, to_top, from_start, round, Done-pop, Stacked-drop, Stacked-Edge,
  Stacked-pop, bottom_start, Done-yield,
}

-- A cycle that one of the nodes leads to.
abbrev pub Cyclic : Graph → List String → Type 0
Cyclic graph nodes = (a : String) × (w : String) × Memᴰ a nodes × Star graph a w × Plus graph w w

module _ (graph : Graph) (start : String) (nodes before : List String)
    (listed : Memᴰ start nodes) where
  pub record Inv (stack : List Frame) (s : Search) : Type 0 where
    pub on_stack : (x : String) → Memᴰ x s.visiting → Memᴰ x (names stack)
    pub path : Stacked graph start stack
    pub sound : s.found ≡ true → Cyclic graph nodes
    pub done : s.found ≡ false → Done graph start s.visited none stack
    pub order : s.found ≡ false → Ordered graph s.visited
    pub ended : stack ≡ [] → Memᴰ start s.visited
    pub kept : (x : String) → Memᴰ x before → Memᴰ x s.visited

  pub pop-Inv :
      (s : Search) (node : String) (below : List Frame)
      → Inv (record { node = node; rest = [] } ∷ below) s
      → let t = advance graph s node [] below in Inv t.stack t
  unfolding advance
  pop-Inv s node below inv = record {
    on_stack = λ x m.
        let (open_, other) = (mem-keep (λ (y : String). not (y == node)) x s.visiting).0 m in
        elim (Memᴰ.cases_cons (inv.on_stack x open_)) [
          | inl same ↦ absurd (cc ((eq_iff x node).1 same, other))
          | inr later ↦ later
        ];
    path = Stacked-pop graph start _ below inv.path;
    sound = inv.sound;
    done = λ clear. Done-pop graph start s.visited node below ((inv.done clear).1);
    order = λ clear. (
      (λ d e. elim ((inv.done clear).0 d e) [
        | inl none_left ↦ absurd (Memᴰ.not-nil none_left)
        | inr (inl old) ↦ old
        | inr (inr up) ↦ absurd (cc up)
      ]),
      inv.order clear,
    );
    ended = λ e. Memᴰ.head (sym (bottom_start graph start _ below inv.path e));
    kept = λ x m. Memᴰ.tail (inv.kept x m);
  }

  pub advance-Inv :
      (s : Search) (node d : String) (ds : List String) (below : List Frame)
      → Inv (record { node = node; rest = d ∷ ds } ∷ below) s
      → let t = advance graph s node (d ∷ ds) below in Inv t.stack t
  unfolding advance
  advance-Inv s node d ds below inv = elim (Bool-cases (elem d s.visiting)) [
    | inl open_ ↦ rw open_ (record {
      on_stack = inv.on_stack;
      path = Stacked-drop graph start node d ds below inv.path;
      sound = λ _.
          let above =
            to_top graph start _ below inv.path
              (inv.on_stack d ((elem_iff d s.visiting).0 open_)) in
          let into = from_start graph start _ below inv.path in
          let edge = Stacked-Edge graph start node d ds below inv.path in
          (start, node, listed, into, round graph start edge above);
      done = λ clear. absurd (cc clear);
      order = λ clear. absurd (cc clear);
      ended = λ e. absurd (cc e);
      kept = inv.kept;
    })
    | inr closed ↦ elim (Bool-cases (elem d s.visited)) [
      | inl old ↦
          rw (closed, old)
            (record {
              on_stack = inv.on_stack;
              path = Stacked-drop graph start node d ds below inv.path;
              sound = inv.sound;
              done = λ clear.
                  Done-yield graph start s.visited none node d ds below (inv.done clear)
                    (inl ((elem_iff d s.visited).0 old));
              order = inv.order;
              ended = λ e. absurd (cc e);
              kept = inv.kept;
            })
      | inr new ↦
          rw (closed, new)
            (record {
              on_stack = λ x m. elim (Memᴰ.cases_cons m) [
                | inl same ↦ Memᴰ.head same
                | inr later ↦ Memᴰ.tail (inv.on_stack x later)
              ];
              path = (
                Stacked-Edge graph start node d ds below inv.path,
                (λ x m. m),
                Stacked-drop graph start node d ds below inv.path,
              );
              sound = inv.sound;
              done = λ clear. (
                (λ x e. inl e),
                Done-yield graph start s.visited (some d) node d ds below (inv.done clear)
                    (inr refl),
              );
              order = inv.order;
              ended = λ e. absurd (cc e);
              kept = inv.kept;
            })
    ]
  ]
