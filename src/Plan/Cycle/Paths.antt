-- ===== src/Plan/Cycle/Paths.antt =====
-- scripts/implementation_plan.py, `_graph_has_cycle`: paths of dependencies, and the order in which a
-- search without a cycle leaves the nodes.
use mathlib.Core.List.Memᴰ
use mathlib.Core.List.{Memᴰ}
use software_builder.Prelude.{String, ◌≡◌, sym, inl, inr, ◌⊎◌, List, [], ◌∷◌, subst}
use software_builder.Plan.Cycle.{Graph, dependencies}

abbrev pub Edge : Graph → String → String → Type 0
Edge graph u v = Memᴰ v (dependencies graph u)

-- One dependency or more in a row.
pub data Plus (graph : Graph) : String → String → Type 0 where
  one : {u v : String} → Edge graph u v → Plus graph u v
  more : {u v w : String} → Edge graph u v → Plus graph v w → Plus graph u w

-- None or more.
abbrev pub Star : Graph → String → String → Type 0
Star graph u v = (u ≡ v) ⊎ Plus graph u v

module _ (graph : Graph) where
  pub Plus-Edge : {u v w : String} → Plus graph u v → Edge graph v w → Plus graph u w
  Plus-Edge (one e) last = more e (one last)
  Plus-Edge (more e p) last = more e (Plus-Edge p last)

  pub Star-Edge : {u v w : String} → Star graph u v → Edge graph v w → Plus graph u w
  Star-Edge {u} {v} {w} (inl same) last = one (subst (λ x. Edge graph x w) (sym same) last)
  Star-Edge (inr p) last = Plus-Edge p last

  -- Every dependency of a node stands behind it.
  abbrev pub Ordered : List String → Type 0
  Ordered [] = Unit
  Ordered (n ∷ older) = ((d : String) → Edge graph n d → Memᴰ d older) × Ordered older

  Ordered-edge :
      (vs : List String) {u w : String} → Ordered vs → Memᴰ u vs → Edge graph u w → Memᴰ w vs
  Ordered-edge [] ord m e = absurd (Memᴰ.not-nil m)
  Ordered-edge (n ∷ older) {u} {w} (here, ord) m e = elim (Memᴰ.cases_cons m) [
    | inl same ↦ Memᴰ.tail (here w (subst (λ x. Edge graph x w) same e))
    | inr later ↦ Memᴰ.tail (Ordered-edge older ord later e)
  ]

  pub Ordered-plus :
      (vs : List String) {u w : String} → Ordered vs → Memᴰ u vs → Plus graph u w → Memᴰ w vs
  Ordered-plus vs ord m (one e) = Ordered-edge vs ord m e
  Ordered-plus vs ord m (more e p) = Ordered-plus vs ord (Ordered-edge vs ord m e) p

  first_behind :
      (n : String) (older : List String) {w : String}
      → Ordered (n ∷ older)
      → Plus graph n w
      → Memᴰ w older
  first_behind n older (here, ord) (one e) = here _ e
  first_behind n older (here, ord) (more e p) = Ordered-plus older ord (here _ e) p

  pub Ordered-acyclic :
      (vs : List String) {w : String} → Ordered vs → Memᴰ w vs → ¬ (Plus graph w w)
  Ordered-acyclic [] ord m p = absurd (Memᴰ.not-nil m)
  Ordered-acyclic (n ∷ older) {w} ord m p = elim (Memᴰ.cases_cons m) [
    | inl same ↦
        let at_n : Plus graph n n = subst (λ x. Plus graph x x) same p in
        Ordered-acyclic older (ord.1) (first_behind n older ord at_n) at_n
    | inr later ↦ Ordered-acyclic older (ord.1) later p
  ]
