-- ===== src/Topo/Edges.antt =====
-- internal/graph/topo.go, TopoSort: the arrays that the loop over the items builds are those of the
-- dependencies between the items.
use pgdesign.Base.{
  ℕ, suc, ◌+◌, ◌≤◌, ◌<◌, Text, List, [], ◌∷◌, ◌++◌, Option, none, some, inl, inr, ◌≡◌, refl, arith,
  Bool-cases, if◌then◌else◌, length, subst, text_eq, append_assoc, append-nil,
}
use pgdesign.Topo.{Counts, name_to_idx, count_dependency, count_deps, count_items}
use pgdesign.Topo.Build.{Built, add_dependency-Built}
use pgdesign.Topo.Names.{name_to_idx-some}

-- The edge of a dependency that the map has.
unfoldable pub edges_to : Option ℕ → ℕ → List (ℕ × ℕ)
edges_to none i = []
edges_to (some d) i = (d, i) ∷ []

module _ {T : Type 0} (get_name : T → Text) (get_deps : T → List Text) where
  -- The edges of the item at `i`: its dependencies on other items of the list.
  unfoldable pub deps_edges : List T → Text → ℕ → List Text → List (ℕ × ℕ)
  deps_edges items name i [] = []
  deps_edges items name i (dep ∷ deps) =
      (if text_eq dep name then [] else edges_to (name_to_idx get_name 0 items dep) i)
      ++ deps_edges items name i deps

  unfoldable pub item_edges : List T → ℕ → List T → List (ℕ × ℕ)
  item_edges items i [] = []
  item_edges items i (x ∷ rest) =
      deps_edges items (get_name x) i (get_deps x) ++ item_edges items (suc i) rest

  count_one :
      (items : List T) (edges : List (ℕ × ℕ)) (g : Counts) (o : Option ℕ) (i : ℕ)
      → ((d : ℕ) → o ≡ some d → d < length items)
      → i < length items
      → Built (length items) edges g
      → Built (length items) (edges ++ edges_to o i) (count_dependency o i g)
  unfolding edges_to count_dependency
  count_one items edges g none i inside b h = rw append-nil h
  count_one items edges g (some d) i inside b h =
      add_dependency-Built (length items) edges g d i h (inside d refl) b

  count_deps-Built :
      (items : List T) (name : Text) (i : ℕ) (deps : List Text) (edges : List (ℕ × ℕ)) (g : Counts)
      → i < length items
      → Built (length items) edges g
      → Built
          (length items)
          (edges ++ deps_edges items name i deps)
          (count_deps get_name get_deps items name i deps g)
  unfolding deps_edges count_deps
  count_deps-Built items name i [] edges g b h = rw append-nil h
  count_deps-Built items name i (dep ∷ deps) edges g b h =
      let found = name_to_idx get_name 0 items dep in
      let inside : (d : ℕ) → found ≡ some d → d < length items = λ d f.
        let (e, at, c, _) = name_to_idx-some get_name 0 items dep d f in omega (arith, at, c) in
      let this = if text_eq dep name then [] else edges_to found i in
      let g' = if text_eq dep name then g else count_dependency found i g in
      let next : Built (length items) (edges ++ this) g' = elim (Bool-cases (text_eq dep name)) [
        | inl e ↦ rw (e, append-nil) h
        | inr e ↦ rw e (count_one items edges g found i inside b h)
      ] in
      subst (λ l. Built (length items) l (count_deps get_name get_deps items name i deps g'))
        (append_assoc edges this (deps_edges items name i deps))
        (count_deps-Built items name i deps (edges ++ this) g' b next)

  pub count_items-Built :
      (items : List T) (i : ℕ) (rest : List T) (edges : List (ℕ × ℕ)) (g : Counts)
      → i + length rest ≤ length items
      → Built (length items) edges g
      → Built
          (length items)
          (edges ++ item_edges items i rest)
          (count_items get_name get_deps items i rest g)
  unfolding item_edges count_items
  count_items-Built items i [] edges g b h = rw append-nil h
  count_items-Built items i (x ∷ rest) edges g b h =
      let name = get_name x in
      let deps = get_deps x in
      let next = count_deps-Built items name i deps edges g (omega (arith, b)) h in
      subst
        (λ l. Built (length items) l (
          count_items get_name get_deps items (suc i) rest
            (count_deps get_name get_deps items name i deps g)))
        (append_assoc edges (deps_edges items name i deps) (item_edges items (suc i) rest))
        (count_items-Built items (suc i) rest (edges ++ deps_edges items name i deps)
          (count_deps get_name get_deps items name i deps g) (omega (arith, b)) next)
