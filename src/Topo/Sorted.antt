-- ===== src/Topo/Sorted.antt =====
-- internal/graph/topo.go, TopoSort: the result against the dependencies between the items.
use pgdesign.Base.{
  ℕ, ◌+◌, ◌≤◌, ◌<◌, Text, List, [], ◌∷◌, ◌++◌, map, Bool, true, false, some, In, inl, inr, ◌⊎◌, ◌≡◌,
  ◌≢◌, refl, arith, Bool-cases, length, get_or, get_elem?, subst, sym, ◌∙◌, ap, ltb, length-append,
  append-nil,
}
use pgdesign.Topo.{
  Counts, no_counts, zeros, items_at, left_over, mark_all, with_cycles, count_items, emitted_order,
  topo_sort,
}
use pgdesign.Topo.Count.{has, has-append, Distinct, left-length, left_none, left_nil}
use pgdesign.Topo.Queue.{pending, targets}
use pgdesign.Topo.Start.{zeros-Holds}
use pgdesign.Topo.Drain.{Emits, drain-Emits}
use pgdesign.Topo.Build.{Built}
use pgdesign.Topo.Names.{IsNamed, IsLastNamed}
use pgdesign.Topo.Edges.{item_edges, count_items-Built}
use pgdesign.Topo.Rest.{
  free_positions, has-free_positions, free_positions-has, free_positions-Distinct, mark_all-length,
  mark_all-get, items_at-append, position_below, items_at-length, left_over-items_at,
}
use pgdesign.Topo.Depends.{DependsOn, pending-In, In-item_edges, item_edges-In}
use pgdesign.Topo.Emitted.{
  Emits-fresh, Emits-Distinct, Emits-waits, length-map, get_or-map, empty_list, Distinct-append,
}

module _ {T : Type 0} (get_name : T → Text) (get_deps : T → List Text) (items : List T) where
  -- Each item of the list comes after the items that it depends on, which may be in `out`.
  unfoldable pub InOrder : List ℕ → List ℕ → Type 0
  InOrder out [] = Unit
  InOrder out (i ∷ order) =
      ((d : ℕ) → DependsOn get_name get_deps items i d → has d out ≡ true) × InOrder (i ∷ out) order

  -- A sorted list and its cycles, by the positions of the items: those in order, and the rest.
  pub record IsSorting (sorted : List T) (cycles : List (List T)) : Type 0 where
    pub order : List ℕ
    pub rest : List ℕ
    pub is_sorted : sorted ≡ items_at items (order ++ rest)
    pub distinct : Distinct (order ++ rest)
    pub all_below : (i : ℕ) → has i (order ++ rest) ≡ true → i < length items
    pub complete : (i : ℕ) → i < length items → has i (order ++ rest) ≡ true
    pub in_order : InOrder [] order
    pub stuck :
        (i : ℕ)
        → has i rest ≡ true
        → (d : ℕ) × DependsOn get_name get_deps items i d × (has d rest ≡ true)
    pub are_cycles : (rest ≡ []) × (cycles ≡ []) ⊎ (rest ≢ []) × (cycles ≡ items_at items rest ∷ [])

  abbrev dependency_edges : List (ℕ × ℕ)
  dependency_edges = item_edges get_name get_deps items 0 items

  DependsOn-edge : (i d : ℕ) → DependsOn get_name get_deps items i d → In (d, i) dependency_edges
  unfolding DependsOn
  DependsOn-edge i d (x, dep, g, n, apart, last) =
      let same : 0 + i ≡ i = omega arith in
      subst (λ j. In (d, j) dependency_edges) same
        (item_edges-In get_name get_deps items 0 items i d x dep g n apart last)

  edge-DependsOn : (i d : ℕ) → In (d, i) dependency_edges → DependsOn get_name get_deps items i d
  unfolding DependsOn
  edge-DependsOn i d m =
      let (j, at, (x, dep, g, n, apart, last)) =
        In-item_edges get_name get_deps items 0 items d i m in
      let same : j ≡ i = omega (arith, at) in
      (x, dep, subst (λ k. get_elem? items k ≡ some x) same g, n, apart, last)

  DependsOn-below : (i d : ℕ) → DependsOn get_name get_deps items i d → d < length items
  unfolding DependsOn IsLastNamed IsNamed
  DependsOn-below i d (x, dep, g, n, apart, ((y, at, named), last)) = position_below items d y at

  Emits-InOrder :
      (out order : List ℕ) → Emits (length items) dependency_edges out order → InOrder out order
  unfolding Emits InOrder
  Emits-InOrder out [] e = tt
  Emits-InOrder out (i ∷ order) (b, f, z, e) = (
    λ d needs. pending-In dependency_edges out i d z (DependsOn-edge i d needs),
    Emits-InOrder (i ∷ out) order e,
  )

  start-Built : Built (length items) [] (no_counts items)
  unfolding no_counts pending targets
  start-Built = record {
    len = length-map (λ x. 0) items;
    len_dependents = length-map (λ x. []) items;
    counts = λ i b. get_or-map 0 1 items i b;
    lists = λ d b. get_or-map [] [] items d b;
    below = λ d. tt;
  }

  arrays : Counts
  arrays = count_items get_name get_deps items 0 items (no_counts items)

  arrays-Built : Built (length items) dependency_edges arrays
  unfolding arrays
  arrays-Built =
      count_items-Built get_name get_deps items 0 items [] (no_counts items) (omega arith)
        start-Built

  order_of : List ℕ
  order_of = emitted_order get_name get_deps items

  emitted-Emits : Emits (length items) dependency_edges [] order_of
  unfolding order_of emitted_order arrays
  emitted-Emits =
      let b = arrays-Built in
      drain-Emits (length items) dependency_edges arrays.dependents b.lists b.below (length items)
        [] (zeros 0 arrays.in_degree) arrays.in_degree
        (zeros-Holds (length items) (pending dependency_edges []) arrays.in_degree b.len b.counts)
        (omega (arith, left_nil (length items)))

  marks_of : List Bool
  marks_of = mark_all order_of (map (λ x. false) items)

  rest_of : List ℕ
  rest_of = free_positions 0 marks_of

  marks-get : (i : ℕ) → i < length items → get_or marks_of i true ≡ has i order_of
  unfolding marks_of
  marks-get i b =
      let all = mark_all-get order_of (map (λ x. false) items) i in
      let one = get_or-map false true items i b in ground arith

  marks-length : length marks_of ≡ length items
  unfolding marks_of
  marks-length = mark_all-length order_of (map (λ x. false) items) ∙ length-map (λ x. false) items

  has-rest : (i : ℕ) → has i rest_of ≡ true → (i < length items) × (has i order_of ≡ false)
  unfolding rest_of
  has-rest i m =
      let (j, at, b, f) = has-free_positions 0 marks_of i m in
      let same : j ≡ i = omega (arith, at) in
      let c : i < length items = omega (arith, b, marks-length, same) in
      (c, sym (marks-get i c) ∙ subst (λ k. get_or marks_of k true ≡ false) same f)

  rest-has : (i : ℕ) → i < length items → has i order_of ≡ false → has i rest_of ≡ true
  unfolding rest_of
  rest-has i b f =
      let same : 0 + i ≡ i = omega arith in
      subst (λ k. has k (free_positions 0 marks_of) ≡ true) same
        (free_positions-has 0 marks_of i (omega (arith, b, marks-length)) (marks-get i b ∙ f))

  all_has : (i : ℕ) → i < length items → has i (order_of ++ rest_of) ≡ true
  all_has i b = has-append i order_of rest_of ∙ elim (Bool-cases (has i order_of)) [
    | inl e ↦ rw e refl
    | inr f ↦ rw (f, rest-has i b f) refl
  ]

  has_all : (i : ℕ) → has i (order_of ++ rest_of) ≡ true → i < length items
  has_all i m = elim (Bool-cases (has i order_of)) [
    | inl e ↦ (Emits-fresh (length items) dependency_edges [] order_of emitted-Emits i e).0
    | inr f ↦ let either = sym (has-append i order_of rest_of) ∙ m in (has-rest i (ground arith)).0
  ]

  all-Distinct : Distinct (order_of ++ rest_of)
  unfolding rest_of
  all-Distinct =
      Distinct-append order_of rest_of
        (Emits-Distinct (length items) dependency_edges [] order_of emitted-Emits)
        (free_positions-Distinct 0 marks_of)
        (λ i m. elim (Bool-cases (has i rest_of)) [ inl r ↦ cc ((has-rest i r).1, m) | inr f ↦ f ])

  all_count : length order_of + length rest_of ≡ length items
  all_count =
      let total = left-length (length items) (order_of ++ rest_of) all-Distinct has_all in
      let nothing = left_none (length items) (order_of ++ rest_of) all_has in
      omega (arith, total, nothing, length-append order_of rest_of)

  rest_stuck :
      (i : ℕ)
      → has i rest_of ≡ true
      → (d : ℕ) × DependsOn get_name get_deps items i d × (has d rest_of ≡ true)
  unfolding has
  rest_stuck i m =
      let (b, f) = has-rest i m in
      let (d, e, g, h) =
        Emits-waits (length items) dependency_edges [] order_of i emitted-Emits b f refl in
      let needs = edge-DependsOn i d e in (d, needs, rest-has d (DependsOn-below i d needs) g)

  rest_items : left_over marks_of items ≡ items_at items rest_of
  unfolding rest_of
  rest_items =
      left_over-items_at items items 0 marks_of marks-length
        (λ m. let same : 0 + m ≡ m = omega arith in ap (get_elem? items) same)

  order_length : length (items_at items order_of) ≡ length order_of
  order_length =
      items_at-length items order_of
        (λ i m. (Emits-fresh (length items) dependency_edges [] order_of emitted-Emits i m).0)

  abbrev Outcome : List T × List (List T) → Type 0
  Outcome r =
      (r ≡ (items_at items (order_of ++ rest_of), [])) × (rest_of ≡ [])
      ⊎ (r ≡ (items_at items (order_of ++ rest_of), items_at items rest_of ∷ [])) × (rest_of ≢ [])

  topo_sort-Outcome : Outcome (topo_sort get_name get_deps items)
  unfolding topo_sort with_cycles order_of marks_of
  topo_sort-Outcome =
      let done = items_at items order_of in
      let whole = items_at-append items order_of rest_of in
      let count = all_count in
      let same = order_length in
      elim (Bool-cases (ltb (length done) (length items))) [
        | inl short ↦ inr (
          rw (short, rest_items, whole) refl,
          λ none_left.
              let empty : length rest_of ≡ 0 = rw none_left refl in
              let less : length done < length items = ground arith in
              omega (arith, empty, less, count, same),
        )
        | inr full ↦
            let enough : length items ≤ length done = ground arith in
            let nothing : rest_of ≡ [] = empty_list rest_of (omega (arith, enough, count, same)) in
            inl (rw (full, nothing, append-nil) refl, nothing)
      ]

  -- TopoSort, for every list of items. The sorted list has the items of all positions, each once:
  -- first those of `order`, in which each item comes after all items that it depends on, and then
  -- those of `rest`, each of which depends on another item of the rest. With the rest empty there
  -- is no cycle group; otherwise the rest is the one group. An item depends on the last item of a
  -- name that it lists, its own name and unknown names left out.
  pub topo_sort_correct :
      IsSorting (topo_sort get_name get_deps items).0 (topo_sort get_name get_deps items).1
  topo_sort_correct = record {
    order = order_of;
    rest = rest_of;
    is_sorted = elim topo_sort-Outcome [
      | inl (e, z) ↦ ap (λ (r : List T × List (List T)). r.0) e
      | inr (e, z) ↦ ap (λ (r : List T × List (List T)). r.0) e
    ];
    distinct = all-Distinct;
    all_below = has_all;
    complete = all_has;
    in_order = Emits-InOrder [] order_of emitted-Emits;
    stuck = rest_stuck;
    are_cycles = elim topo_sort-Outcome [
      | inl (e, z) ↦ inl (z, ap (λ (r : List T × List (List T)). r.1) e)
      | inr (e, z) ↦ inr (z, ap (λ (r : List T × List (List T)). r.1) e)
    ];
  }
