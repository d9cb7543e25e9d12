-- ===== src/Topo.antt =====
-- internal/graph/topo.go: the topological sort. The arrays are lists, read and written by position;
-- the queue grows at its end.
--
-- Fuel: an item enters the queue at most once, so the number of items bounds the rounds of the
-- queue's loop (`Topo.Drain`).
mod Count
pub mod Queue
pub mod Start
pub mod Drain
pub mod Build
pub mod Names
pub mod Edges
pub mod Rest
pub mod Depends
pub mod Emitted
pub mod Sorted
pub mod Stable
pub mod Placed
mod Tests
use pgdesign.Base.{
  ℕ, zero, suc, ◌+◌, ◌-◌, Text, List, [], ◌∷◌, ◌++◌, map, Bool, true, false, Option, none, some,
  if◌then◌else◌, text_eq, text_lt, length, get_elem?, get_or, set, ltb, ◌==◌, sort_by,
}

-- The update of one cell.
unfoldable pub modify {ℓ} : {A : Type ℓ} → (A → A) → ℕ → List A → List A
modify f i [] = []
modify f zero (x ∷ xs) = f x ∷ xs
modify f (suc i) (x ∷ xs) = x ∷ modify f i xs

pub record Counts : Type 0 where
  pub in_degree : List ℕ
  pub dependents : List (List ℕ)

-- `inDegree[i]++` and the append to `dependents[dep_idx]`.
unfoldable pub add_dependency : ℕ → ℕ → Counts → Counts
unfolding modify
add_dependency i dep_idx g = record {
  in_degree = modify (λ n. n + 1) i g.in_degree;
  dependents = modify (λ is. is ++ (i ∷ [])) dep_idx g.dependents;
}

-- The queue after the in-degree of `i` has dropped to `n`.
unfoldable pub push_if_zero : ℕ → ℕ → List ℕ → List ℕ
push_if_zero n i queue = if n == 0 then queue ++ (i ∷ []) else queue

-- The loop over the dependents of an emitted item.
unfoldable pub release : List ℕ → List ℕ → List ℕ → List ℕ × List ℕ
release degrees queue [] = (degrees, queue)
release degrees queue (i ∷ is) =
    let lower = modify (λ n. n - 1) i degrees in
    release lower (push_if_zero (get_or lower i 1) i queue) is

-- The items in the order in which the queue's loop emits them.
unfoldable pub drain : ℕ → List (List ℕ) → List ℕ → List ℕ → List ℕ
drain zero dependents degrees queue = []
drain (suc fuel) dependents degrees [] = []
drain (suc fuel) dependents degrees (idx ∷ queue) =
    let after = release degrees queue (get_or dependents idx []) in
    idx ∷ drain fuel dependents after.0 after.1

-- The first queue: the positions of the zeros.
unfoldable pub zeros : ℕ → List ℕ → List ℕ
zeros i [] = []
zeros i (n ∷ degrees) = let rest = zeros (suc i) degrees in if n == 0 then i ∷ rest else rest

-- `emitted[idx] = true` for each emitted item.
unfoldable pub mark_all : List ℕ → List Bool → List Bool
mark_all [] emitted = emitted
mark_all (idx ∷ order) emitted = mark_all order (set emitted idx true)

module _ {T : Type 0} where
  unfoldable pub items_at : List T → List ℕ → List T
  items_at items [] = []
  items_at items (idx ∷ order) = elim (get_elem? items idx) [
    | none ↦ items_at items order
    | some x ↦ x ∷ items_at items order
  ]

  -- The items that are not emitted, in the order of the input.
  unfoldable pub left_over : List Bool → List T → List T
  left_over [] items = []
  left_over (b ∷ emitted) [] = []
  left_over (b ∷ emitted) (x ∷ items) =
      let rest = left_over emitted items in if b then rest else x ∷ rest

  -- The arrays at the start.
  unfoldable pub no_counts : List T → Counts
  no_counts items = record { in_degree = map (λ x. 0) items; dependents = map (λ x. []) items }

  -- The sorted items and the cycles, of the emitted and the remaining ones.
  unfoldable pub with_cycles : ℕ → List T → List T → List T × List (List T)
  with_cycles n sorted rest =
      if ltb (length sorted) n then (sorted ++ rest, rest ∷ []) else (sorted, [])

unfoldable pub newer : Option ℕ → Option ℕ → Option ℕ
newer none o = o
newer (some j) o = some j

-- The map `nameToIdx`, from position `i` on: the last item of a name is its entry.
module _ {T : Type 0} (get_name : T → Text) where
  unfoldable pub name_to_idx : ℕ → List T → Text → Option ℕ
  name_to_idx i [] name = none
  name_to_idx i (x ∷ items) name =
      newer (name_to_idx (suc i) items name) (if text_eq (get_name x) name then some i else none)

unfoldable pub count_dependency : Option ℕ → ℕ → Counts → Counts
count_dependency none i g = g
count_dependency (some dep_idx) i g = add_dependency i dep_idx g

module _ {T : Type 0} (get_name : T → Text) (get_deps : T → List Text) where
  -- The loop over the dependencies of the item at `i`.
  unfoldable pub count_deps : List T → Text → ℕ → List Text → Counts → Counts
  count_deps items name i [] g = g
  count_deps items name i (dep ∷ deps) g =
      count_deps items name i deps
        (if text_eq dep name then g else count_dependency (name_to_idx get_name 0 items dep) i g)

  unfoldable pub count_items : List T → ℕ → List T → Counts → Counts
  count_items items i [] g = g
  count_items items i (x ∷ rest) g =
      count_items items (suc i) rest (count_deps items (get_name x) i (get_deps x) g)

  unfoldable pub emitted_order : List T → List ℕ
  emitted_order items =
      let g = count_items items 0 items (no_counts items) in
      drain (length items) g.dependents g.in_degree (zeros 0 g.in_degree)

  unfoldable pub topo_sort : List T → List T × List (List T)
  topo_sort items =
      let order = emitted_order items in
      let emitted = mark_all order (map (λ x. false) items) in
      with_cycles (length items) (items_at items order) (left_over emitted items)

  unfoldable pub topo_sort_stable : List T → List T × List (List T)
  topo_sort_stable items = topo_sort (sort_by (λ a b. text_lt (get_name a) (get_name b)) items)
