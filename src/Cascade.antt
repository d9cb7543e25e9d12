-- ===== src/Cascade.antt =====
-- internal/model/fkgraph.go: the graph of the foreign keys and the walk along ON DELETE CASCADE. A
-- map is an association list; of a table and a foreign key only the fields that the graph reads are
-- here. strings.EqualFold is a parameter, `equal_fold`.
--
-- Fuel: no table is twice on a path, so the number of edges bounds the depth of the walk
-- (`Cascade.Simple`).
pub mod Simple
pub mod Walk
pub mod Reached
pub mod Chain
pub mod Depth
pub mod Graph
pub mod Order
mod Tests
use pgdesign.Base.{
  ℕ, zero, suc, ◌+◌, Text, bytes, List, [], ◌∷◌, ◌++◌, map, Bool, true, false, not, ◌&&◌,
  if◌then◌else◌, text_eq, length, get_or, ltb, leb, elem,
}

pub record ForeignKey : Type 0 where
  pub name : Text
  pub ref_schema : Text
  pub ref_table : Text
  pub ref_alias : Text
  pub columns : List Text
  pub ref_columns : List Text
  pub on_delete : Text

pub record Table : Type 0 where
  pub schema : Text
  pub name : Text
  pub fks : List ForeignKey

abbrev is_blank {ℓ} : {A : Type ℓ} → List A → Bool
is_blank [] = true
is_blank (x ∷ xs) = false

unfoldable pub table_key : Text → Text → Text
table_key schema name = if is_blank schema then name else schema ++ (b'.' ∷ name)

pub record FkEdge : Type 0 where
  pub from_schema : Text
  pub from_table : Text
  pub from_column : Text
  pub to_schema : Text
  pub to_table : Text
  pub to_column : Text
  pub on_delete : Text
  pub fk_name : Text
  pub imported : Bool

-- A map from table keys; a missing key reads as the empty list or as zero.
abbrev pub EdgeMap : Type 0
EdgeMap = List (Text × List FkEdge)

unfoldable pub edges_of : EdgeMap → Text → List FkEdge
edges_of [] key = []
edges_of ((k, es) ∷ m) key = if text_eq k key then es else edges_of m key

unfoldable pub append_edge : Text → FkEdge → EdgeMap → EdgeMap
append_edge key e [] = (key, e ∷ []) ∷ []
append_edge key e ((k, es) ∷ m) =
    if text_eq k key then (k, es ++ (e ∷ [])) ∷ m else (k, es) ∷ append_edge key e m

unfoldable pub count_of : List (Text × ℕ) → Text → ℕ
count_of [] key = 0
count_of ((k, n) ∷ m) key = if text_eq k key then n else count_of m key

unfoldable pub add_one : Text → List (Text × ℕ) → List (Text × ℕ)
add_one key [] = (key, 1) ∷ []
add_one key ((k, n) ∷ m) = if text_eq k key then (k, n + 1) ∷ m else (k, n) ∷ add_one key m

pub record FkGraph : Type 0 where
  pub forward : EdgeMap
  pub reverse : EdgeMap
  pub fan_in : List (Text × ℕ)
  pub fan_out : List (Text × ℕ)

-- The schema of the referenced table.
unfoldable pub ref_schema_of : Table → ForeignKey → Text
ref_schema_of t fk = if is_blank fk.ref_schema then t.schema else fk.ref_schema

-- The edge of the column `col` at position `i`.
unfoldable pub edge_at : Table → ForeignKey → ℕ → Text → FkEdge
unfolding ref_schema_of
edge_at t fk i col = record {
  from_schema = t.schema;
  from_table = t.name;
  from_column = col;
  to_schema = ref_schema_of t fk;
  to_table = fk.ref_table;
  to_column = get_or fk.ref_columns i [];
  on_delete = fk.on_delete;
  fk_name = fk.name;
  imported = not (is_blank fk.ref_alias);
}

unfoldable pub from_key : FkEdge → Text
unfolding table_key
from_key e = table_key e.from_schema e.from_table

unfoldable pub to_key : FkEdge → Text
unfolding table_key
to_key e = table_key e.to_schema e.to_table

unfoldable pub add_fk_edge : FkEdge → FkGraph → FkGraph
add_fk_edge e g = record {
  forward = append_edge (from_key e) e g.forward;
  reverse = append_edge (to_key e) e g.reverse;
  fan_in = g.fan_in;
  fan_out = g.fan_out;
}

-- The loop over the columns of a key, from position `i` on.
unfoldable pub add_columns : Table → ForeignKey → ℕ → List Text → FkGraph → FkGraph
add_columns t fk i [] g = g
add_columns t fk i (col ∷ cols) g =
    add_columns t fk (suc i) cols (add_fk_edge (edge_at t fk i col) g)

unfoldable pub count_fk : Table → ForeignKey → FkGraph → FkGraph
count_fk t fk g = record {
  forward = g.forward;
  reverse = g.reverse;
  fan_in = add_one (table_key (ref_schema_of t fk) fk.ref_table) g.fan_in;
  fan_out = add_one (table_key t.schema t.name) g.fan_out;
}

unfoldable pub add_fks : Table → List ForeignKey → FkGraph → FkGraph
add_fks t [] g = g
add_fks t (fk ∷ fks) g = add_fks t fks (count_fk t fk (add_columns t fk 0 fk.columns g))

unfoldable pub add_tables : List Table → FkGraph → FkGraph
add_tables [] g = g
add_tables (t ∷ ts) g = add_tables ts (add_fks t t.fks g)

abbrev pub no_graph : FkGraph
no_graph = record { forward = []; reverse = []; fan_in = []; fan_out = [] }

unfoldable pub build_fk_graph : List Table → FkGraph
build_fk_graph tables = add_tables tables no_graph

pub data WalkDirection : Type 0 where
  toward_referencing toward_referenced : WalkDirection

-- The edges out of a table, and the table at the other end of an edge.
unfoldable pub edges_out : FkGraph → WalkDirection → EdgeMap
edges_out g toward_referencing = g.reverse
edges_out g toward_referenced = g.forward

unfoldable pub next_key : WalkDirection → FkEdge → Text
next_key toward_referencing e = from_key e
next_key toward_referenced e = to_key e

-- The test at the start of dfs.
unfoldable pub too_deep : ℕ → List FkEdge → Bool
too_deep max_depth path = ltb 0 max_depth && leb max_depth (length path)

module _ (dir : WalkDirection) (follow : FkEdge → Bool → Bool) where
  -- The loop over the edges of a table; `enter` is the recursive call.
  unfoldable pub walk_edges :
      (List Text → List FkEdge → Text → List (List FkEdge))
      → List Text
      → List FkEdge
      → List FkEdge
      → List (List FkEdge)
  walk_edges enter on_path path [] = []
  walk_edges enter on_path path (e ∷ es) =
      let rest = walk_edges enter on_path path es in
      let next = next_key dir e in
      let longer = path ++ (e ∷ []) in
      if elem next on_path
      then rest
      else if not (follow e (is_blank path))
      then rest
      else longer ∷ (enter (next ∷ on_path) longer next ++ rest)

  -- The paths that dfs hands to `visit`, in their order.
  unfoldable pub walk_dfs : EdgeMap → ℕ → ℕ → List Text → List FkEdge → Text → List (List FkEdge)
  walk_dfs edges max_depth zero on_path path key = []
  walk_dfs edges max_depth (suc fuel) on_path path key =
      let found = walk_edges (walk_dfs edges max_depth fuel) on_path path (edges_of edges key) in
      if too_deep max_depth path then [] else found

-- All edges of a map.
unfoldable pub all_edges : EdgeMap → List FkEdge
all_edges [] = []
all_edges ((k, es) ∷ m) = es ++ all_edges m

-- The paths that WalkCascade hands to `visit`, in their order.
unfoldable pub walk_cascade :
    FkGraph → Text → WalkDirection → ℕ → (FkEdge → Bool → Bool) → List (List FkEdge)
walk_cascade g start dir max_depth follow =
    let edges = edges_out g dir in
    walk_dfs dir follow edges max_depth (suc (length (all_edges edges))) (start ∷ []) [] start

unfoldable pub longest : ℕ → List (List FkEdge) → ℕ
longest n [] = n
longest n (p ∷ ps) = longest (if ltb n (length p) then length p else n) ps

-- The table of the last edge of a path; no path is empty.
unfoldable pub last_table : Text → List FkEdge → Text
last_table key [] = key
last_table key (e ∷ p) = last_table (from_key e) p

unfoldable pub reached_tables : List Text → List Text → List Text
reached_tables seen [] = []
reached_tables seen (t ∷ ts) =
    let again = reached_tables seen ts in
    let first = t ∷ reached_tables (t ∷ seen) ts in if elem t seen then again else first

module _ (equal_fold : Text → Text → Bool) where
  unfoldable pub follow_cascade_only : FkEdge → Bool → Bool
  follow_cascade_only e first_hop = equal_fold e.on_delete (bytes "CASCADE")

  unfoldable pub cascade_depth : FkGraph → Text → ℕ
  cascade_depth g table = longest 0 (walk_cascade g table toward_referencing 0 follow_cascade_only)

  unfoldable pub cascade_chain : FkGraph → Text → List Text
  cascade_chain g table =
      reached_tables []
        (map (last_table table) (walk_cascade g table toward_referencing 0 follow_cascade_only))

  unfoldable pub cascade_breadth : FkGraph → Text → ℕ
  cascade_breadth g table = length (cascade_chain g table)
