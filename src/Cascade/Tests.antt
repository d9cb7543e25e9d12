-- ===== src/Cascade/Tests.antt =====
-- Users, their posts, and comments on the posts; a log keeps its rows.
use pgdesign.Base.{
  ℕ, Text, bytes, List, [], ◌∷◌, true, false, ◌≡◌, ◌≢◌, refl, In, ◌⊎◌, ◌↔◌, ◌≤◌, text_eq,
  text_eq_iff, inl, inr, text_lt, sort_by, insert_by, length, elem, sym, ap, ◌∙◌,
}
use pgdesign.Cascade.{
  ForeignKey, Table, FkEdge, FkGraph, edges_of, append_edge, edge_at, from_key, to_key, table_key,
  add_fk_edge, add_columns, add_fks, add_tables, build_fk_graph, toward_referencing, edges_out,
  walk_edges, walk_dfs, walk_cascade, follow_cascade_only, longest, cascade_depth, last_table,
  reached_tables, cascade_chain, count_fk, add_one, ref_schema_of, next_key, too_deep, all_edges,
}
use pgdesign.Cascade.Walk.{Route, walk_cascade_correct}
use pgdesign.Cascade.Reached.{Unique}
use pgdesign.Cascade.Chain.{Reaches, cascade_chain_correct}
use pgdesign.Cascade.Depth.{IsCascade, cascade_depth_correct}
use pgdesign.Cascade.Order.{
  own_key, referenced, keys_referenced, topo_sort_tables, topo_sort_tables_placed,
}
use pgdesign.Topo.{
  topo_sort_stable, topo_sort, with_cycles, left_over, items_at, mark_all, emitted_order, drain,
  zeros, release, push_if_zero, modify, count_items, count_deps, count_dependency, add_dependency,
  name_to_idx, newer, no_counts,
}
use pgdesign.Topo.Stable.{NamesDiffer}
use pgdesign.Cascade.Graph.{declared_by, referring_to, table_edges, build_fk_graph_correct}

abbrev reference : Text → Text → Text → ForeignKey
reference col to action = record {
  name = col;
  ref_schema = [];
  ref_table = to;
  ref_alias = [];
  columns = col ∷ [];
  ref_columns = bytes "id" ∷ [];
  on_delete = action;
}

abbrev users : Table
users = record { schema = bytes "app"; name = bytes "users"; fks = [] }

abbrev posts : Table
posts = record {
  schema = bytes "app";
  name = bytes "posts";
  fks = reference (bytes "author") (bytes "users") (bytes "CASCADE") ∷ [];
}

abbrev comments : Table
comments = record {
  schema = bytes "app";
  name = bytes "comments";
  fks =
      reference (bytes "author") (bytes "users") (bytes "CASCADE")
      ∷ reference (bytes "post") (bytes "posts") (bytes "CASCADE")
      ∷ [];
}

abbrev log : Table
log = record {
  schema = bytes "app";
  name = bytes "log";
  fks = reference (bytes "actor") (bytes "users") (bytes "SET NULL") ∷ [];
}

graph : FkGraph
graph = build_fk_graph (users ∷ posts ∷ comments ∷ log ∷ [])

-- A delete of a user takes the posts and, in two ways, the comments with it.
chain :
    cascade_chain text_eq graph (bytes "app.users") ≡ bytes "app.posts" ∷ bytes "app.comments" ∷ []
unfolding graph build_fk_graph add_tables add_fks add_columns add_fk_edge append_edge count_fk
    add_one edge_at ref_schema_of from_key table_key edges_of cascade_chain reached_tables
    last_table walk_cascade walk_dfs walk_edges edges_out next_key too_deep all_edges
    follow_cascade_only text_eq elem to_key
chain = refl

depth : cascade_depth text_eq graph (bytes "app.users") ≡ 2
unfolding graph build_fk_graph add_tables add_fks add_columns add_fk_edge append_edge count_fk
    add_one edge_at ref_schema_of from_key table_key edges_of cascade_depth longest walk_cascade
    walk_dfs walk_edges edges_out next_key too_deep all_edges follow_cascade_only text_eq elem
    to_key
depth = refl

abbrev author_edge : FkEdge
author_edge = record {
  from_schema = bytes "app";
  from_table = bytes "posts";
  from_column = bytes "author";
  to_schema = bytes "app";
  to_table = bytes "users";
  to_column = bytes "id";
  on_delete = bytes "CASCADE";
  fk_name = bytes "author";
  imported = false;
}

walk_cascade_correct_example :
    In
      (author_edge ∷ [])
      (walk_cascade graph (bytes "app.users") toward_referencing 1 (follow_cascade_only text_eq))
    ↔ (author_edge ∷ [] ≢ [])
      × (◌≡◌ {A = ℕ} 1 0 ⊎ (1 ≤ 1))
      × Route graph toward_referencing
          (follow_cascade_only text_eq)
          (bytes "app.users" ∷ [])
          true
          (bytes "app.users")
          (author_edge ∷ [])
walk_cascade_correct_example =
    walk_cascade_correct graph (bytes "app.users") toward_referencing 1
      (follow_cascade_only text_eq) (author_edge ∷ [])

cascade_chain_correct_example :
    Unique (cascade_chain text_eq graph (bytes "app.users"))
    × ((t : Text)
        → (elem t (cascade_chain text_eq graph (bytes "app.users")) ≡ true)
          ↔ (t ≢ bytes "app.users") × Reaches text_eq graph (bytes "app.users") t)
cascade_chain_correct_example = cascade_chain_correct text_eq graph (bytes "app.users")

cascade_depth_correct_example :
    ((p : List FkEdge)
      → IsCascade text_eq graph (bytes "app.users" ∷ []) (bytes "app.users") p
      → length p ≤ cascade_depth text_eq graph (bytes "app.users"))
    × ((p : List FkEdge) × IsCascade text_eq graph (bytes "app.users" ∷ []) (bytes "app.users") p
        × (length p ≡ cascade_depth text_eq graph (bytes "app.users")))
cascade_depth_correct_example = cascade_depth_correct text_eq graph (bytes "app.users")

build_fk_graph_correct_example :
    (edges_of (build_fk_graph (posts ∷ [])).forward (bytes "app.posts")
      ≡ declared_by (bytes "app.posts") (table_edges (posts ∷ [])))
    × (edges_of (build_fk_graph (posts ∷ [])).reverse (bytes "app.posts")
        ≡ referring_to (bytes "app.posts") (table_edges (posts ∷ [])))
build_fk_graph_correct_example = build_fk_graph_correct (posts ∷ []) (bytes "app.posts")

-- A post names the schema of its user.
abbrev to_users : ForeignKey
to_users = record {
  name = bytes "author";
  ref_schema = bytes "app";
  ref_table = bytes "users";
  ref_alias = [];
  columns = bytes "author" ∷ [];
  ref_columns = bytes "id" ∷ [];
  on_delete = bytes "CASCADE";
}

abbrev notes : Table
notes = record { schema = bytes "app"; name = bytes "notes"; fks = to_users ∷ [] }

ordered : topo_sort_tables (notes ∷ users ∷ []) ≡ (users ∷ notes ∷ [], [])
unfolding topo_sort_tables keys_referenced referenced own_key table_key topo_sort_stable topo_sort
    with_cycles left_over items_at mark_all emitted_order drain zeros release push_if_zero modify
    count_items count_deps count_dependency add_dependency name_to_idx newer no_counts sort_by
    insert_by text_lt text_eq
ordered = refl

keys_apart : own_key notes ≢ own_key users
unfolding own_key table_key text_eq
keys_apart e = let same = (text_eq_iff (own_key notes) (own_key users)).1 e in cc

keys_differ : NamesDiffer own_key (notes ∷ users ∷ [])
keys_differ = ((λ t m. notes_alone t m), ((λ t m. elim m [ ]), tt))
  where
    notes_alone : (t : Table) → In t (users ∷ []) → own_key notes ≢ own_key t
    notes_alone t (inl e) = λ s. keys_apart (s ∙ ap own_key e)
    notes_alone t (inr m) = elim m [ ]

same_key : referenced to_users ≡ own_key users
unfolding referenced own_key table_key
same_key = refl

topo_sort_tables_placed_example : In users (users ∷ [])
topo_sort_tables_placed_example =
    topo_sort_tables_placed (notes ∷ users ∷ []) (users ∷ []) [] notes users to_users keys_differ
      (ap (λ (r : List Table × List (List Text)). r.1) ordered)
      (ap (λ (r : List Table × List (List Text)). r.0) ordered) (inl refl) (inr (inl refl)) same_key
      (λ e. keys_apart (sym e))
