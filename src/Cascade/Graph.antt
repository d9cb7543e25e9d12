-- ===== src/Cascade/Graph.antt =====
-- internal/model/fkgraph.go, BuildFKGraph: the edges of the graph are the columns of the foreign
-- keys, under the keys of both tables.
use pgdesign.Base.{
  ℕ, suc, ◌+◌, Text, List, [], ◌∷◌, ◌++◌, Bool, true, false, not, inl, inr, ◌≡◌, refl, arith,
  Bool-cases, if◌then◌else◌, text_eq, text_eq_iff, sym, ◌∙◌, ap, subst, append-nil, append_assoc,
  get_or,
}
use pgdesign.Cascade.{
  ForeignKey, Table, FkEdge, EdgeMap, FkGraph, edges_of, append_edge, edge_at, from_key, to_key,
  add_fk_edge, add_columns, count_fk, add_fks, add_tables, no_graph, build_fk_graph, ref_schema_of,
  table_key, is_blank,
}

-- The name of a table, with its schema if it has one.
abbrev pub full_name : Text → Text → Text
full_name [] name = name
full_name (b ∷ schema) name = b ∷ schema ++ (b'.' ∷ name)

-- The schema of a referenced table: the one that is named, or else that of the declaring table.
abbrev pub target_schema : Text → Text → Text
target_schema own [] = own
target_schema own (b ∷ named) = b ∷ named

abbrev pub has_alias : Text → Bool
has_alias [] = false
has_alias (b ∷ alias) = true

-- The columns of a key with the columns they reference; a missing one is empty.
abbrev pub column_pairs : List Text → List Text → List (Text × Text)
column_pairs [] refs = []
column_pairs (c ∷ cols) [] = (c, []) ∷ column_pairs cols []
column_pairs (c ∷ cols) (r ∷ refs) = (c, r) ∷ column_pairs cols refs

-- The edge of a column and the column it references.
abbrev pub pair_edge : Table → ForeignKey → Text → Text → FkEdge
pair_edge t fk col ref = record {
  from_schema = t.schema;
  from_table = t.name;
  from_column = col;
  to_schema = target_schema t.schema fk.ref_schema;
  to_table = fk.ref_table;
  to_column = ref;
  on_delete = fk.on_delete;
  fk_name = fk.name;
  imported = has_alias fk.ref_alias;
}

-- The edges of a key, of the keys of a table, and of all tables, in their order.
abbrev pub pair_edges : Table → ForeignKey → List (Text × Text) → List FkEdge
pair_edges t fk [] = []
pair_edges t fk ((col, ref) ∷ pairs) = pair_edge t fk col ref ∷ pair_edges t fk pairs

abbrev pub key_edges : Table → List ForeignKey → List FkEdge
key_edges t [] = []
key_edges t (fk ∷ fks) = pair_edges t fk (column_pairs fk.columns fk.ref_columns) ++ key_edges t fks

abbrev pub table_edges : List Table → List FkEdge
table_edges [] = []
table_edges (t ∷ ts) = key_edges t t.fks ++ table_edges ts

-- The edges of the list whose declaring, or whose referenced, table has the key.
abbrev pub declared_by : Text → List FkEdge → List FkEdge
declared_by key [] = []
declared_by key (e ∷ es) =
    if text_eq (full_name e.from_schema e.from_table) key
    then e ∷ declared_by key es
    else declared_by key es

abbrev pub referring_to : Text → List FkEdge → List FkEdge
referring_to key [] = []
referring_to key (e ∷ es) =
    if text_eq (full_name e.to_schema e.to_table) key
    then e ∷ referring_to key es
    else referring_to key es

full_name_lem : (schema name : Text) → table_key schema name ≡ full_name schema name
unfolding table_key
full_name_lem [] name = refl
full_name_lem (b ∷ schema) name = refl

target_schema_lem :
    (own named : Text) → (if is_blank named then own else named) ≡ target_schema own named
target_schema_lem own [] = refl
target_schema_lem own (b ∷ named) = refl

has_alias_lem : (alias : Text) → not (is_blank alias) ≡ has_alias alias
has_alias_lem [] = refl
has_alias_lem (b ∷ alias) = refl

edge_at_lem :
    (t : Table) (fk : ForeignKey) (i : ℕ) (col ref : Text)
    → get_or fk.ref_columns i [] ≡ ref
    → edge_at t fk i col ≡ pair_edge t fk col ref
unfolding edge_at ref_schema_of
edge_at_lem t fk i col ref e =
    rw (target_schema_lem t.schema fk.ref_schema, has_alias_lem fk.ref_alias, e) refl

from_key_lem : (e : FkEdge) → from_key e ≡ full_name e.from_schema e.from_table
unfolding from_key
from_key_lem e = full_name_lem e.from_schema e.from_table

to_key_lem : (e : FkEdge) → to_key e ≡ full_name e.to_schema e.to_table
unfolding to_key
to_key_lem e = full_name_lem e.to_schema e.to_table

append_edge-read :
    (k : Text) (d : FkEdge) (m : EdgeMap) (key : Text)
    → edges_of (append_edge k d m) key ≡ edges_of m key ++ (if text_eq k key then d ∷ [] else [])
unfolding append_edge edges_of
append_edge-read k d [] key = refl
append_edge-read k d ((j, es) ∷ m) key = elim (Bool-cases (text_eq j k)) [
  | inl q ↦
      let same : j ≡ k = (text_eq_iff j k).0 q in
      elim (Bool-cases (text_eq j key)) [
        | inl at ↦
            let at' : text_eq k key ≡ true = subst (λ t. text_eq t key ≡ true) same at in
            rw (q, at, at') refl
        | inr off ↦
            let off' : text_eq k key ≡ false = subst (λ t. text_eq t key ≡ false) same off in
            rw (q, off, off', append-nil) refl
      ]
  | inr n ↦ elim (Bool-cases (text_eq j key)) [
    | inl at ↦
        let other : text_eq k key ≡ false = elim (Bool-cases (text_eq k key)) [
          | inl c ↦
              cc ((text_eq_iff j k).1 ((text_eq_iff j key).0 at ∙ sym ((text_eq_iff k key).0 c)), n)
          | inr c ↦ c
        ] in
        rw (n, at, other, append-nil) refl
    | inr off ↦ rw (n, off) (append_edge-read k d m key)
  ]
]

declared_by-append :
    (key : Text) (es fs : List FkEdge)
    → declared_by key (es ++ fs) ≡ declared_by key es ++ declared_by key fs
declared_by-append key [] fs = refl
declared_by-append key (e ∷ es) fs =
    elim (Bool-cases (text_eq (full_name e.from_schema e.from_table) key)) [
      | inl y ↦ rw y (ap (λ l. e ∷ l) (declared_by-append key es fs))
      | inr n ↦ rw n (declared_by-append key es fs)
    ]

referring_to-append :
    (key : Text) (es fs : List FkEdge)
    → referring_to key (es ++ fs) ≡ referring_to key es ++ referring_to key fs
referring_to-append key [] fs = refl
referring_to-append key (e ∷ es) fs =
    elim (Bool-cases (text_eq (full_name e.to_schema e.to_table) key)) [
      | inl y ↦ rw y (ap (λ l. e ∷ l) (referring_to-append key es fs))
      | inr n ↦ rw n (referring_to-append key es fs)
    ]

-- What a run of the loops adds to a graph.
Adds : FkGraph → FkGraph → List FkEdge → Type 0
Adds g g' es =
    (key : Text)
    → (edges_of g'.forward key ≡ edges_of g.forward key ++ declared_by key es)
      × (edges_of g'.reverse key ≡ edges_of g.reverse key ++ referring_to key es)

Adds-then :
    (g g' g'' : FkGraph) (xs ys : List FkEdge)
    → Adds g g' xs
    → Adds g' g'' ys
    → Adds g g'' (xs ++ ys)
unfolding Adds
Adds-then g g' g'' xs ys a b key = (
  rw ((b key).0, (a key).0, declared_by-append key xs ys)
      (append_assoc (edges_of g.forward key) (declared_by key xs) (declared_by key ys)),
  rw ((b key).1, (a key).1, referring_to-append key xs ys)
      (append_assoc (edges_of g.reverse key) (referring_to key xs) (referring_to key ys)),
)

Adds-none : (g : FkGraph) → Adds g g []
unfolding Adds
Adds-none g key = (rw append-nil refl, rw append-nil refl)

Adds-one : (d : FkEdge) (g : FkGraph) → Adds g (add_fk_edge d g) (d ∷ [])
unfolding Adds add_fk_edge
Adds-one d g key = (
  rw (append_edge-read (from_key d) d g.forward key, from_key_lem d) refl,
  rw (append_edge-read (to_key d) d g.reverse key, to_key_lem d) refl,
)

-- The loop at position `i`, where `refs` are the referenced columns from there on.
Adds-columns :
    (t : Table) (fk : ForeignKey) (i : ℕ) (cols refs : List Text) (g : FkGraph)
    → ((k : ℕ) → get_or fk.ref_columns (i + k) [] ≡ get_or refs k [])
    → Adds g (add_columns t fk i cols g) (pair_edges t fk (column_pairs cols refs))
unfolding add_columns
Adds-columns t fk i [] refs g at = Adds-none g
Adds-columns t fk i (col ∷ cols) [] g at =
    let here : i + 0 ≡ i = omega arith in
    let d = edge_at t fk i col in
    let g' = add_fk_edge d g in
    let is = edge_at_lem t fk i col [] (subst (λ j. get_or fk.ref_columns j [] ≡ []) here (at 0)) in
    subst
      (λ e. Adds g (add_columns t fk (suc i) cols g') (e ∷ pair_edges t fk (column_pairs cols [])))
      is
      (Adds-then g g' (add_columns t fk (suc i) cols g') (d ∷ [])
        (pair_edges t fk (column_pairs cols [])) (Adds-one d g)
        (Adds-columns t fk (suc i) cols [] g' (λ k.
          let shift : i + suc k ≡ suc i + k = omega arith in
          subst (λ j. get_or fk.ref_columns j [] ≡ []) shift (at (suc k)))))
Adds-columns t fk i (col ∷ cols) (r ∷ refs) g at =
    let here : i + 0 ≡ i = omega arith in
    let d = edge_at t fk i col in
    let g' = add_fk_edge d g in
    let is = edge_at_lem t fk i col r (subst (λ j. get_or fk.ref_columns j [] ≡ r) here (at 0)) in
    subst
      (λ e.
        Adds g (add_columns t fk (suc i) cols g') (e ∷ pair_edges t fk (column_pairs cols refs)))
      is
      (Adds-then g g' (add_columns t fk (suc i) cols g') (d ∷ [])
        (pair_edges t fk (column_pairs cols refs)) (Adds-one d g)
        (Adds-columns t fk (suc i) cols refs g' (λ k.
          let shift : i + suc k ≡ suc i + k = omega arith in
          subst (λ j. get_or fk.ref_columns j [] ≡ get_or refs k []) shift (at (suc k)))))

Adds-keys :
    (t : Table) (fks : List ForeignKey) (g : FkGraph) → Adds g (add_fks t fks g) (key_edges t fks)
unfolding add_fks count_fk Adds
Adds-keys t [] g = Adds-none g
Adds-keys t (fk ∷ fks) g =
    let g' = count_fk t fk (add_columns t fk 0 fk.columns g) in
    Adds-then g g' (add_fks t fks g') (pair_edges t fk (column_pairs fk.columns fk.ref_columns))
      (key_edges t fks)
      (Adds-columns t fk 0 fk.columns fk.ref_columns g (λ k.
        let start : k ≡ 0 + k = omega arith in
        subst (λ j. get_or fk.ref_columns j [] ≡ get_or fk.ref_columns k []) start refl))
      (Adds-keys t fks g')

Adds-tables : (ts : List Table) (g : FkGraph) → Adds g (add_tables ts g) (table_edges ts)
unfolding add_tables
Adds-tables [] g = Adds-none g
Adds-tables (t ∷ ts) g =
    let g' = add_fks t t.fks g in
    Adds-then g g' (add_tables ts g') (key_edges t t.fks) (table_edges ts) (Adds-keys t t.fks g)
      (Adds-tables ts g')

-- BuildFKGraph, for all tables and every key: the forward map has under the key exactly the edges of
-- the foreign keys' columns whose declaring table has that key, in the order of the tables, their
-- foreign keys and the columns, each as often as it is declared; the reverse map has under the key,
-- in that order, exactly those whose referenced table has it. An edge has the names of both tables
-- and of both columns, a referenced column that is missing as empty, and a referenced schema that is
-- missing as the declaring table's.
pub build_fk_graph_correct :
    (tables : List Table) (key : Text)
    → (edges_of (build_fk_graph tables).forward key ≡ declared_by key (table_edges tables))
      × (edges_of (build_fk_graph tables).reverse key ≡ referring_to key (table_edges tables))
unfolding build_fk_graph Adds edges_of
build_fk_graph_correct tables key = Adds-tables tables no_graph key
