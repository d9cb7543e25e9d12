-- ===== src/Cascade/Order.antt =====
-- internal/model/topo.go: the order of the tables by their foreign keys, through
-- internal/graph/topo.go.
use pgdesign.Base.{Text, List, [], ◌∷◌, ◌++◌, map, In, inl, inr, ◌≡◌, ◌≢◌, refl, subst, ap}
use pgdesign.Cascade.{ForeignKey, Table, table_key}
use pgdesign.Topo.{topo_sort_stable}
use pgdesign.Topo.Stable.{NamesDiffer}
use pgdesign.Topo.Placed.{topo_sort_stable_placed}

-- `getName` and `getDeps` of topoSort. The schema of a reference is read as it stands.
unfoldable pub own_key : Table → Text
own_key t = table_key t.schema t.name

unfoldable pub referenced : ForeignKey → Text
referenced fk = table_key fk.ref_schema fk.ref_table

unfoldable pub keys_referenced : Table → List Text
keys_referenced t = map referenced t.fks

-- topoSort, with the names of the tables of each cycle.
unfoldable pub topo_sort_tables : List Table → List Table × List (List Text)
topo_sort_tables tables =
    let r = topo_sort_stable own_key keys_referenced tables in
    (r.0, map (map (λ (t : Table). t.name)) r.1)

map_none : {A B : Type 0} (f : A → B) (xs : List A) → map f xs ≡ [] → xs ≡ []
map_none f [] h = refl
map_none f (x ∷ xs) h = cc

In-map : {A B : Type 0} (f : A → B) (xs : List A) (a : A) → In a xs → In (f a) (map f xs)
In-map f [] a m = elim m [ ]
In-map f (x ∷ xs) a (inl e) = inl (ap f e)
In-map f (x ∷ xs) a (inr m) = inr (In-map f xs a m)

-- If the tables have different keys and topoSort reports no cycle, each table stands in the sorted
-- list after all other tables that its foreign keys reference.
pub topo_sort_tables_placed :
    (tables before after : List Table) (t u : Table) (fk : ForeignKey)
    → NamesDiffer own_key tables
    → (topo_sort_tables tables).1 ≡ []
    → (topo_sort_tables tables).0 ≡ before ++ (t ∷ after)
    → In fk t.fks
    → In u tables
    → referenced fk ≡ own_key u
    → own_key u ≢ own_key t
    → In u before
unfolding topo_sort_tables keys_referenced
topo_sort_tables_placed tables before after t u fk n cycles split m mine refers apart =
    let r = topo_sort_stable own_key keys_referenced tables in
    topo_sort_stable_placed own_key keys_referenced tables before after t u n
      (map_none (map (λ (t : Table). t.name)) r.1 cycles) split mine
      (subst (λ k. In k (map referenced t.fks)) refers (In-map referenced t.fks fk m)) apart
