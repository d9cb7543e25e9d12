-- ===== src/Topo/Tests.antt =====
-- A small order, and one with a cycle.
use pgdesign.Base.{
  Text, bytes, List, [], ◌∷◌, false, ◌≡◌, ◌≢◌, refl, In, inl, inr, text_eq, text_eq_iff, ◌∙◌, ap,
}
use pgdesign.Topo.{
  topo_sort, topo_sort_stable, with_cycles, left_over, items_at, mark_all, emitted_order, drain,
  zeros, release, push_if_zero, modify, count_items, count_deps, count_dependency, add_dependency,
  name_to_idx, newer, no_counts,
}
use pgdesign.Topo.Sorted.{IsSorting, topo_sort_correct}
use pgdesign.Topo.Stable.{topo_sort_stable_same}

record Table : Type 0 where
  name : Text
  deps : List Text

abbrev users : Table
users = record { name = bytes "users"; deps = [] }

abbrev posts : Table
posts = record { name = bytes "posts"; deps = bytes "users" ∷ bytes "posts" ∷ bytes "gone" ∷ [] }

-- Two tables that depend on each other.
abbrev left : Table
left = record { name = bytes "left"; deps = bytes "right" ∷ [] }

abbrev right : Table
right = record { name = bytes "right"; deps = bytes "left" ∷ bytes "users" ∷ [] }

abbrev name_of : Table → Text
name_of t = t.name

abbrev deps_of : Table → List Text
deps_of t = t.deps

abbrev tables : List Table
tables = posts ∷ left ∷ users ∷ right ∷ []

in_order_then_cycle :
    topo_sort name_of deps_of tables ≡ (users ∷ posts ∷ left ∷ right ∷ [], (left ∷ right ∷ []) ∷ [])
unfolding topo_sort with_cycles left_over items_at mark_all emitted_order drain zeros release
    push_if_zero modify count_items count_deps count_dependency add_dependency name_to_idx newer
    no_counts text_eq
in_order_then_cycle = refl

nothing_to_sort : topo_sort name_of deps_of [] ≡ ([], [])
unfolding topo_sort with_cycles left_over items_at mark_all emitted_order drain zeros release
    push_if_zero modify count_items count_deps count_dependency add_dependency name_to_idx newer
    no_counts text_eq
nothing_to_sort = refl

topo_sort_correct_example :
    IsSorting name_of deps_of tables
      (topo_sort name_of deps_of tables).0
      (topo_sort name_of deps_of tables).1
topo_sort_correct_example = topo_sort_correct name_of deps_of tables

differ : (a b : Text) → text_eq a b ≡ false → a ≢ b
differ a b f e = cc ((text_eq_iff a b).1 e, f)

apart : bytes "users" ≢ bytes "posts"
unfolding text_eq
apart = differ (bytes "users") (bytes "posts") refl

apart' : bytes "posts" ≢ bytes "users"
unfolding text_eq
apart' = differ (bytes "posts") (bytes "users") refl

there_back : (t : Table) → In t (users ∷ posts ∷ []) → In t (posts ∷ users ∷ [])
there_back t (inl e) = inr (inl e)
there_back t (inr (inl e)) = inl e
there_back t (inr (inr e)) = elim e [ ]

back_there : (t : Table) → In t (posts ∷ users ∷ []) → In t (users ∷ posts ∷ [])
back_there t (inl e) = inr (inl e)
back_there t (inr (inl e)) = inl e
back_there t (inr (inr e)) = elim e [ ]

only_other : (a b t : Table) → a.name ≢ b.name → In t (b ∷ []) → a.name ≢ t.name
only_other a b t n (inl e) = λ s. n (s ∙ ap name_of e)
only_other a b t n (inr e) = elim e [ ]

topo_sort_stable_same_example :
    topo_sort_stable name_of deps_of (users ∷ posts ∷ [])
    ≡ topo_sort_stable name_of deps_of (posts ∷ users ∷ [])
topo_sort_stable_same_example =
    topo_sort_stable_same name_of deps_of (users ∷ posts ∷ []) (posts ∷ users ∷ [])
      ((λ t. only_other users posts t apart), ((λ t m. elim m [ ]), tt))
      ((λ t. only_other posts users t apart'), ((λ t m. elim m [ ]), tt))
      (λ t. (there_back t, back_there t))
