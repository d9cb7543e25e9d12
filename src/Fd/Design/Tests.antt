-- ===== src/Fd/Design/Tests.antt =====
-- A decomposition that loses nothing, and one that loses a dependency.
use pgdesign.Base.{
  Text, List, [], ◌∷◌, true, false, String, bytes, elem, ◌≡◌, refl, ◌↔◌, ◌⊎◌, text_eq, map, sort_by,
  inl,
}
use pgdesign.Fd.{FuncDep}
use pgdesign.Fd.Sets.{set_intersection, set_difference, join_attrs}
use pgdesign.Fd.Closure.{closure}
use pgdesign.Fd.Closure.Derives.{Determines, given, by_fd}
use pgdesign.Fd.Cover.{minimal_cover, fd_less}
use pgdesign.Fd.Cover.Implied.{Implies}
use pgdesign.Fd.Design.{
  Component, project_fds, project_loop, is_lossless_join, preserves_dependencies, projected_all,
  check_fds, check_attrs, lose, lost_fd, is_prime, is_superset_of_any,
}
use pgdesign.Fd.Design.Lossless.{Shared, is_lossless_join_correct}
use pgdesign.Fd.Design.Preserved.{preserves_dependencies_correct}

abbrev names : List String → List Text
names = map bytes

abbrev dep : List String → List String → FuncDep
dep x y = record { determinant = names x; dependent = names y; source = [] }

abbrev chained : List FuncDep
chained = dep ("a" ∷ []) ("b" ∷ []) ∷ dep ("b" ∷ []) ("c" ∷ []) ∷ []

abbrev left : List Text
left = names ("a" ∷ "b" ∷ [])

abbrev right : List Text
right = names ("b" ∷ "c" ∷ [])

abbrev whole : List Text
whole = names ("a" ∷ "b" ∷ "c" ∷ [])

lossless : is_lossless_join left right whole chained ≡ true
unfolding is_lossless_join set_intersection closure
lossless = refl

projected : project_fds right chained ≡ dep ("b" ∷ []) ("c" ∷ []) ∷ []
unfolding project_fds project_loop set_intersection set_difference minimal_cover closure
projected = refl

abbrev part : List Text → List FuncDep → Component
part attrs fds = record { name = bytes "t"; attributes = attrs; fds = fds }

lost_one :
    preserves_dependencies chained (part left (dep ("a" ∷ []) ("b" ∷ []) ∷ []) ∷ [])
    ≡ (false, dep ("b" ∷ []) ("c" ∷ []) ∷ [])
unfolding preserves_dependencies projected_all check_fds check_attrs lose lost_fd closure join_attrs
    fd_less sort_by
lost_one = refl

prime : is_prime (bytes "a") (left ∷ []) ≡ true
unfolding is_prime closure
prime = refl

superset : is_superset_of_any whole (right ∷ []) ≡ true
unfolding is_superset_of_any closure
superset = refl

is_lossless_join_correct_example :
    ((a : Text) → (elem a (set_intersection left right) ≡ true) ↔ Shared left right a)
    × ((is_lossless_join left right whole chained ≡ true)
        ↔ ((a : Text) × Shared left right a)
          × (((a : Text) → elem a left ≡ true → Determines chained (set_intersection left right) a)
              ⊎ ((a : Text)
                  → elem a right ≡ true
                  → Determines chained (set_intersection left right) a)))
is_lossless_join_correct_example = is_lossless_join_correct left right whole chained

derived : Determines (project_fds right chained) (names ("b" ∷ [])) (bytes "c")
unfolding elem text_eq
derived = by_fd (dep ("b" ∷ []) ("c" ∷ [])) (rw projected (inl refl)) (λ c q. given q) refl

abbrev kept : List Component
kept = part left (dep ("a" ∷ []) ("b" ∷ []) ∷ []) ∷ part right (dep ("b" ∷ []) ("c" ∷ []) ∷ []) ∷ []

preserves_dependencies_correct_example :
    (((preserves_dependencies chained kept).0 ≡ true) ↔ Implies (projected_all kept) chained)
    × (Implies (projected_all kept) chained → preserves_dependencies chained kept ≡ (true, []))
preserves_dependencies_correct_example = preserves_dependencies_correct chained kept
