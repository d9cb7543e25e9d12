-- ===== src/Fd/Design.antt =====
-- What internal/fd/fd.go says of a decomposition: projected dependencies, lossless joins and
-- preserved dependencies.
pub mod Lossless
pub mod Preserved
mod Tests
use pgdesign.Base.{
  Text, List, [], ◌∷◌, ◌++◌, map, Bool, true, false, not, ◌||◌, sort_texts, sort_by, text_eq,
  if◌then◌else◌,
}
use pgdesign.Fd.{FuncDep}
use pgdesign.Fd.Sets.{is_subset, contains, join_attrs, set_difference, set_intersection}
use pgdesign.Fd.Closure.{closure}
use pgdesign.Fd.Cover.{minimal_cover, fd_less}

pub record Component : Type 0 where
  pub name : Text
  pub attributes : List Text
  pub fds : List FuncDep

unfoldable pub is_prime : Text → List (List Text) → Bool
is_prime attr [] = false
is_prime attr (key ∷ keys) = contains key attr || is_prime attr keys

unfoldable pub is_superset_of_any : List Text → List (List Text) → Bool
is_superset_of_any combo [] = false
is_superset_of_any combo (key ∷ keys) = is_subset key combo || is_superset_of_any combo keys

abbrev pub is_empty {ℓ} : {A : Type ℓ} → List A → Bool
is_empty [] = true
is_empty (x ∷ xs) = false

-- The loop of projectFDs over the dependencies left; `all` are those that the closure reads.
unfoldable pub project_loop : List Text → List FuncDep → List FuncDep → List FuncDep
project_loop attrs all [] = []
project_loop attrs all (fd ∷ fds) =
    let rest = project_loop attrs all fds in
    let rhs = set_difference (set_intersection (closure fd.determinant all) attrs) fd.determinant in
    if not (is_subset fd.determinant attrs)
    then rest
    else if is_empty rhs
    then rest
    else record { determinant = fd.determinant; dependent = rhs; source = [] } ∷ rest

unfoldable pub project_fds : List Text → List FuncDep → List FuncDep
project_fds attrs fds = minimal_cover (project_loop attrs fds fds)

unfoldable pub is_lossless_join : List Text → List Text → List Text → List FuncDep → Bool
is_lossless_join r1 r2 all_attrs fds =
    let inter = set_intersection r1 r2 in
    if is_empty inter
    then false
    else is_subset r1 (closure inter fds) || is_subset r2 (closure inter fds)

pub record LostEntry : Type 0 where
  pub det : List Text
  pub deps : List Text

abbrev pub LostMap : Type 0
LostMap = List (Text × LostEntry)

unfoldable pub add_lost : LostEntry → Text → LostEntry
add_lost entry attr =
    if contains entry.deps attr
    then entry
    else record entry { deps = sort_texts (entry.deps ++ (attr ∷ [])) }

-- The update of `lostMap` for one lost attribute.
unfoldable pub lose : List Text → Text → LostMap → LostMap
lose det attr [] = (join_attrs det, record { det = sort_texts det; deps = attr ∷ [] }) ∷ []
lose det attr ((k, entry) ∷ m) =
    let rest = lose det attr m in
    if text_eq k (join_attrs det) then (k, add_lost entry attr) ∷ m else (k, entry) ∷ rest

-- The inner loop of PreservesDependencies, over the right side of one dependency.
unfoldable pub check_attrs : List FuncDep → List Text → List Text → LostMap → LostMap
check_attrs projected det [] m = m
check_attrs projected det (attr ∷ rest) m =
    check_attrs projected det rest
      (if not (contains (closure det projected) attr) then lose det attr m else m)

unfoldable pub check_fds : List FuncDep → List FuncDep → LostMap → LostMap
check_fds projected [] m = m
check_fds projected (fd ∷ fds) m =
    check_fds projected fds (check_attrs projected fd.determinant fd.dependent m)

unfoldable pub projected_all : List Component → List FuncDep
projected_all [] = []
projected_all (comp ∷ components) = comp.fds ++ projected_all components

unfoldable pub lost_fd : Text × LostEntry → FuncDep
lost_fd (k, entry) = record { determinant = entry.det; dependent = entry.deps; source = [] }

unfoldable pub preserves_dependencies : List FuncDep → List Component → Bool × List FuncDep
preserves_dependencies original components =
    let lost = check_fds (projected_all components) original [] in
    if is_empty lost then (true, []) else (false, sort_by fd_less (map lost_fd lost))
