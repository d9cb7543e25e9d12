-- ===== src/Fd/Cover.antt =====
-- `MinimalCover` of internal/fd/fd.go: its three steps and the final sort. `sort.Slice` is a
-- stable insertion sort here; Go leaves the order of equal keys open.
pub mod Implied
pub mod Reduced
pub mod Redundant
use pgdesign.Base.{
  ℕ, zero, suc, ◌+◌, Text, List, [], ◌∷◌, ◌++◌, Bool, true, false, sort_texts, sort_by, text_eq,
  text_lt, not, if◌then◌else◌, length, leb, ltb,
}
use pgdesign.Fd.{FuncDep}
use pgdesign.Fd.Sets.{contains, join_attrs}
use pgdesign.Fd.Closure.{closure}

-- Step 1, for one dependency: X -> {A, B} becomes X -> A and X -> B.
unfoldable pub split_rhs : List Text → List Text → List FuncDep
split_rhs det [] = []
split_rhs det (a ∷ rest) =
    record { determinant = sort_texts det; dependent = a ∷ []; source = [] } ∷ split_rhs det rest

unfoldable pub decompose : List FuncDep → List FuncDep
decompose [] = []
decompose (fd ∷ fds) = split_rhs fd.determinant fd.dependent ++ decompose fds

-- Dependent[0]
unfoldable pub first : List Text → Text
first [] = []
first (a ∷ rest) = a

unfoldable pub remove_at : ℕ → List Text → List Text
remove_at j [] = []
remove_at zero (x ∷ xs) = xs
remove_at (suc j) (x ∷ xs) = x ∷ remove_at j xs

-- The inner loop of step 2, over the position j; each round shortens what is left of the
-- determinant, so its length is fuel enough. `before` and `after` are the other dependencies.
unfoldable pub reduce_lhs : ℕ → List FuncDep → FuncDep → List FuncDep → ℕ → FuncDep
reduce_lhs zero before fd after j = fd
reduce_lhs (suc f) before fd after j =
    let reduced = remove_at j fd.determinant in
    let shrunk = reduce_lhs f before (record fd { determinant = reduced }) after j in
    let next = reduce_lhs f before fd after (j + 1) in
    if ltb j (length fd.determinant)
    then if contains (closure reduced (before ++ (fd ∷ after))) (first fd.dependent)
      then shrunk
      else next
    else fd

unfoldable pub reduce_one : List FuncDep → FuncDep → List FuncDep → FuncDep
reduce_one before fd after =
    if leb (length fd.determinant) 1
    then fd
    else reduce_lhs (length fd.determinant) before fd after 0

-- Step 2.
unfoldable pub reduce_all : List FuncDep → List FuncDep → List FuncDep
reduce_all before [] = before
reduce_all before (fd ∷ after) = reduce_all (before ++ (reduce_one before fd after ∷ [])) after

-- Step 3. What is tested against is the whole list without the one at hand.
unfoldable pub remove_redundant : List FuncDep → List FuncDep → List FuncDep
remove_redundant before [] = []
remove_redundant before (fd ∷ after) =
    let rest = remove_redundant (before ++ (fd ∷ [])) after in
    if contains (closure fd.determinant (before ++ after)) (first fd.dependent)
    then rest
    else fd ∷ rest

unfoldable pub fd_less : FuncDep → FuncDep → Bool
unfolding join_attrs
fd_less a b =
    let di = join_attrs a.determinant in
    let dj = join_attrs b.determinant in
    if not (text_eq di dj)
    then text_lt di dj
    else text_lt (join_attrs a.dependent) (join_attrs b.dependent)

unfoldable pub minimal_cover : List FuncDep → List FuncDep
unfolding split_rhs decompose first remove_at reduce_lhs reduce_one reduce_all remove_redundant
    fd_less sort_by closure
minimal_cover fds = sort_by fd_less (remove_redundant [] (reduce_all [] (decompose fds)))
