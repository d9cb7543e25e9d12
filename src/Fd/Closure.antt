-- ===== src/Fd/Closure.antt =====
-- `Closure` and `IsSuperkey` of internal/fd/fd.go. The loop stops after a pass that adds nothing.
-- Its fuel is one more than the number of texts on the right of the dependencies: the first text
-- that a pass adds is new, so that many passes are enough (`Fd.Closure.Fixpoint`).
mod Grows
mod Flag
pub mod Derives
pub mod Fixpoint
use pgdesign.Base.{
  ℕ, zero, suc, Text, List, [], ◌∷◌, ◌++◌, Bool, true, false, sort_texts, if◌then◌else◌, length,
  elem, text_eq, text_lt, search_texts,
}
use pgdesign.Fd.{FuncDep}
use pgdesign.Fd.Sets.{is_subset, contains}

-- `result` and `changed`.
pub record Pass : Type 0 where
  pub result : List Text
  pub changed : Bool

pub add_attr : Pass → Text → Pass
add_attr s a =
    if contains s.result a then s else record { result = s.result ++ (a ∷ []); changed = true }

-- The loop over fd.Dependent.
pub add_attrs : Pass → List Text → Pass
add_attrs s [] = s
add_attrs s (a ∷ rest) = add_attrs (add_attr s a) rest

pub apply_fd : Pass → FuncDep → Pass
apply_fd s fd = if is_subset fd.determinant s.result then add_attrs s fd.dependent else s

-- The loop over fds.
pub run_pass : Pass → List FuncDep → Pass
run_pass s [] = s
run_pass s (fd ∷ fds) = run_pass (apply_fd s fd) fds

-- The loop `for changed`.
pub closure_loop : ℕ → List FuncDep → List Text → List Text
closure_loop zero fds result = result
closure_loop (suc f) fds result =
    let p = run_pass (record { result = result; changed = false }) fds in
    let rest = closure_loop f fds (sort_texts p.result) in if p.changed then rest else p.result

unfoldable pub all_dependents : List FuncDep → List Text
all_dependents [] = []
all_dependents (fd ∷ fds) = fd.dependent ++ all_dependents fds

unfoldable pub closure : List Text → List FuncDep → List Text
unfolding closure_loop run_pass apply_fd add_attrs add_attr all_dependents is_subset contains
    sort_texts elem text_eq search_texts text_lt
closure attrs fds = closure_loop (suc (length (all_dependents fds))) fds (sort_texts attrs)

unfoldable pub is_superkey : List Text → List Text → List FuncDep → Bool
unfolding closure
is_superkey attrs all_attrs fds = is_subset all_attrs (closure attrs fds)
