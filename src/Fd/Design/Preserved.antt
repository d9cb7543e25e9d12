-- ===== src/Fd/Design/Preserved.antt =====
-- internal/fd/fd.go, PreservesDependencies: its verdict.
use pgdesign.Base.{
  Text, List, [], ◌∷◌, true, false, elem, inl, inr, ◌↔◌, ◌≡◌, refl, arith, Bool-cases, text_eq,
  text_eq_iff,
}
use pgdesign.Fd.{FuncDep}
use pgdesign.Fd.Sets.{contains, contains_of_elem, elem_of_contains}
use pgdesign.Fd.Closure.{closure}
use pgdesign.Fd.Closure.Derives.{Determines}
use pgdesign.Fd.Closure.Fixpoint.{closure_correct, closure_fixpoint}
use pgdesign.Fd.Cover.Implied.{Implies}
use pgdesign.Fd.Design.{
  Component, is_empty, LostMap, lose, check_attrs, check_fds, projected_all, preserves_dependencies,
}

is_empty-lose : (det : List Text) (attr : Text) (m : LostMap) → is_empty (lose det attr m) ≡ false
unfolding lose
is_empty-lose det attr [] = refl
is_empty-lose det attr ((k, entry) ∷ m) = ground arith

contains-closure :
    (det : List Text) (fds : List FuncDep) (a : Text)
    → (contains (closure det fds) a ≡ true) ↔ Determines fds det a
contains-closure det fds a = (
  λ h. (closure_correct det fds a).0 (elem_of_contains (closure det fds) a h),
  λ d.
      contains_of_elem (closure det fds) a (closure_fixpoint det fds).1
        ((closure_correct det fds a).1 d),
)

module _ (projected : List FuncDep) where
  attrs_on :
      (det : List Text) (attr : Text) (rest : List Text) (m : LostMap)
      → contains (closure det projected) attr ≡ true
      → check_attrs projected det (attr ∷ rest) m ≡ check_attrs projected det rest m
  unfolding check_attrs
  attrs_on det attr rest m h = rw (h, check_attrs) refl

  attrs_off :
      (det : List Text) (attr : Text) (rest : List Text) (m : LostMap)
      → contains (closure det projected) attr ≡ false
      → check_attrs projected det (attr ∷ rest) m ≡ check_attrs projected det rest (lose det attr m)
  unfolding check_attrs
  attrs_off det attr rest m h = rw (h, check_attrs) refl

  -- Nothing is lost after the loop exactly when nothing was before and the whole right side is
  -- determined.
  check_attrs_lem :
      (det attrs : List Text) (m : LostMap)
      → (is_empty (check_attrs projected det attrs m) ≡ true)
        ↔ (is_empty m ≡ true) × ((a : Text) → elem a attrs ≡ true → Determines projected det a)
  unfolding check_attrs elem
  check_attrs_lem det [] m = (λ h. (h, λ a e. cc), λ h. h.0)
  check_attrs_lem det (attr ∷ attrs) m =
      let first = contains-closure det projected attr in
      elim (Bool-cases (contains (closure det projected) attr)) [
        | inl c ↦
            let rest = check_attrs_lem det attrs m in
            rw (attrs_on det attr attrs m c) (
              λ h.
                  let (none_lost, d) = rest.0 h in
                  (
                    none_lost,
                    λ a e. elim (Bool-cases (text_eq a attr)) [
                      | inl q ↦ rw ((text_eq_iff a attr).0 q) (first.0 c)
                      | inr q ↦ d a (rw q at e)
                    ],
                  ),
              λ (none_lost, d). rest.1 (none_lost, λ a e. d a (ground arith)),
            )
        | inr c ↦
            let rest = check_attrs_lem det attrs (lose det attr m) in
            rw (attrs_off det attr attrs m c) (
              λ h. cc ((rest.0 h).0, is_empty-lose det attr m),
              λ (none_lost, d). cc (first.1 (d attr (ground (arith, text_eq_iff attr attr))), c),
            )
      ]

  check_fds_lem :
      (fds : List FuncDep) (m : LostMap)
      → (is_empty (check_fds projected fds m) ≡ true) ↔ (is_empty m ≡ true) × Implies projected fds
  unfolding check_fds
  check_fds_lem [] m = (λ h. (h, λ fd i. elim i [ ]), λ h. h.0)
  check_fds_lem (fd ∷ fds) m =
      let rest = check_fds_lem fds (check_attrs projected fd.determinant fd.dependent m) in
      let here = check_attrs_lem fd.determinant fd.dependent m in
      (
        λ h.
            let (h', later) = rest.0 h in
            let (none_lost, now) = here.0 h' in
            (none_lost, λ g i. elim i [ inl e ↦ rw e now | inr i' ↦ later g i' ]),
        λ (none_lost, all). rest.1 (here.1 (none_lost, all fd (inl refl)), λ g i. all g (inr i)),
      )

-- PreservesDependencies says yes exactly when the dependencies of the components together
-- determine the right side of each original dependency from its left side, and then it lists
-- nothing as lost.
pub preserves_dependencies_correct :
    (original : List FuncDep) (components : List Component)
    → (((preserves_dependencies original components).0 ≡ true)
        ↔ Implies (projected_all components) original)
      × (Implies (projected_all components) original
          → preserves_dependencies original components ≡ (true, []))
unfolding preserves_dependencies
preserves_dependencies_correct original components =
    let projected = projected_all components in
    let l = check_fds_lem projected original [] in
    elim (Bool-cases (is_empty (check_fds projected original []))) [
      | inl e ↦ rw (e, preserves_dependencies) ((λ h. (l.0 e).1, λ h. refl), λ h. refl)
      | inr e ↦
          rw (e, preserves_dependencies)
            ((λ h. cc, λ h. cc (l.1 (refl, h), e)), λ h. cc (l.1 (refl, h), e))
    ]
