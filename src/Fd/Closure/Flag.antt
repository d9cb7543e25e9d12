-- ===== src/Fd/Closure/Flag.antt =====
-- What the flag of a pass says: down, that nothing was missing; up, that something new was found.
use pgdesign.Base.{
  Text, List, [], ◌∷◌, Bool, true, false, elem, In, ◌≡◌, refl, arith, IsSorted, Bool-cases,
  text_eq_iff, elem-append, inl, inr, ap, sym, subst, ◌∙◌, ◌||◌,
}
use pgdesign.Fd.{FuncDep}
use pgdesign.Fd.Sets.{is_subset, contains, elem_of_contains, contains_of_elem, elem_head, elem_tail}
use pgdesign.Fd.Closure.{Pass, add_attr, add_attrs, apply_fd, run_pass, all_dependents}
use pgdesign.Fd.Closure.Grows.{
  elem-run_pass, elem-add_attrs, add_attr_old, add_attr_new, apply_fd_on, apply_fd_off,
}

or_true : (b : Bool) → (b || true) ≡ true
or_true b = ground arith

add_attr_flag : (s : Pass) (x : Text) → s.changed ≡ true → (add_attr s x).changed ≡ true
unfolding add_attr
add_attr_flag s x h = ground arith

-- The flag stays up.
add_attrs_flag : (s : Pass) (l : List Text) → s.changed ≡ true → (add_attrs s l).changed ≡ true
unfolding add_attrs
add_attrs_flag s [] h = h
add_attrs_flag s (x ∷ l) h = add_attrs_flag (add_attr s x) l (add_attr_flag s x h)

apply_fd_flag : (s : Pass) (fd : FuncDep) → s.changed ≡ true → (apply_fd s fd).changed ≡ true
unfolding apply_fd
apply_fd_flag s fd h = ground (arith, add_attrs_flag s fd.dependent)

run_pass_flag : (s : Pass) (fds : List FuncDep) → s.changed ≡ true → (run_pass s fds).changed ≡ true
unfolding run_pass
run_pass_flag s [] h = h
run_pass_flag s (fd ∷ fds) h = run_pass_flag (apply_fd s fd) fds (apply_fd_flag s fd h)

-- With the flag down, all of `l` was there and nothing was added.
add_attrs_quiet :
    (s : Pass) (l : List Text)
    → (add_attrs s l).changed ≡ false
    → (add_attrs s l ≡ s) × ((a : Text) → elem a l ≡ true → elem a s.result ≡ true)
unfolding add_attrs elem
add_attrs_quiet s [] h = (refl, λ a e. cc)
add_attrs_quiet s (x ∷ l) h = elim (Bool-cases (contains s.result x)) [
  | inl c ↦
      let same = add_attr_old s x c in
      let rec = add_attrs_quiet s l (subst (λ p. (add_attrs p l).changed ≡ false) same h) in
      (
        rw same rec.0,
        λ a e. ground (arith, elem_of_contains s.result x c, text_eq_iff a x, rec.1 a),
      )
  | inr c ↦
      let up : (add_attr s x).changed ≡ true = rw (add_attr_new s x c) in
      cc (add_attrs_flag (add_attr s x) l up)
]

-- A right side whose left side is held is held.
abbrev pub Respects : List Text → FuncDep → Type 0
Respects r fd =
    is_subset fd.determinant r ≡ true → (a : Text) → elem a fd.dependent ≡ true → elem a r ≡ true

apply_fd_quiet :
    (s : Pass) (fd : FuncDep)
    → (apply_fd s fd).changed ≡ false
    → (apply_fd s fd ≡ s) × Respects s.result fd
apply_fd_quiet s fd h = elim (Bool-cases (is_subset fd.determinant s.result)) [
  | inl e ↦
      let same = apply_fd_on s fd e in
      let q = add_attrs_quiet s fd.dependent (rw same at h) in (rw same q.0, λ _. q.1)
  | inr e ↦ (apply_fd_off s fd e, λ c. cc)
]

-- A pass that leaves the flag down adds nothing, and respects every dependency.
pub run_pass_quiet :
    (s : Pass) (fds : List FuncDep)
    → (run_pass s fds).changed ≡ false
    → (run_pass s fds ≡ s) × ((fd : FuncDep) → In fd fds → Respects s.result fd)
unfolding run_pass
run_pass_quiet s [] h = (refl, λ fd m. elim m [ ])
run_pass_quiet s (fd ∷ fds) h =
    let later = run_pass_quiet (apply_fd s fd) fds h in
    let now : (apply_fd s fd).changed ≡ false = elim (Bool-cases (apply_fd s fd).changed) [
      | inl up ↦ cc (run_pass_flag (apply_fd s fd) fds up)
      | inr down ↦ down
    ] in
    let here = apply_fd_quiet s fd now in
    (
      later.0 ∙ here.0,
      λ g m. elim m [ inl e ↦ rw e here.1 | inr m' ↦ (rw here.0 at (later.1 g m')) ],
    )

-- A text of `l` that was missing before and is there after.
abbrev Finds : List Text → List Text → List Text → Type 0
Finds l before after =
    (a : Text) × (elem a l ≡ true) × (elem a before ≡ false) × (elem a after ≡ true)

add_attrs_loud :
    (s : Pass) (l : List Text)
    → IsSorted s.result
    → s.changed ≡ false
    → (add_attrs s l).changed ≡ true
    → Finds l s.result (add_attrs s l).result
unfolding add_attrs
add_attrs_loud s [] o d h = cc
add_attrs_loud s (x ∷ l) o d h = elim (Bool-cases (contains s.result x)) [
  | inl c ↦
      let same = add_attr_old s x c in
      let (a, i, b, e) =
        add_attrs_loud s l o d (subst (λ p. (add_attrs p l).changed ≡ true) same h) in
      (a, elem_tail a x l i, b, subst (λ p. elem a (add_attrs p l).result ≡ true) (sym same) e)
  | inr c ↦
      let there : elem x (add_attr s x).result ≡ true =
        rw (add_attr_new s x c)
          (rw (elem-append x s.result (x ∷ []), elem_head x []) (or_true (elem x s.result))) in
      (
        x,
        elem_head x l,
        elim (Bool-cases (elem x s.result)) [
          | inl e ↦ cc (contains_of_elem s.result x o e)
          | inr e ↦ e
        ],
        elem-add_attrs (add_attr s x) l x there,
      )
]

apply_fd_loud :
    (s : Pass) (fd : FuncDep)
    → IsSorted s.result
    → s.changed ≡ false
    → (apply_fd s fd).changed ≡ true
    → Finds fd.dependent s.result (apply_fd s fd).result
apply_fd_loud s fd o d h = elim (Bool-cases (is_subset fd.determinant s.result)) [
  | inl e ↦
      let same = apply_fd_on s fd e in rw same (add_attrs_loud s fd.dependent o d (rw same at h))
  | inr e ↦ cc (ap (λ (p : Pass). p.changed) (apply_fd_off s fd e))
]

-- A pass that raises the flag over a sorted result finds an attribute that was not there.
pub run_pass_loud :
    (s : Pass) (fds : List FuncDep)
    → IsSorted s.result
    → s.changed ≡ false
    → (run_pass s fds).changed ≡ true
    → Finds (all_dependents fds) s.result (run_pass s fds).result
unfolding run_pass all_dependents
run_pass_loud s [] o d h = cc
run_pass_loud s (fd ∷ fds) o d h = elim (Bool-cases (apply_fd s fd).changed) [
  | inl up ↦
      let (a, i, b, e) = apply_fd_loud s fd o d up in
      (
        a,
        rw (elem-append a fd.dependent (all_dependents fds), i),
        b,
        elem-run_pass (apply_fd s fd) fds a e,
      )
  | inr down ↦
      let same = (apply_fd_quiet s fd down).0 in
      let (a, i, b, e) =
        run_pass_loud s fds o d (subst (λ p. (run_pass p fds).changed ≡ true) same h) in
      (
        a,
        rw (elem-append a fd.dependent (all_dependents fds), i) (or_true (elem a fd.dependent)),
        b,
        subst (λ p. elem a (run_pass p fds).result ≡ true) (sym same) e,
      )
]
