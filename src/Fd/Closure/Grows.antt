-- ===== src/Fd/Closure/Grows.antt =====
-- One pass over the dependencies: what it keeps, what it adds, and what its flag says.
use pgdesign.Base.{
  Text, List, [], ◌∷◌, ◌++◌, true, false, elem, In, ◌≡◌, refl, arith, Bool-cases, text_eq_iff,
  elem-append, inl, inr,
}
use pgdesign.Fd.{FuncDep}
use pgdesign.Fd.Sets.{is_subset, contains, elem_head, elem_tail, is_subset_elim}
use pgdesign.Fd.Closure.{Pass, add_attr, add_attrs, apply_fd, run_pass}

-- The two branches of each test, as equations.
pub add_attr_old : (s : Pass) (x : Text) → contains s.result x ≡ true → add_attr s x ≡ s
unfolding add_attr
add_attr_old s x h = rw h

pub add_attr_new :
    (s : Pass) (x : Text)
    → contains s.result x ≡ false
    → add_attr s x ≡ record { result = s.result ++ (x ∷ []); changed = true }
unfolding add_attr
add_attr_new s x h = rw h

pub apply_fd_on :
    (s : Pass) (fd : FuncDep)
    → is_subset fd.determinant s.result ≡ true
    → apply_fd s fd ≡ add_attrs s fd.dependent
unfolding apply_fd
apply_fd_on s fd h = rw h

pub apply_fd_off :
    (s : Pass) (fd : FuncDep) → is_subset fd.determinant s.result ≡ false → apply_fd s fd ≡ s
unfolding apply_fd
apply_fd_off s fd h = rw h

-- Nothing is taken out.
elem-add_attr :
    (s : Pass) (x a : Text) → elem a s.result ≡ true → elem a (add_attr s x).result ≡ true
unfolding add_attr
elem-add_attr s x a h = ground (arith, elem-append a s.result (x ∷ []))

pub elem-add_attrs :
    (s : Pass) (l : List Text) (a : Text)
    → elem a s.result ≡ true
    → elem a (add_attrs s l).result ≡ true
unfolding add_attrs
elem-add_attrs s [] a h = h
elem-add_attrs s (x ∷ l) a h = elem-add_attrs (add_attr s x) l a (elem-add_attr s x a h)

elem-apply_fd :
    (s : Pass) (fd : FuncDep) (a : Text)
    → elem a s.result ≡ true
    → elem a (apply_fd s fd).result ≡ true
unfolding apply_fd
elem-apply_fd s fd a h = elim (Bool-cases (is_subset fd.determinant s.result)) [
  | inl e ↦ rw e (elem-add_attrs s fd.dependent a h)
  | inr e ↦ rw e h
]

pub elem-run_pass :
    (s : Pass) (fds : List FuncDep) (a : Text)
    → elem a s.result ≡ true
    → elem a (run_pass s fds).result ≡ true
unfolding run_pass
elem-run_pass s [] a h = h
elem-run_pass s (fd ∷ fds) a h = elem-run_pass (apply_fd s fd) fds a (elem-apply_fd s fd a h)

-- What is added comes from the right sides.
module _ (P : Text → Type 0) where
  add_attr_sound :
      (s : Pass) (x : Text)
      → ((a : Text) → elem a s.result ≡ true → P a)
      → P x
      → (a : Text) → elem a (add_attr s x).result ≡ true
      → P a
  unfolding add_attr elem
  add_attr_sound s x h px a e = elim (Bool-cases (contains s.result x)) [
    | inl c ↦ h a (rw (add_attr_old s x c) at e)
    | inr c ↦ elim (Bool-cases (elem a s.result)) [
      | inl old ↦ h a old
      | inr new ↦
          let same : a ≡ x = ground (arith, elem-append a s.result (x ∷ []), text_eq_iff a x) in
          rw same px
    ]
  ]

  pub add_attrs_sound :
      (s : Pass) (l : List Text)
      → ((a : Text) → elem a s.result ≡ true → P a)
      → ((a : Text) → elem a l ≡ true → P a)
      → (a : Text) → elem a (add_attrs s l).result ≡ true
      → P a
  unfolding add_attrs
  add_attrs_sound s [] h k = h
  add_attrs_sound s (x ∷ l) h k =
      add_attrs_sound (add_attr s x) l (add_attr_sound s x h (k x (elem_head x l)))
        (λ a e. k a (elem_tail a x l e))

  pub run_pass_sound :
      (fds : List FuncDep)
      → ((fd : FuncDep)
          → In fd fds
          → ((b : Text) → elem b fd.determinant ≡ true → P b)
          → (a : Text) → elem a fd.dependent ≡ true
          → P a)
      → (s : Pass) → ((a : Text) → elem a s.result ≡ true → P a)
      → (a : Text) → elem a (run_pass s fds).result ≡ true
      → P a
  unfolding run_pass
  run_pass_sound [] step s h = h
  run_pass_sound (fd ∷ fds) step s h =
      run_pass_sound fds (λ g m. step g (inr m)) (apply_fd s fd)
        (elim (Bool-cases (is_subset fd.determinant s.result)) [
          | inl e ↦ rw (apply_fd_on s fd e) (
              add_attrs_sound s fd.dependent h
                (step fd (inl refl) (λ b q. h b (is_subset_elim fd.determinant s.result b e q))))
          | inr e ↦ rw (apply_fd_off s fd e) h
        ])
