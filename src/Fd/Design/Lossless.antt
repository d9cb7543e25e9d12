-- ===== src/Fd/Design/Lossless.antt =====
-- internal/fd/fd.go, IsLosslessJoin and projectFDs.
use pgdesign.Base.{
  Text, List, [], ◌∷◌, true, false, not, ◌&&◌, elem, In, inl, inr, ◌⊎◌, ◌↔◌, ◌≡◌, refl, arith,
  Bool-cases, text_eq_iff, elem-sort_texts,
}
use pgdesign.Fd.{FuncDep}
use pgdesign.Fd.Sets.{
  is_subset, is_subset_elim, is_subset_intro, within, without, set_difference, set_intersection,
  elem_head,
}
use pgdesign.Fd.Closure.{closure}
use pgdesign.Fd.Closure.Derives.{Determines, Determines-of_implied}
use pgdesign.Fd.Closure.Fixpoint.{closure_correct}
use pgdesign.Fd.Cover.Redundant.{minimal_cover_sound}
use pgdesign.Fd.Design.{is_empty, is_lossless_join, project_loop, project_fds}

elem-within : (a : Text) (x y : List Text) → elem a (within x y) ≡ (elem a x && elem a y)
unfolding elem within
elem-within a [] y = refl
elem-within a (v ∷ x) y = ground (arith, elem-within a x y, text_eq_iff a v)

elem-without : (a : Text) (x y : List Text) → elem a (without x y) ≡ (elem a x && not (elem a y))
unfolding elem without
elem-without a [] y = refl
elem-without a (v ∷ x) y = ground (arith, elem-without a x y, text_eq_iff a v)

elem-set_intersection :
    (a : Text) (x y : List Text) → elem a (set_intersection x y) ≡ (elem a x && elem a y)
unfolding set_intersection
elem-set_intersection a x y = rw (elem-sort_texts a (within x y)) (elem-within a x y)

elem-set_difference :
    (a : Text) (x y : List Text) → elem a (set_difference x y) ≡ (elem a x && not (elem a y))
unfolding set_difference
elem-set_difference a x y = rw (elem-sort_texts a (without x y)) (elem-without a x y)

subset_closure :
    (r xs : List Text) (fds : List FuncDep)
    → (is_subset r (closure xs fds) ≡ true) ↔ ((a : Text) → elem a r ≡ true → Determines fds xs a)
subset_closure r xs fds = (
  λ h a e. (closure_correct xs fds a).0 (is_subset_elim r (closure xs fds) a h e),
  λ h. is_subset_intro r (closure xs fds) (λ a e. (closure_correct xs fds a).1 (h a e)),
)

is_empty-false : (l : List Text) → (a : Text) → elem a l ≡ true → is_empty l ≡ false
unfolding elem
is_empty-false [] a h = cc
is_empty-false (x ∷ l) a h = refl

has_member : (l : List Text) → is_empty l ≡ false → (a : Text) × (elem a l ≡ true)
has_member [] h = cc
has_member (x ∷ l) h = (x, elem_head x l)

-- What the two parts have in common, as attributes.
abbrev pub Shared : List Text → List Text → Text → Type 0
Shared r1 r2 a = (elem a r1 ≡ true) × (elem a r2 ≡ true)

-- The test for a lossless join succeeds exactly when the two parts share an attribute and their
-- shared attributes, which the list that it computes holds and no others, determine all of one part.
-- Where the parts share no attribute it fails, also if the dependencies without determinant give all
-- of one part.
pub is_lossless_join_correct :
    (r1 r2 all_attrs : List Text) (fds : List FuncDep)
    → ((a : Text) → (elem a (set_intersection r1 r2) ≡ true) ↔ Shared r1 r2 a)
      × ((is_lossless_join r1 r2 all_attrs fds ≡ true)
          ↔ ((a : Text) × Shared r1 r2 a)
            × (((a : Text) → elem a r1 ≡ true → Determines fds (set_intersection r1 r2) a)
                ⊎ ((a : Text) → elem a r2 ≡ true → Determines fds (set_intersection r1 r2) a)))
unfolding is_lossless_join
is_lossless_join_correct r1 r2 all_attrs fds =
    let inter = set_intersection r1 r2 in
    let both : (a : Text) → (elem a inter ≡ true) ↔ Shared r1 r2 a = λ a. (
      λ h. (
        ground (arith, elem-set_intersection a r1 r2),
        ground (arith, elem-set_intersection a r1 r2),
      ),
      λ (h, k). ground (arith, elem-set_intersection a r1 r2),
    ) in
    let one = subset_closure r1 inter fds in
    let two = subset_closure r2 inter fds in
    (
      both,
      (
        λ h.
            let (a, m) = has_member inter (ground arith) in
            (
              (a, (both a).0 m),
              elim (Bool-cases (is_subset r1 (closure inter fds))) [
                | inl s ↦ inl (one.0 s)
                | inr s ↦ inr (two.0 (ground arith))
              ],
            ),
        λ ((a, m), how).
            let some_shared = is_empty-false inter a ((both a).1 m) in
            elim how [
              | inl d ↦ let s = one.1 d in ground arith
              | inr d ↦ let s = two.1 d in ground arith
            ],
      ),
    )

module _ (attrs : List Text) (all : List FuncDep) where
  project_on :
      (fd : FuncDep) (fds : List FuncDep) (g : FuncDep)
      → In g (project_loop attrs all (fd ∷ fds))
      → In g (project_loop attrs all fds)
        ⊎ (g.determinant ≡ fd.determinant)
          × (g.dependent
              ≡ set_difference (set_intersection (closure fd.determinant all) attrs) fd.determinant)
  unfolding project_loop
  project_on fd fds g h = elim (Bool-cases (not (is_subset fd.determinant attrs))) [
    | inl out ↦ inl (rw out at h)
    | inr kept ↦
        elim (Bool-cases (
          is_empty (
            set_difference (set_intersection (closure fd.determinant all) attrs) fd.determinant))) [
              | inl none_left ↦ inl (rw (kept, none_left) at h)
              | inr rhs ↦ elim (rw (kept, rhs) at h) [
                | inl e ↦ inr (rw e refl, rw e refl)
                | inr m ↦ inl m
              ]
            ]
  ]

  -- The right side of a projected dependency is determined, and lies in the part.
  project_loop_lem :
      (fds : List FuncDep) (g : FuncDep)
      → In g (project_loop attrs all fds)
      → (b : Text) → elem b g.dependent ≡ true
      → Determines all g.determinant b
  unfolding project_loop
  project_loop_lem [] g m b e = elim m [ ]
  project_loop_lem (fd ∷ fds) g m b e = elim (project_on fd fds g m) [
    | inl old ↦ project_loop_lem fds g old b e
    | inr (det, rhs) ↦
        let closed = closure fd.determinant all in
        let inside : elem b closed ≡ true = ground (
          arith,
          (rw rhs at e),
          elem-set_difference b (set_intersection closed attrs) fd.determinant,
          elem-set_intersection b closed attrs,
        ) in
        rw det ((closure_correct fd.determinant all b).0 inside)
  ]

-- The dependencies projected on a part of the relation determine nothing that the given ones do
-- not determine.
pub project_fds_sound :
    (attrs : List Text) (fds : List FuncDep) (xs : List Text) (a : Text)
    → Determines (project_fds attrs fds) xs a
    → Determines fds xs a
unfolding project_fds
project_fds_sound attrs fds xs a d =
    Determines-of_implied (project_loop_lem attrs fds fds)
      (minimal_cover_sound (project_loop attrs fds fds) xs a d)
