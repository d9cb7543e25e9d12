-- ===== src/Fd/Cover/Redundant.antt =====
-- Step 3 of `MinimalCover`: what is kept, what it implies, and what is lost.
use pgdesign.Base.{
  Text, List, [], ◌∷◌, ◌++◌, false, In, ◌≡◌, refl, inl, inr, ◌⊎◌, Bool-cases, append_assoc, sym,
  In-sort_by, subst,
}
use pgdesign.Fd.{FuncDep}
use pgdesign.Fd.Sets.{contains, contains_of_elem, elem_head}
use pgdesign.Fd.Closure.{closure}
use pgdesign.Fd.Closure.Derives.{Determines, given, by_fd, Determines-of_implied}
use pgdesign.Fd.Closure.Fixpoint.{closure_correct, closure_fixpoint}
use pgdesign.Fd.Cover.{first, remove_redundant, minimal_cover, fd_less}
use pgdesign.Fd.Cover.Implied.{Implies-of_In, Implies-trans}
use pgdesign.Fd.Cover.Reduced.{reduced, reduced-Equivalent}

-- `fd` stands in `l`, and the others do not determine its right side.
abbrev pub IsNeeded : List FuncDep → FuncDep → Type 0
IsNeeded l fd =
    (b a : List FuncDep) × (l ≡ b ++ (fd ∷ a))
    × ¬ Determines (b ++ a) fd.determinant (first fd.dependent)

not_determined :
    (xs : List Text) (fds : List FuncDep) (a : Text)
    → contains (closure xs fds) a ≡ false
    → ¬ Determines fds xs a
not_determined xs fds a c d = cc (
    contains_of_elem (closure xs fds) a (closure_fixpoint xs fds).1
      ((closure_correct xs fds a).1 d))

remove_redundant-IsNeeded :
    (before after : List FuncDep) (fd : FuncDep)
    → In fd (remove_redundant before after)
    → IsNeeded (before ++ after) fd
unfolding remove_redundant
remove_redundant-IsNeeded before [] fd m = elim m [ ]
remove_redundant-IsNeeded before (x ∷ after) fd m =
    let later = λ (n : In fd (remove_redundant (before ++ (x ∷ [])) after)).
      subst (λ l. IsNeeded l fd) (append_assoc before (x ∷ []) after)
        (remove_redundant-IsNeeded (before ++ (x ∷ [])) after fd n) in
    elim (Bool-cases (contains (closure x.determinant (before ++ after)) (first x.dependent))) [
      | inl c ↦ later (rw c at m)
      | inr c ↦
          let m' : (fd ≡ x) ⊎ In fd (remove_redundant (before ++ (x ∷ [])) after) = rw c at m in
          elim m' [
            | inl e ↦ subst (IsNeeded (before ++ (x ∷ after))) (sym e) (
              before,
              after,
              refl,
              not_determined x.determinant (before ++ after) (first x.dependent) c,
            )
            | inr n ↦ later n
          ]
    ]

-- What the cover keeps is needed: the other dependencies of the reduced list do not determine the
-- right side of any of its members.
pub minimal_cover-IsNeeded :
    (fds : List FuncDep) (fd : FuncDep) → In fd (minimal_cover fds) → IsNeeded (reduced fds) fd
unfolding minimal_cover
minimal_cover-IsNeeded fds fd m =
    remove_redundant-IsNeeded [] (reduced fds) fd
      (In-sort_by fd_less fd (remove_redundant [] (reduced fds)) m)

IsNeeded-In : (l : List FuncDep) (fd : FuncDep) → IsNeeded l fd → In fd l
IsNeeded-In l fd (b, a, e, n) = subst (In fd) (sym e) (there b)
  where
    there : (b : List FuncDep) → In fd (b ++ (fd ∷ a))
    there [] = inl refl
    there (x ∷ b) = inr (there b)

-- The cover determines nothing that the given dependencies do not determine.
pub minimal_cover_sound :
    (fds : List FuncDep) (xs : List Text) (a : Text)
    → Determines (minimal_cover fds) xs a
    → Determines fds xs a
minimal_cover_sound fds xs a d =
    Determines-of_implied
      (Implies-trans fds (reduced fds) (minimal_cover fds) (reduced-Equivalent fds).0 (
        Implies-of_In (reduced fds) (minimal_cover fds)
          (λ fd m. IsNeeded-In (reduced fds) fd (minimal_cover-IsNeeded fds fd m))))
      d

-- `fd` stands in the list at two places.
abbrev pub Twice : FuncDep → List FuncDep → Type 0
Twice fd [] = ⊥
Twice fd (x ∷ l) = (fd ≡ x) × In fd l ⊎ Twice fd l

Twice-In : (fd : FuncDep) (l : List FuncDep) → Twice fd l → In fd l
Twice-In fd [] t = elim t [ ]
Twice-In fd (x ∷ l) (inl p) = inl p.0
Twice-In fd (x ∷ l) (inr t) = inr (Twice-In fd l t)

In-of_Twice : (fd x : FuncDep) (b a : List FuncDep) → Twice fd (b ++ (x ∷ a)) → In fd (b ++ a)
In-of_Twice fd x [] a (inl p) = p.1
In-of_Twice fd x [] a (inr t) = Twice-In fd a t
In-of_Twice fd x (y ∷ b) a (inl p) = inl p.0
In-of_Twice fd x (y ∷ b) a (inr t) = inr (In-of_Twice fd x b a t)

-- A dependency that the reduced list holds twice is not in the cover at all: each copy is found
-- redundant because of the other.
pub minimal_cover-drops-Twice :
    (fds : List FuncDep) (fd : FuncDep) (d : Text)
    → fd.dependent ≡ d ∷ []
    → Twice fd (reduced fds)
    → ¬ In fd (minimal_cover fds)
unfolding first
minimal_cover-drops-Twice fds fd d s t m =
    let (b, a, e, n) = minimal_cover-IsNeeded fds fd m in
    let other = In-of_Twice fd fd b a (subst (Twice fd) e t) in
    let derived : Determines (b ++ a) fd.determinant d =
      by_fd fd other (λ c q. given q) (rw s (elem_head d [])) in
    n (subst (λ l. Determines (b ++ a) fd.determinant (first l)) (sym s) derived)
