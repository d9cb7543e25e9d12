-- ===== src/Fd/Cover/Implied.antt =====
-- When one list of dependencies implies another.
use pgdesign.Base.{
  Text, List, ◌∷◌, ◌++◌, In, elem, ◌≡◌, true, inl, inr, In-append_cases, In-append_left,
  In-append_right, ◌↔◌,
}
use pgdesign.Fd.{FuncDep}
use pgdesign.Fd.Closure.Derives.{Determines, given, by_fd, Determines-of_implied}

-- `fd` holds in every relation in which `gds` hold.
abbrev pub Follows : List FuncDep → FuncDep → Type 0
Follows gds fd = (b : Text) → elem b fd.dependent ≡ true → Determines gds fd.determinant b

abbrev pub Implies : List FuncDep → List FuncDep → Type 0
Implies gds fds = (fd : FuncDep) → In fd fds → Follows gds fd

abbrev pub Equivalent : List FuncDep → List FuncDep → Type 0
Equivalent gds fds = Implies gds fds × Implies fds gds

pub Follows-In : (gds : List FuncDep) (fd : FuncDep) → In fd gds → Follows gds fd
Follows-In gds fd m b e = by_fd fd m (λ c q. given q) e

pub Implies-of_In :
    (gds fds : List FuncDep) → ((fd : FuncDep) → In fd fds → In fd gds) → Implies gds fds
Implies-of_In gds fds h fd m = Follows-In gds fd (h fd m)

pub Implies-refl : (fds : List FuncDep) → Implies fds fds
Implies-refl fds = Implies-of_In fds fds (λ fd m. m)

pub Implies-trans :
    (fds gds hds : List FuncDep) → Implies fds gds → Implies gds hds → Implies fds hds
Implies-trans fds gds hds h k fd m b e = Determines-of_implied h (k fd m b e)

pub Equivalent-refl : (fds : List FuncDep) → Equivalent fds fds
Equivalent-refl fds = (Implies-refl fds, Implies-refl fds)

pub Equivalent-trans :
    (fds gds hds : List FuncDep) → Equivalent fds gds → Equivalent gds hds → Equivalent fds hds
Equivalent-trans fds gds hds h k =
    (Implies-trans fds gds hds h.0 k.0, Implies-trans hds gds fds k.1 h.1)

-- Equivalent lists determine the same attributes.
pub Equivalent-Determines :
    (fds gds : List FuncDep) (xs : List Text) (a : Text)
    → Equivalent fds gds
    → Determines fds xs a ↔ Determines gds xs a
Equivalent-Determines fds gds xs a h =
    (λ d. Determines-of_implied h.1 d, λ d. Determines-of_implied h.0 d)

-- One dependency in place of another, the rest being the same.
pub Implies-swap :
    (before after : List FuncDep) (fd gd : FuncDep)
    → Follows (before ++ (gd ∷ after)) fd
    → Implies (before ++ (gd ∷ after)) (before ++ (fd ∷ after))
Implies-swap before after fd gd h x m = elim (In-append_cases x before (fd ∷ after) m) [
  | inl l ↦ Follows-In (before ++ (gd ∷ after)) x (In-append_left x before (gd ∷ after) l)
  | inr r ↦ elim r [
    | inl e ↦ subst_follows e h
    | inr n ↦ Follows-In (before ++ (gd ∷ after)) x (In-append_right x before (gd ∷ after) (inr n))
  ]
]
  where
    subst_follows : {x fd : FuncDep} {gds : List FuncDep} → x ≡ fd → Follows gds fd → Follows gds x
    subst_follows e h = rw e h
