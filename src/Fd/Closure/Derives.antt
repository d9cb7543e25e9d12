-- ===== src/Fd/Closure/Derives.antt =====
-- What the closure is to be: the attributes that Armstrong's axioms derive.
use pgdesign.Base.{Text, List, elem, In, ◌≡◌, true}
use pgdesign.Fd.{FuncDep}

-- `a` is one of `xs`, or the right side of a dependency whose left side is derived.
pub data Determines (fds : List FuncDep) (xs : List Text) : Text → Type 0 where
  given : {a : Text} → elem a xs ≡ true → Determines fds xs a
  by_fd :
      (fd : FuncDep) {a : Text}
      → In fd fds
      → ((b : Text) → elem b fd.determinant ≡ true → Determines fds xs b)
      → elem a fd.dependent ≡ true
      → Determines fds xs a

-- Transitivity: what follows from derived attributes is derived.
pub Determines-trans :
    {fds : List FuncDep} {xs ys : List Text} {a : Text}
    → ((b : Text) → elem b ys ≡ true → Determines fds xs b)
    → Determines fds ys a
    → Determines fds xs a
Determines-trans h (given {a} e) = h a e
Determines-trans h (by_fd fd m d e) = by_fd fd m (λ b q. Determines-trans h (d b q)) e

-- Dependencies that each follow from `gds` derive nothing that `gds` do not.
pub Determines-of_implied :
    {fds gds : List FuncDep} {xs : List Text} {a : Text}
    → ((fd : FuncDep)
        → In fd fds
        → (b : Text) → elem b fd.dependent ≡ true
        → Determines gds fd.determinant b)
    → Determines fds xs a
    → Determines gds xs a
Determines-of_implied h (given e) = given e
Determines-of_implied h (by_fd fd {a} m d e) =
    Determines-trans (λ b q. Determines-of_implied h (d b q)) (h fd m a e)
