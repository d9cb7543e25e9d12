-- ===== src/Fd/Cover/Reduced.antt =====
-- Steps 1 and 2 of `MinimalCover` keep what the dependencies determine.
use pgdesign.Base.{
  ℕ, zero, suc, ◌+◌, Text, List, [], ◌∷◌, ◌++◌, true, sort_texts, In, All, elem, ◌≡◌, refl, inl,
  inr, arith, Bool-cases, text_eq, text_eq_iff, elem-sort_texts, append_assoc, append-nil, sym,
  In-append_cases, In-append_left, In-append_right, length, ltb, leb, subst,
}
use pgdesign.Fd.{FuncDep}
use pgdesign.Fd.Sets.{contains, elem_of_contains, elem_head, elem_tail}
use pgdesign.Fd.Closure.{closure}
use pgdesign.Fd.Closure.Derives.{Determines, given, by_fd}
use pgdesign.Fd.Closure.Fixpoint.{closure_correct}
use pgdesign.Fd.Cover.{split_rhs, decompose, first, remove_at, reduce_lhs, reduce_one, reduce_all}
use pgdesign.Fd.Cover.Implied.{Follows, Equivalent, Implies-swap, Equivalent-refl, Equivalent-trans}

-- One attribute on the right.
abbrev pub IsSingle : FuncDep → Type 0
IsSingle fd = (d : Text) × (fd.dependent ≡ d ∷ [])

elem_single : (b d : Text) → elem b (d ∷ []) ≡ true → b ≡ d
unfolding elem
elem_single b d h = ground (arith, text_eq_iff b d)

abbrev one : List Text → Text → FuncDep
one det a = record { determinant = sort_texts det; dependent = a ∷ []; source = [] }

In-split_rhs :
    (gd : FuncDep) (det dep : List Text)
    → In gd (split_rhs det dep)
    → (a : Text) × (gd ≡ one det a) × (elem a dep ≡ true)
unfolding split_rhs
In-split_rhs gd det [] m = elim m [ ]
In-split_rhs gd det (a ∷ rest) (inl e) = (a, e, elem_head a rest)
In-split_rhs gd det (a ∷ rest) (inr m) =
    let (b, e, h) = In-split_rhs gd det rest m in (b, e, elem_tail b a rest h)

split_rhs-In :
    (det dep : List Text) (a : Text) → elem a dep ≡ true → In (one det a) (split_rhs det dep)
unfolding split_rhs elem
split_rhs-In det [] a h = cc
split_rhs-In det (b ∷ rest) a h = elim (Bool-cases (text_eq a b)) [
  | inl e ↦ inl (rw ((text_eq_iff a b).0 e))
  | inr e ↦ inr (split_rhs-In det rest a (ground arith))
]

In-decompose :
    (gd : FuncDep) (fds : List FuncDep)
    → In gd (decompose fds)
    → (fd : FuncDep) × In fd fds × In gd (split_rhs fd.determinant fd.dependent)
unfolding decompose
In-decompose gd [] m = elim m [ ]
In-decompose gd (fd ∷ fds) m =
    elim (In-append_cases gd (split_rhs fd.determinant fd.dependent) (decompose fds) m) [
      | inl l ↦ (fd, inl refl, l)
      | inr r ↦ let (x, i, n) = In-decompose gd fds r in (x, inr i, n)
    ]

decompose-In :
    (gd fd : FuncDep) (fds : List FuncDep)
    → In fd fds
    → In gd (split_rhs fd.determinant fd.dependent)
    → In gd (decompose fds)
unfolding decompose
decompose-In gd fd [] i m = elim i [ ]
decompose-In gd fd (x ∷ fds) (inl e) m =
    In-append_left gd (split_rhs x.determinant x.dependent) (decompose fds)
      (subst (λ (y : FuncDep). In gd (split_rhs y.determinant y.dependent)) e m)
decompose-In gd fd (x ∷ fds) (inr i) m =
    In-append_right gd (split_rhs x.determinant x.dependent) (decompose fds)
      (decompose-In gd fd fds i m)

one-Follows :
    (fds : List FuncDep) (fd : FuncDep) (a : Text)
    → In fd fds
    → elem a fd.dependent ≡ true
    → Follows fds (one fd.determinant a)
one-Follows fds fd a i h b e =
    rw (elem_single b a e) (by_fd fd i (λ c q. given (rw elem-sort_texts q)) h)

-- Splitting the right sides changes nothing that is determined.
pub decompose-Equivalent : (fds : List FuncDep) → Equivalent fds (decompose fds)
decompose-Equivalent fds = (
  λ gd m.
      let (fd, i, n) = In-decompose gd fds m in
      let (a, e, h) = In-split_rhs gd fd.determinant fd.dependent n in
      subst (Follows fds) (sym e) (one-Follows fds fd a i h),
  λ fd m b e.
      by_fd (one fd.determinant b)
        (decompose-In (one fd.determinant b) fd fds m
          (split_rhs-In fd.determinant fd.dependent b e))
        (λ c q. given (rw elem-sort_texts at q)) (elem_head b []),
)

split_rhs-IsSingle : (det dep : List Text) → All IsSingle (split_rhs det dep)
unfolding split_rhs
split_rhs-IsSingle det [] = tt
split_rhs-IsSingle det (a ∷ rest) = ((a, refl), split_rhs-IsSingle det rest)

All-IsSingle-append :
    (xs ys : List FuncDep) → All IsSingle xs → All IsSingle ys → All IsSingle (xs ++ ys)
All-IsSingle-append [] ys h k = k
All-IsSingle-append (x ∷ xs) ys h k = (h.0, All-IsSingle-append xs ys h.1 k)

decompose-IsSingle : (fds : List FuncDep) → All IsSingle (decompose fds)
unfolding decompose
decompose-IsSingle [] = tt
decompose-IsSingle (fd ∷ fds) =
    All-IsSingle-append (split_rhs fd.determinant fd.dependent) (decompose fds)
      (split_rhs-IsSingle fd.determinant fd.dependent) (decompose-IsSingle fds)

elem-remove_at :
    (j : ℕ) (xs : List Text) (b : Text) → elem b (remove_at j xs) ≡ true → elem b xs ≡ true
unfolding remove_at elem
elem-remove_at j [] b h = h
elem-remove_at zero (x ∷ xs) b h = ground arith
elem-remove_at (suc j) (x ∷ xs) b h = ground (arith, elem-remove_at j xs b)

abbrev shorter : ℕ → FuncDep → FuncDep
shorter j fd = record fd { determinant = remove_at j fd.determinant }

-- A left side may lose an attribute when the rest of it still determines the right side.
shorter-Equivalent :
    (before after : List FuncDep) (fd : FuncDep) (j : ℕ)
    → IsSingle fd
    → contains (closure (remove_at j fd.determinant) (before ++ (fd ∷ after))) (first fd.dependent)
      ≡ true
    → Equivalent (before ++ (fd ∷ after)) (before ++ (shorter j fd ∷ after))
unfolding first
shorter-Equivalent before after fd j (d, s) c =
    let l = before ++ (fd ∷ after) in
    let r = remove_at j fd.determinant in
    let c' = subst (λ x. contains (closure r l) (first x) ≡ true) s c in
    let det : Determines l r d = (closure_correct r l d).0 (elem_of_contains (closure r l) d c') in
    (
      Implies-swap before after (shorter j fd) fd
          (λ b e. let same = elem_single b d (subst (λ x. elem b x ≡ true) s e) in rw same det),
      Implies-swap before after fd (shorter j fd) (λ b e.
          by_fd (shorter j fd)
            (In-append_right (shorter j fd) before (shorter j fd ∷ after) (inl refl))
            (λ x q. given (elem-remove_at j fd.determinant x q)) e),
    )

abbrev Reduces : List FuncDep → List FuncDep → FuncDep → FuncDep → Type 0
Reduces before after fd gd =
    IsSingle gd × Equivalent (before ++ (fd ∷ after)) (before ++ (gd ∷ after))

reduce_lhs_lem :
    (f : ℕ) (before : List FuncDep) (fd : FuncDep) (after : List FuncDep) (j : ℕ)
    → IsSingle fd
    → Reduces before after fd (reduce_lhs f before fd after j)
unfolding reduce_lhs
reduce_lhs_lem zero before fd after j s = (s, Equivalent-refl (before ++ (fd ∷ after)))
reduce_lhs_lem (suc f) before fd after j s = elim (Bool-cases (ltb j (length fd.determinant))) [
  | inl lt ↦
      elim (Bool-cases (
        contains (closure (remove_at j fd.determinant) (before ++ (fd ∷ after)))
          (first fd.dependent))) [
            | inl c ↦
                let rec = reduce_lhs_lem f before (shorter j fd) after j s in
                rw (lt, c)
                  (
                    rec.0,
                    Equivalent-trans (before ++ (fd ∷ after)) (before ++ (shorter j fd ∷ after))
                        (before ++ (reduce_lhs f before (shorter j fd) after j ∷ after))
                        (shorter-Equivalent before after fd j s c) rec.1,
                  )
            | inr c ↦ rw (lt, c) (reduce_lhs_lem f before fd after (j + 1) s)
          ]
  | inr ge ↦ rw ge (s, Equivalent-refl (before ++ (fd ∷ after)))
]

reduce_one_lem :
    (before : List FuncDep) (fd : FuncDep) (after : List FuncDep)
    → IsSingle fd
    → Reduces before after fd (reduce_one before fd after)
unfolding reduce_one
reduce_one_lem before fd after s = elim (Bool-cases (leb (length fd.determinant) 1)) [
  | inl e ↦ rw e (s, Equivalent-refl (before ++ (fd ∷ after)))
  | inr e ↦ rw e (reduce_lhs_lem (length fd.determinant) before fd after 0 s)
]

reduce_all_lem :
    (before after : List FuncDep)
    → All IsSingle before
    → All IsSingle after
    → All IsSingle (reduce_all before after)
      × Equivalent (before ++ after) (reduce_all before after)
unfolding reduce_all
reduce_all_lem before [] b a = (b, rw append-nil (Equivalent-refl before))
reduce_all_lem before (fd ∷ after) b a =
    let gd = reduce_one before fd after in
    let one_step = reduce_one_lem before fd after a.0 in
    let rec =
      reduce_all_lem (before ++ (gd ∷ [])) after
        (All-IsSingle-append before (gd ∷ []) b (one_step.0, tt)) a.1 in
    let same : (before ++ (gd ∷ [])) ++ after ≡ before ++ (gd ∷ after) =
      append_assoc before (gd ∷ []) after in
    (
      rec.0,
      Equivalent-trans (before ++ (fd ∷ after)) (before ++ (gd ∷ after))
          (reduce_all (before ++ (gd ∷ [])) after) one_step.1
          (subst (λ l. Equivalent l (reduce_all (before ++ (gd ∷ [])) after)) same rec.1),
    )

abbrev pub reduced : List FuncDep → List FuncDep
reduced fds = reduce_all [] (decompose fds)

pub reduced-IsSingle : (fds : List FuncDep) → All IsSingle (reduced fds)
reduced-IsSingle fds = (reduce_all_lem [] (decompose fds) tt (decompose-IsSingle fds)).0

-- Splitting the right sides and removing extraneous attributes on the left changes nothing that
-- the dependencies determine.
pub reduced-Equivalent : (fds : List FuncDep) → Equivalent fds (reduced fds)
reduced-Equivalent fds =
    Equivalent-trans fds (decompose fds) (reduced fds) (decompose-Equivalent fds)
      (reduce_all_lem [] (decompose fds) tt (decompose-IsSingle fds)).1
