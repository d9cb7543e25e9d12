-- ===== src/PathFinder/Paths/Once.antt =====
-- internal/migrate/path_finder.go, allForwardPaths: no path is listed twice.
use pgdesign.Base.{
  ℕ, zero, suc, ◌+◌, ◌≤◌, Text, List, [], ◌∷◌, ◌++◌, map, Bool, true, false, some, In, inl, inr,
  ◌≡◌, ◌≢◌, refl, arith, Bool-cases, length, get_elem?, get_or, set, text_eq, not, ◌||◌, ◌&&◌,
  In-append_cases, subst, sym, ◌∙◌, ap,
}
use pgdesign.PathFinder.{
  CanonEdge, MigrationEdge, to_canon_edges, try_edges, is_nonempty, arrived, dfs, all_forward_paths,
}
use pgdesign.PathFinder.Paths.{Extends, In-dfs, In-try_edges, In-arrived}

-- No item is in the list twice.
abbrev pub IsDistinct : {A : Type 0} → List A → Type 0
IsDistinct [] = Unit
IsDistinct (x ∷ xs) = ¬ In x xs × IsDistinct xs

append-IsDistinct :
    {A : Type 0} (xs ys : List A)
    → IsDistinct xs
    → IsDistinct ys
    → ((x : A) → In x xs → ¬ In x ys)
    → IsDistinct (xs ++ ys)
append-IsDistinct [] ys d e apart = e
append-IsDistinct (x ∷ xs) ys (n, d) e apart = (
  λ m. elim (In-append_cases x xs ys m) [ inl h ↦ n h | inr h ↦ apart x (inl refl) h ],
  append-IsDistinct xs ys d e (λ y m. apart y (inr m)),
)

same_tail : (cur p q : List CanonEdge) → cur ++ p ≡ cur ++ q → p ≡ q
same_tail [] p q e = e
same_tail (c ∷ cur) p q e = same_tail cur p q cc

append_one :
    (cur : List CanonEdge) (e : CanonEdge) (p : List CanonEdge)
    → (cur ++ (e ∷ [])) ++ p ≡ cur ++ (e ∷ p)
append_one [] e p = refl
append_one (c ∷ cur) e p = ap (λ l. c ∷ l) (append_one cur e p)

longer : (cur : List CanonEdge) (e : CanonEdge) (p : List CanonEdge) → cur ≢ cur ++ (e ∷ p)
longer [] e p h = cc
longer (c ∷ cur) e p h = longer cur e p cc

get-In : (es : List CanonEdge) (k : ℕ) (e : CanonEdge) → get_elem? es k ≡ some e → In e es
get-In [] k e g = cc
get-In (x ∷ es) zero e g = let same : e ≡ x = cc in inl same
get-In (x ∷ es) (suc k) e g = inr (get-In es k e g)

arrived-IsDistinct : (target f : Text) (cur : List CanonEdge) → IsDistinct (arrived target f cur)
unfolding arrived
arrived-IsDistinct target f cur = elim (Bool-cases (text_eq f target && is_nonempty cur)) [
  | inl y ↦ rw y ((λ m. elim m [ ]), tt)
  | inr n ↦ rw n tt
]

module _ (target : Text) (edges : List CanonEdge) where
  -- What the search finds beyond an edge starts with that edge.
  beyond :
      (fuel : ℕ) (used : List Bool) (cur : List CanonEdge) (e : CanonEdge) (f : Text)
      (r : List CanonEdge)
      → In r (dfs fuel target edges used (cur ++ (e ∷ [])) f)
      → (p : List CanonEdge) × (r ≡ cur ++ (e ∷ p))
  unfolding Extends
  beyond fuel used cur e f r m =
      let (p, is, n, w) = In-dfs target edges fuel used (cur ++ (e ∷ [])) f r m in
      (p, is ∙ append_one cur e p)

  try_edges-IsDistinct :
      (fuel : ℕ)
      → ((used : List Bool) (cur : List CanonEdge) (f : Text)
          → IsDistinct (dfs fuel target edges used cur f))
      → (used : List Bool) (cur : List CanonEdge) (f : Text) (i : ℕ) (es : List CanonEdge)
      → IsDistinct es
      → IsDistinct (try_edges (dfs fuel target edges) used cur f i es)
  unfolding try_edges
  try_edges-IsDistinct fuel ih used cur f i [] d = tt
  try_edges-IsDistinct fuel ih used cur f i (e ∷ es) (n, d) =
      let rest = try_edges-IsDistinct fuel ih used cur f (suc i) es d in
      elim (Bool-cases (get_or used i true || not (text_eq e.parent f))) [
        | inl off ↦ rw off rest
        | inr on ↦ rw on (
            append-IsDistinct (dfs fuel target edges (set used i true) (cur ++ (e ∷ [])) e.target)
              (try_edges (dfs fuel target edges) used cur f (suc i) es)
              (ih (set used i true) (cur ++ (e ∷ [])) e.target) rest
              (λ r here there.
                let (p, is) = beyond fuel (set used i true) cur e e.target r here in
                let (k, c, g, u, par, m) =
                  In-try_edges (dfs fuel target edges) used cur f r (suc i) es there in
                let (q, at) = beyond fuel (set used (suc i + k) true) cur c c.target r m in
                let tails : e ∷ p ≡ c ∷ q = same_tail cur (e ∷ p) (c ∷ q) (sym is ∙ at) in
                let same : c ≡ e = cc in n (subst (λ x. In x es) same (get-In es k c g))))
      ]

  dfs-IsDistinct :
      IsDistinct edges
      → (fuel : ℕ) (used : List Bool) (cur : List CanonEdge) (f : Text)
      → IsDistinct (dfs fuel target edges used cur f)
  unfolding dfs
  dfs-IsDistinct d zero used cur f = arrived-IsDistinct target f cur
  dfs-IsDistinct d (suc fuel) used cur f =
      append-IsDistinct (arrived target f cur)
        (try_edges (dfs fuel target edges) used cur f 0 edges) (arrived-IsDistinct target f cur)
        (try_edges-IsDistinct fuel (dfs-IsDistinct d fuel) used cur f 0 edges d)
        (λ r here there.
          let (at, n, is) = In-arrived r target f cur here in
          let (k, c, g, u, par, m) =
            In-try_edges (dfs fuel target edges) used cur f r 0 edges there in
          let (q, more) = beyond fuel (set used (0 + k) true) cur c c.target r m in
          longer cur c q (sym is ∙ more))

-- allForwardPaths lists no path twice when no edge is listed twice.
pub all_forward_paths-IsDistinct :
    (start target : Text) (edges : List CanonEdge)
    → IsDistinct edges
    → IsDistinct (all_forward_paths start target edges)
unfolding all_forward_paths
all_forward_paths-IsDistinct start target edges d =
    dfs-IsDistinct target edges d (length edges) (map (λ (e : CanonEdge). false) edges) [] start

module _ {Op : Type 0} (edge_id : MigrationEdge Op → Text) where
  to_canon_edges-idx :
      (i : ℕ) (es : List (MigrationEdge Op)) (c : CanonEdge)
      → In c (to_canon_edges edge_id [] i es)
      → i ≤ c.idx
  unfolding to_canon_edges
  to_canon_edges-idx i [] c m = elim m [ ]
  to_canon_edges-idx i (e ∷ es) c (inl same) =
      let at : c.idx ≡ i = ap (λ (x : CanonEdge). x.idx) same in omega (arith, at)
  to_canon_edges-idx i (e ∷ es) c (inr m) =
      let later = to_canon_edges-idx (suc i) es c m in omega (arith, later)

  -- The edges differ in their positions.
  pub to_canon_edges-IsDistinct :
      (i : ℕ) (es : List (MigrationEdge Op)) → IsDistinct (to_canon_edges edge_id [] i es)
  unfolding to_canon_edges
  to_canon_edges-IsDistinct i [] = tt
  to_canon_edges-IsDistinct i (e ∷ es) = (
    λ m. let later = to_canon_edges-idx (suc i) es _ m in omega (arith, later),
    to_canon_edges-IsDistinct (suc i) es,
  )
