-- ===== src/PathFinder/Paths.antt =====
-- internal/migrate/path_finder.go, allForwardPaths: the search finds every path over unmarked edges.
pub mod Trails
pub mod Routes
pub mod Once
use pgdesign.Base.{
  ℕ, zero, suc, ◌+◌, ◌≤◌, ◌<◌, Text, List, [], ◌∷◌, ◌++◌, map, Bool, true, false, not, ◌&&◌, ◌||◌,
  some, none, In, inl, inr, ◌⊎◌, ◌↔◌, ◌≡◌, ◌≢◌, refl, arith, Bool-cases, length, get_elem?, get_or,
  set, text_eq, text_eq_iff, In-append_left, In-append_right, In-append_cases, if◌then◌else◌, subst,
  sym, ◌∙◌, ap,
}
use pgdesign.PathFinder.{CanonEdge, try_edges, is_nonempty, arrived, dfs, all_forward_paths}

-- A path from `f` to the target whose edges are not marked, each marked once it is taken.
abbrev pub Walk : List CanonEdge → Text → List Bool → Text → List CanonEdge → Type 0
Walk edges target used f [] = f ≡ target
Walk edges target used f (e ∷ p) =
    (i : ℕ) × (get_elem? edges i ≡ some e)
    × (get_or used i true ≡ false)
    × (e.parent ≡ f)
    × Walk edges target (set used i true) e.target p

pub In-arrived :
    (r : List CanonEdge) (target f : Text) (cur : List CanonEdge)
    → In r (arrived target f cur)
    → (f ≡ target) × (is_nonempty cur ≡ true) × (r ≡ cur)
unfolding arrived
In-arrived r target f cur h = elim (Bool-cases (text_eq f target && is_nonempty cur)) [
  | inl c ↦ (
    (text_eq_iff f target).0 (ground arith),
    ground arith,
    elim (rw c at h) [ inl e ↦ e | inr n ↦ elim n [ ] ],
  )
  | inr c ↦ elim (rw c at h) [ ]
]

arrived-In : (f : Text) (cur : List CanonEdge) → is_nonempty cur ≡ true → In cur (arrived f f cur)
unfolding arrived
arrived-In f cur h = rw ((text_eq_iff f f).1 refl, h) (inl refl)

some_inj : {a b : CanonEdge} → some a ≡ some b → a ≡ b
some_inj e = cc

-- One of the edges that the loop enters.
abbrev pub Entered :
    (List Bool → List CanonEdge → Text → List (List CanonEdge))
    → List Bool
    → List CanonEdge
    → Text
    → ℕ
    → List CanonEdge
    → List CanonEdge
    → Type 0
Entered enter used cur f i es r =
    (k : ℕ) × (e : CanonEdge) × (get_elem? es k ≡ some e)
    × (get_or used (i + k) true ≡ false)
    × (e.parent ≡ f)
    × In r (enter (set used (i + k) true) (cur ++ (e ∷ [])) e.target)

module _ (enter : List Bool → List CanonEdge → Text → List (List CanonEdge)) (used : List Bool)
    (cur : List CanonEdge) (f : Text) where
  try_edges_on :
      (i : ℕ) (e : CanonEdge) (es : List CanonEdge)
      → (get_or used i true || not (text_eq e.parent f)) ≡ false
      → try_edges enter used cur f i (e ∷ es)
        ≡ enter (set used i true) (cur ++ (e ∷ [])) e.target
          ++ try_edges enter used cur f (suc i) es
  unfolding try_edges
  try_edges_on i e es h = rw h refl

  try_edges_off :
      (i : ℕ) (e : CanonEdge) (es : List CanonEdge)
      → (get_or used i true || not (text_eq e.parent f)) ≡ true
      → try_edges enter used cur f i (e ∷ es) ≡ try_edges enter used cur f (suc i) es
  unfolding try_edges
  try_edges_off i e es h = rw h refl

  later :
      (r : List CanonEdge) (i : ℕ) (e : CanonEdge) (es : List CanonEdge)
      → Entered enter used cur f (suc i) es r
      → Entered enter used cur f i (e ∷ es) r
  later r i e es (k, d, g, u, p, m) =
      let shift : suc i + k ≡ i + suc k = omega arith in
      (
        suc k,
        d,
        g,
        subst (λ n. get_or used n true ≡ false) shift u,
        p,
        subst (λ n. In r (enter (set used n true) (cur ++ (d ∷ [])) d.target)) shift m,
      )

  pub In-try_edges :
      (r : List CanonEdge) (i : ℕ) (es : List CanonEdge)
      → In r (try_edges enter used cur f i es)
      → Entered enter used cur f i es r
  unfolding try_edges
  In-try_edges r i [] h = elim h [ ]
  In-try_edges r i (e ∷ es) h = elim (Bool-cases (get_or used i true || not (text_eq e.parent f))) [
    | inl c ↦ later r i e es (In-try_edges r (suc i) es (subst (In r) (try_edges_off i e es c) h))
    | inr c ↦
        elim (In-append_cases r (enter (set used i true) (cur ++ (e ∷ [])) e.target)
          (try_edges enter used cur f (suc i) es) (subst (In r) (try_edges_on i e es c) h)) [
            | inl here ↦
                let same : i ≡ i + 0 = omega arith in
                (
                  0,
                  e,
                  refl,
                  subst (λ n. get_or used n true ≡ false) same (ground arith),
                  (text_eq_iff e.parent f).0 (ground arith),
                  subst (λ n. In r (enter (set used n true) (cur ++ (e ∷ [])) e.target)) same here,
                )
            | inr there ↦ later r i e es (In-try_edges r (suc i) es there)
          ]
  ]

  try_edges-In :
      (r : List CanonEdge) (i : ℕ) (es : List CanonEdge)
      → Entered enter used cur f i es r
      → In r (try_edges enter used cur f i es)
  unfolding try_edges
  try_edges-In r i [] (k, d, g, u, p, m) = cc
  try_edges-In r i (e ∷ es) (zero, d, g, u, p, m) =
      let same : i + 0 ≡ i = omega arith in
      let free : get_or used i true ≡ false = subst (λ n. get_or used n true ≡ false) same u in
      let is : e ≡ d = some_inj g in
      let on : (get_or used i true || not (text_eq e.parent f)) ≡ false =
        ground (arith, (text_eq_iff e.parent f).1 (rw is p)) in
      subst (In r) (sym (try_edges_on i e es on)) (
        In-append_left r (enter (set used i true) (cur ++ (e ∷ [])) e.target)
          (try_edges enter used cur f (suc i) es)
          (rw is (subst (λ n. In r (enter (set used n true) (cur ++ (d ∷ [])) d.target)) same m)))
  try_edges-In r i (e ∷ es) (suc k, d, g, u, p, m) =
      let shift : i + suc k ≡ suc i + k = omega arith in
      let rest : In r (try_edges enter used cur f (suc i) es) = try_edges-In r (suc i) es (
        k,
        d,
        g,
        subst (λ n. get_or used n true ≡ false) shift u,
        p,
        subst (λ n. In r (enter (set used n true) (cur ++ (d ∷ [])) d.target)) shift m,
      ) in
      elim (Bool-cases (get_or used i true || not (text_eq e.parent f))) [
        | inl c ↦ subst (In r) (sym (try_edges_off i e es c)) rest
        | inr c ↦ subst (In r) (sym (try_edges_on i e es c)) (
            In-append_right r (enter (set used i true) (cur ++ (e ∷ [])) e.target)
              (try_edges enter used cur f (suc i) es) rest)
      ]

append_cons :
    (cur : List CanonEdge) (e : CanonEdge) (p : List CanonEdge)
    → (cur ++ (e ∷ [])) ++ p ≡ cur ++ (e ∷ p)
append_cons [] e p = refl
append_cons (c ∷ cur) e p = ap (λ l. c ∷ l) (append_cons cur e p)

append_none : (cur : List CanonEdge) → cur ≡ cur ++ []
append_none [] = refl
append_none (c ∷ cur) = ap (λ l. c ∷ l) (append_none cur)

nonempty_middle :
    (cur : List CanonEdge) (e : CanonEdge) (p : List CanonEdge)
    → is_nonempty (cur ++ (e ∷ p)) ≡ true
nonempty_middle [] e p = refl
nonempty_middle (c ∷ cur) e p = refl

-- How many edges are not marked.
unfoldable pub free : List Bool → ℕ
free [] = 0
free (true ∷ bs) = free bs
free (false ∷ bs) = suc (free bs)

free-set :
    (used : List Bool) (i : ℕ)
    → get_or used i true ≡ false
    → suc (free (set used i true)) ≡ free used
unfolding free
free-set [] i h = cc
free-set (true ∷ bs) zero h = cc
free-set (false ∷ bs) zero h = refl
free-set (true ∷ bs) (suc i) h = free-set bs i h
free-set (false ∷ bs) (suc i) h = ap suc (free-set bs i h)

free_pos : (used : List Bool) (i : ℕ) → get_or used i true ≡ false → free used ≢ 0
free_pos used i h z = let one = free-set used i h in omega (arith, one, z)

module _ (target : Text) (edges : List CanonEdge) where
  -- What the search has to add to `cur` to have `r`.
  unfoldable pub Extends : List Bool → List CanonEdge → Text → List CanonEdge → Type 0
  Extends used cur f r =
      (p : List CanonEdge) × (r ≡ cur ++ p) × (is_nonempty r ≡ true) × Walk edges target used f p

  Extends-arrived :
      (used : List Bool) (cur : List CanonEdge) (f : Text) (r : List CanonEdge)
      → In r (arrived target f cur)
      → Extends used cur f r
  unfolding Extends
  Extends-arrived used cur f r h =
      let (e, n, s) = In-arrived r target f cur h in ([], s ∙ append_none cur, rw s n, e)

  pub In-dfs :
      (fuel : ℕ) (used : List Bool) (cur : List CanonEdge) (f : Text) (r : List CanonEdge)
      → In r (dfs fuel target edges used cur f)
      → Extends used cur f r
  unfolding dfs Extends
  In-dfs zero used cur f r h = Extends-arrived used cur f r h
  In-dfs (suc fuel) used cur f r h =
      let rest = try_edges (dfs fuel target edges) used cur f 0 edges in
      elim (In-append_cases r (arrived target f cur) rest h) [
        | inl a ↦ Extends-arrived used cur f r a
        | inr l ↦
            let (k, e, g, u, par, m) =
              In-try_edges (dfs fuel target edges) used cur f r 0 edges l in
            let i = 0 + k in
            let (p, s, n, w) = In-dfs fuel (set used i true) (cur ++ (e ∷ [])) e.target r m in
            let same : k ≡ i = omega arith in
            (
              e ∷ p,
              s ∙ append_cons cur e p,
              n,
              (i, subst (λ j. get_elem? edges j ≡ some e) same g, u, par, w),
            )
      ]

  arrived_last :
      (fuel : ℕ) (used : List Bool) (cur : List CanonEdge)
      → is_nonempty cur ≡ true
      → In cur (dfs fuel target edges used cur target)
  unfolding dfs
  arrived_last zero used cur n = arrived-In target cur n
  arrived_last (suc fuel) used cur n =
      In-append_left cur (arrived target target cur)
        (try_edges (dfs fuel target edges) used cur target 0 edges) (arrived-In target cur n)

  pub dfs-In :
      (fuel : ℕ) (used : List Bool) (cur p : List CanonEdge) (f : Text)
      → free used ≤ fuel
      → is_nonempty (cur ++ p) ≡ true
      → Walk edges target used f p
      → In (cur ++ p) (dfs fuel target edges used cur f)
  unfolding dfs
  dfs-In fuel used cur [] f b n w =
      subst (λ l. In l (dfs fuel target edges used cur f)) (append_none cur)
        (subst (λ g. In cur (dfs fuel target edges used cur g)) (sym w)
          (arrived_last fuel used cur (rw (append_none cur) n)))
  dfs-In zero used cur (e ∷ p) f b n (k, g, u, par, w) =
      elim (free_pos used k u (omega (arith, b))) [ ]
  dfs-In (suc fuel) used cur (e ∷ p) f b n (k, g, u, par, w) =
      let one = free-set used k u in
      let same = append_cons cur e p in
      let start : k ≡ 0 + k = omega arith in
      In-append_right (cur ++ (e ∷ p)) (arrived target f cur)
        (try_edges (dfs fuel target edges) used cur f 0 edges)
        (try_edges-In (dfs fuel target edges) used cur f (cur ++ (e ∷ p)) 0 edges (
          k,
          e,
          g,
          subst (λ j. get_or used j true ≡ false) start u,
          par,
          subst
              (λ j.
                In (cur ++ (e ∷ p))
                  (dfs fuel target edges (set used j true) (cur ++ (e ∷ [])) e.target))
              start
              (subst
                (λ l. In l (dfs fuel target edges (set used k true) (cur ++ (e ∷ [])) e.target))
                same
                (dfs-In fuel (set used k true) (cur ++ (e ∷ [])) p e.target (omega (arith, one, b))
                  (rw same n) w)),
        ))
