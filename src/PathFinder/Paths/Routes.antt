-- ===== src/PathFinder/Paths/Routes.antt =====
-- internal/migrate/path_finder.go: a target that `reachable` finds has a path in allForwardPaths.
use pgdesign.Base.{
  ℕ, zero, suc, Text, List, [], ◌∷◌, true, some, In, inl, inr, ◌⊎◌, ◌↔◌, ◌≡◌, ◌≢◌, refl, get_elem?,
  List-cases, subst, ap,
}
use pgdesign.PathFinder.{CanonEdge, is_nonempty, all_forward_paths, reachable}
use pgdesign.PathFinder.Paths.Trails.{Trail, nat_cases, all_forward_paths_correct}
use pgdesign.PathFinder.Reachable.Search.{Route, reachable_correct}

position :
    (e : CanonEdge) (edges : List CanonEdge) → In e edges → (i : ℕ) × (get_elem? edges i ≡ some e)
position e [] m = elim m [ ]
position e (x ∷ edges) (inl same) = (0, rw same refl)
position e (x ∷ edges) (inr m) = let (i, g) = position e edges m in (suc i, g)

at_position :
    (e : CanonEdge) (edges : List CanonEdge) (i : ℕ) → get_elem? edges i ≡ some e → In e edges
at_position e [] i g = cc
at_position e (x ∷ edges) zero g = inl cc
at_position e (x ∷ edges) (suc i) g = inr (at_position e edges i g)

module _ (edges : List CanonEdge) (target : Text) where
  -- Fewer positions taken leave a path what it was.
  Trail-mono :
      (taken taken' : List ℕ) (f : Text) (p : List CanonEdge)
      → ((i : ℕ) → In i taken' → In i taken)
      → Trail edges target taken f p
      → Trail edges target taken' f p
  Trail-mono taken taken' f [] w t = t
  Trail-mono taken taken' f (e ∷ p) w (i, g, n, par, t) = (
    i,
    g,
    λ m. n (w i m),
    par,
    Trail-mono (i ∷ taken) (i ∷ taken') e.target p
        (λ j m. elim m [ inl same ↦ inl same | inr old ↦ inr (w j old) ]) t,
  )

  -- A path either avoids the position of an edge, or its end from there on is a path of its own.
  avoid :
      (taken : List ℕ) (f : Text) (p : List CanonEdge) (i : ℕ) (e : CanonEdge)
      → get_elem? edges i ≡ some e
      → Trail edges target taken f p
      → ((q : List CanonEdge) × Trail edges target [] e.parent q)
        ⊎ Trail edges target (i ∷ taken) f p
  avoid taken f [] i e g t = inr t
  avoid taken f (d ∷ p) i e g (j, h, n, par, t) = elim (nat_cases j i) [
    | inl same ↦
        let is : d ≡ e = cc in
        inl (
          d ∷ p,
          (
            j,
            h,
            λ m. elim m [ ],
            ap (λ (x : CanonEdge). x.parent) is,
            Trail-mono (j ∷ taken) (j ∷ []) d.target p
                (λ k m. elim m [ inl s ↦ inl s | inr none_left ↦ elim none_left [ ] ]) t,
          ),
        )
    | inr other ↦ elim (avoid (j ∷ taken) d.target p i e g t) [
      | inl found ↦ inl found
      | inr t' ↦ inr (
        j,
        h,
        λ m. elim m [ inl s ↦ other s | inr m' ↦ n m' ],
        par,
        Trail-mono (i ∷ j ∷ taken) (j ∷ i ∷ taken) d.target p
            (λ k m. elim m [
              | inl s ↦ inr (inl s)
              | inr (inl s) ↦ inl s
              | inr (inr s) ↦ inr (inr s)
            ])
            t',
      )
    ]
  ]

  -- Loops can be cut out of a route.
  pub Route-Trail :
      (f : Text) (p : List CanonEdge)
      → Route edges target f p
      → (q : List CanonEdge) × Trail edges target [] f q
  Route-Trail f [] r = ([], r)
  Route-Trail f (e ∷ p) (m, par, r) =
      let (q, t) = Route-Trail e.target p r in
      let (i, g) = position e edges m in
      elim (avoid [] e.target q i e g t) [
        | inl (q', t') ↦ (q', subst (λ h. Trail edges target [] h q') par t')
        | inr t' ↦ (e ∷ q, (i, g, λ n. elim n [ ], par, t'))
      ]

  pub Trail-Route :
      (taken : List ℕ) (f : Text) (p : List CanonEdge)
      → Trail edges target taken f p
      → Route edges target f p
  Trail-Route taken f [] t = t
  Trail-Route taken f (e ∷ p) (i, g, n, par, t) =
      (at_position e edges i g, par, Trail-Route (i ∷ taken) e.target p t)

  Trail-nonempty :
      (f : Text) (p : List CanonEdge)
      → f ≢ target
      → Trail edges target [] f p
      → is_nonempty p ≡ true
  Trail-nonempty f [] n t = elim (n t) [ ]
  Trail-nonempty f (e ∷ p) n t = refl

-- For a target other than the start, allForwardPaths finds a path exactly when `reachable` says
-- that there is one: the check for an empty list of paths in FindPath never fires.
pub reachable-all_forward_paths :
    (start target : Text) (edges : List CanonEdge)
    → start ≢ target
    → (reachable start target edges ≡ true) ↔ (all_forward_paths start target edges ≢ [])
reachable-all_forward_paths start target edges n = (
  λ h e.
      let (p, r) = (reachable_correct start target edges).0 h in
      let (q, t) = Route-Trail edges target start p r in
      let some_path =
        (all_forward_paths_correct start target edges q).1
          (Trail-nonempty edges target start q n t, t) in
      elim (rw e at some_path) [ ],
  λ h. elim (List-cases (all_forward_paths start target edges)) [
    | inl e ↦ elim (h e) [ ]
    | inr (q, qs, e) ↦
        let found : In q (all_forward_paths start target edges) = rw e (inl refl) in
        let (_, t) = (all_forward_paths_correct start target edges q).0 found in
        (reachable_correct start target edges).1 (q, Trail-Route edges target [] start q t)
  ],
)
