-- ===== src/PathFinder/Found.antt =====
-- internal/migrate/path_finder.go, FindPath: what each of its results says.
pub mod Applied
use pgdesign.Base.{
  ℕ, zero, suc, ◌+◌, ◌≤◌, Text, List, [], ◌∷◌, ◌++◌, Bool, true, false, ◌||◌, some, none, In, inl,
  inr, ◌⊎◌, ◌↔◌, ◌≡◌, ◌≢◌, refl, arith, Bool-cases, List-cases, length, subst, sym, ◌∙◌, ap, elem,
  text_eq, text_eq_iff, Result, ok, err, elem-sort_texts, sort_texts, if◌then◌else◌,
}
use pgdesign.PathFinder.{
  MigrationEdge, RemapTable, CanonEdge, PathError, no_path, forked, bad_revision, is_nonempty,
  less_path, choose, all_forward_paths, reachable, heads_reached, edges_at, path_to, select_head,
  find_path, find_live_heads, to_canon_edges, canon,
}
use pgdesign.PathFinder.Choice.{choose_correct}
use pgdesign.PathFinder.Paths.Trails.{Trail, all_forward_paths_correct}
use pgdesign.PathFinder.Paths.Routes.{reachable-all_forward_paths}
use pgdesign.PathFinder.Reachable.Search.{Reach, reachable_correct}

module _ (edges : List CanonEdge) (start : Text) where
  -- The heads that the start leads to.
  abbrev pub IsReached : List Text → Text → Type 0
  IsReached heads h = (elem h heads ≡ true) × Reach edges start h

  -- The one head that the start leads to.
  abbrev pub IsOnlyHead : List Text → Text → Type 0
  IsOnlyHead heads target = IsReached heads target × ((h : Text) → IsReached heads h → h ≡ target)

  -- A path of at least one edge that uses none twice.
  abbrev pub IsPath : Text → List CanonEdge → Type 0
  IsPath target p = (is_nonempty p ≡ true) × Trail edges target [] start p

  -- A path such that no path is less.
  abbrev pub IsBestPath : Text → List CanonEdge → Type 0
  IsBestPath target p =
      IsPath target p × ((q : List CanonEdge) → IsPath target q → less_path q p ≡ false)

  reachable_if : (h : Text) → (text_eq start h || reachable start h edges) ≡ reachable start h edges
  reachable_if h = elim (Bool-cases (text_eq start h)) [
    | inl e ↦
        let same = (text_eq_iff start h).0 e in
        let yes_reach = (reachable_correct start h edges).1 ([], same) in ground arith
    | inr e ↦ ground arith
  ]

  elem-heads_reached :
      (heads : List Text) (h : Text)
      → (elem h (heads_reached start edges heads) ≡ true) ↔ IsReached heads h
  unfolding elem heads_reached
  elem-heads_reached [] h = (λ e. cc, λ (e, r). cc)
  elem-heads_reached (x ∷ heads) h =
      let rest = elem-heads_reached heads h in
      let at = reachable_correct start h edges in
      let same = text_eq_iff h x in
      let test = reachable_if x in
      (
        λ e. elim (Bool-cases (reachable start x edges)) [
          | inl r ↦ elim (Bool-cases (text_eq h x)) [
            | inl q ↦ (ground arith, at.0 (rw (same.0 q) r))
            | inr q ↦ let (m, way) = rest.0 (ground arith) in (ground arith, way)
          ]
          | inr r ↦ let (m, way) = rest.0 (ground arith) in (ground arith, way)
        ],
        λ (e, way). elim (Bool-cases (text_eq h x)) [
          | inl q ↦
              let r : reachable start x edges ≡ true = rw (sym (same.0 q)) (at.1 way) in
              ground arith
          | inr q ↦
              let m : elem h (heads_reached start edges heads) ≡ true =
                rest.1 (ground arith, way) in
              ground arith
        ],
      )

  module _ {Op : Type 0} (heads : List Text) (all_edges : List (MigrationEdge Op)) where
    -- What a result of FindPath says of the heads and the paths.
    unfoldable pub Verdict : Result PathError (List (MigrationEdge Op)) → Type 0
    Verdict (ok es) =
        (target : Text) × IsOnlyHead heads target
        × ((start ≡ target) × (es ≡ [])
            ⊎ (p : List CanonEdge) × IsBestPath target p × (es ≡ edges_at all_edges p))
    Verdict (err (no_path s)) = (s ≡ start) × ((h : Text) → ¬ IsReached heads h)
    Verdict (err (forked hs)) =
        (2 ≤ length hs) × ((h : Text) → (elem h hs ≡ true) ↔ IsReached heads h)
    Verdict (err (bad_revision t e)) = ⊥

    path-Verdict :
        (target : Text) → IsOnlyHead heads target → Verdict (path_to start target all_edges edges)
    unfolding Verdict path_to
    path-Verdict target only = elim (Bool-cases (text_eq start target)) [
      | inl e ↦ rw e (target, only, inl ((text_eq_iff start target).0 e, refl))
      | inr n ↦ elim (List-cases (all_forward_paths start target edges)) [
        | inl e ↦
            let apart : start ≢ target = λ s. cc ((text_eq_iff start target).1 s, n) in
            elim ((reachable-all_forward_paths start target edges apart).0
              ((reachable_correct start target edges).1 only.0.1) e) [ ]
        | inr (p, ps, e) ↦
            let best = choose_correct p ps in
            let paths = all_forward_paths_correct start target edges in
            let chosen = choose p ps in
            rw (n, e)
              (
                target,
                only,
                inr (
                  chosen,
                  ((paths chosen).0 (rw e best.0), λ q t. best.1 q (rw e at ((paths q).1 t))),
                  refl,
                ),
              )
      ]
    ]

    select-Verdict :
        (reached : List Text)
        → ((h : Text) → (elem h reached ≡ true) ↔ IsReached heads h)
        → Verdict (select_head start heads reached all_edges edges)
    unfolding Verdict select_head elem
    select-Verdict [] r = elim (Bool-cases (elem start heads)) [
      | inl e ↦ cc ((r start).1 (e, ([], refl)))
      | inr e ↦ rw e (refl, λ h i. cc ((r h).1 i))
    ]
    select-Verdict (target ∷ []) r = path-Verdict target (
      (r target).0 (ground (arith, text_eq_iff target target)),
      λ h i. let m = (r h).1 i in (text_eq_iff h target).0 (ground arith),
    )
    select-Verdict (h ∷ g ∷ hs) r = (omega arith, r)

-- FindPath, for every content id, position, remap and lists of edges. When the canonical revisions
-- of the live edges parse, with `heads` the live heads: a result names a path only when the start
-- leads to exactly one live head, and then the result is empty with the start at that head, or it
-- is a path that uses no edge twice and that no such path beats under lessPath; the start is
-- refused as off the chain only when it leads to no live head; and a fork is reported only with
-- the list of all reached heads, at least two entries long. When they do not parse, the parse
-- error is the result.
pub find_path_correct :
    {Op : Type 0} (edge_id : MigrationEdge Op → Text) (pos : Text) (remap : RemapTable)
    (live_edges all_edges : List (MigrationEdge Op))
    → ((heads : List Text)
        → find_live_heads remap live_edges ≡ ok heads
        → Verdict
            (to_canon_edges edge_id remap 0 all_edges)
            (canon pos remap)
            heads
            all_edges
            (find_path edge_id pos remap live_edges all_edges))
      × ((x : PathError)
          → find_live_heads remap live_edges ≡ err x
          → find_path edge_id pos remap live_edges all_edges ≡ err x)
unfolding find_path
find_path_correct edge_id pos remap live_edges all_edges =
    let edges = to_canon_edges edge_id remap 0 all_edges in
    let start = canon pos remap in
    (
      λ heads e.
          let reached = heads_reached start edges heads in
          rw (e, find_path)
            (select-Verdict edges start heads all_edges (sort_texts reached)
              (λ h. rw (elem-sort_texts h reached) (elem-heads_reached edges start heads h))),
      λ x e. rw (e, find_path) refl,
    )
