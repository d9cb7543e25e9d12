-- ===== src/Squash/Range.antt =====
-- internal/migrate/squash_chain.go, findLiveConsolidationPath: the one path of a range.
use pgdesign.Base.{
  ◌≤◌, Text, List, [], ◌∷◌, In, inl, inr, ◌≡◌, ◌↔◌, refl, arith, Bool-cases, length, subst, sym, ap,
  text_eq, text_eq_iff, Result, ok, err, ltb,
}
use pgdesign.Rev.{Revision, revision_string}
use pgdesign.PathFinder.{
  MigrationEdge, CanonEdge, rev_string, to_canon_edges, all_forward_paths, edges_at, canon,
  canon_loop, remapped,
}
use pgdesign.PathFinder.Paths.Trails.{all_forward_paths_correct}
use pgdesign.PathFinder.Paths.Once.{
  IsDistinct, all_forward_paths-IsDistinct, to_canon_edges-IsDistinct,
}
use pgdesign.PathFinder.Found.{IsPath}
use pgdesign.PathFinder.Found.Applied.{Applies, Trail-Applies}
use pgdesign.Squash.{
  PathRefusal, same_revision, no_live_path, ambiguous_range, single_edge, only_path, live_edges_of,
  find_live_consolidation_path,
}

pub canon_none : (s : Text) → canon s [] ≡ s
unfolding canon canon_loop remapped
canon_none s = refl

module _ (from to : Text) (edges : List CanonEdge) where
  -- A path that is the only one.
  abbrev pub IsOnlyPath : List CanonEdge → Type 0
  IsOnlyPath p = IsPath edges from to p × ((q : List CanonEdge) → IsPath edges from to q → q ≡ p)

  -- What an answer about the range says of its paths.
  unfoldable pub Judged : Result PathRefusal (List CanonEdge) → Type 0
  Judged (ok p) = IsOnlyPath p × (2 ≤ length p)
  Judged (err (no_live_path f t)) = (q : List CanonEdge) → ¬ IsPath edges from to q
  Judged (err (single_edge f t)) = (p : List CanonEdge) × IsOnlyPath p × (length p ≤ 1)
  Judged (err (ambiguous_range f t n)) =
      (paths : List (List CanonEdge)) × IsDistinct paths
      × ((p : List CanonEdge) → In p paths ↔ IsPath edges from to p)
      × (length paths ≡ n)
      × (2 ≤ n)
  Judged (err (same_revision t)) = ⊥

  only_path-Judged :
      IsDistinct edges
      → (paths : List (List CanonEdge)) → paths ≡ all_forward_paths from to edges
      → Judged (only_path from to paths)
  unfolding Judged only_path
  only_path-Judged d [] e = λ q path.
      let found = (all_forward_paths_correct from to edges q).1 path in
      elim (rw (sym e) at found) [ ]
  only_path-Judged d (p ∷ []) e =
      let is : IsPath edges from to p =
        (all_forward_paths_correct from to edges p).0 (subst (In p) e (inl refl)) in
      let only : (q : List CanonEdge) → IsPath edges from to q → q ≡ p = λ q path.
        elim (subst (In q) (sym e) ((all_forward_paths_correct from to edges q).1 path)) [
          | inl same ↦ same
          | inr nowhere ↦ elim nowhere [ ]
        ] in
      elim (Bool-cases (ltb (length p) 2)) [
        | inl short ↦ rw short (p, (is, only), ground arith)
        | inr long ↦ rw long ((is, only), ground arith)
      ]
  only_path-Judged d (p ∷ q ∷ ps) e = (
    all_forward_paths from to edges,
    all_forward_paths-IsDistinct from to edges d,
    all_forward_paths_correct from to edges,
    sym (ap length e),
    omega arith,
  )

module _ {Op : Type 0} (edge_id : MigrationEdge Op → Text) (live : List (MigrationEdge Op)) where
  -- What an answer about a range of live edges says.
  unfoldable pub Answered :
      Revision → Revision → Result PathRefusal (List (MigrationEdge Op)) → Type 0
  Answered from_rev to_rev (ok es) =
      (p : List CanonEdge) × IsOnlyPath (rev_string from_rev) (revision_string to_rev)
        (to_canon_edges edge_id [] 0 live) p
      × (2 ≤ length es)
      × (es ≡ edges_at live p)
      × Applies [] live (rev_string from_rev) (revision_string to_rev) es
  Answered from_rev to_rev (err (same_revision t)) = rev_string from_rev ≡ revision_string to_rev
  Answered from_rev to_rev (err x) =
      Judged (rev_string from_rev) (revision_string to_rev) (to_canon_edges edge_id [] 0 live)
        (err x)

  Judged-answer :
      (from_rev to_rev : Revision) (r : Result PathRefusal (List CanonEdge))
      → Judged (rev_string from_rev) (revision_string to_rev) (to_canon_edges edge_id [] 0 live) r
      → Answered from_rev to_rev (live_edges_of live r)
  unfolding Answered Judged live_edges_of
  Judged-answer from_rev to_rev (ok p) (only, two) =
      let (walk, len) =
        Trail-Applies edge_id [] live (revision_string to_rev) [] (rev_string from_rev) p
          only.0.1 in
      (p, only, rw len two, refl, walk)
  Judged-answer from_rev to_rev (err (same_revision t)) j = elim j [ ]
  Judged-answer from_rev to_rev (err (no_live_path f t)) j = j
  Judged-answer from_rev to_rev (err (single_edge f t)) j = j
  Judged-answer from_rev to_rev (err (ambiguous_range f t n)) j = j

  -- findLiveConsolidationPath, for all live edges and endpoints. Its edges are live, can be applied
  -- one after the other from one endpoint to the other, are at least two, and are the only path that
  -- uses no edge twice; it refuses equal endpoints only when they are, a range without a path only
  -- when there is none, a single edge only when the one path has one edge, and an ambiguous range
  -- only with the number of its paths that use no edge twice, different ones counted, which is at
  -- least two.
  pub find_live_consolidation_path_correct :
      (from_rev to_rev : Revision)
      → Answered from_rev to_rev (find_live_consolidation_path edge_id live from_rev to_rev)
  unfolding find_live_consolidation_path Answered
  find_live_consolidation_path_correct from_rev to_rev =
      let from = rev_string from_rev in
      let to = revision_string to_rev in
      elim (Bool-cases (text_eq from to)) [
        | inl e ↦ rw e ((text_eq_iff from to).0 e)
        | inr n ↦
            let edges = to_canon_edges edge_id [] 0 live in
            rw n (
              Judged-answer from_rev to_rev (only_path from to (all_forward_paths from to edges)) (
                only_path-Judged from to edges (to_canon_edges-IsDistinct edge_id 0 live)
                  (all_forward_paths from to edges) refl))
      ]
