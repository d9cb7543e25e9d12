-- ===== src/PathFinder/Found/Applied.antt =====
-- internal/migrate/path_finder.go, the edges that FindPath returns for its chosen path.
use pgdesign.Base.{
  ℕ, zero, suc, ◌+◌, Text, List, [], ◌∷◌, true, some, In, inl, inr, ◌≡◌, refl, arith, length,
  get_elem?, subst, sym, ◌∙◌, ap, ok, elem,
}
use pgdesign.Rev.{revision_string}
use pgdesign.PathFinder.{
  MigrationEdge, RemapTable, CanonEdge, canon, rev_string, to_canon_edges, edges_at, find_path,
  find_live_heads,
}
use pgdesign.PathFinder.Paths.Trails.{Trail}
use pgdesign.PathFinder.Found.{find_path_correct, Verdict}

-- The edges can be applied one after the other from `f`, and end at the target, all revisions read
-- through the remap; each is an edge of the list.
abbrev pub Applies :
    {Op : Type 0}
    → RemapTable
    → List (MigrationEdge Op)
    → Text
    → Text
    → List (MigrationEdge Op)
    → Type 0
Applies remap all_edges f target [] = f ≡ target
Applies remap all_edges f target (e ∷ es) =
    In e all_edges
    × (canon (rev_string e.parent) remap ≡ f)
    × Applies remap all_edges (canon (revision_string e.target) remap) target es

module _ {Op : Type 0} (edge_id : MigrationEdge Op → Text) (remap : RemapTable) where
  -- The edge that a projected edge stands for.
  Stands : List (MigrationEdge Op) → CanonEdge → ℕ → ℕ → Type 0
  Stands es c k i =
      (e : MigrationEdge Op) × (get_elem? es i ≡ some e)
      × In e es
      × (c.idx ≡ k + i)
      × (c.parent ≡ canon (rev_string e.parent) remap)
      × (c.target ≡ canon (revision_string e.target) remap)

  stands :
      (k : ℕ) (es : List (MigrationEdge Op)) (i : ℕ) (c : CanonEdge)
      → get_elem? (to_canon_edges edge_id remap k es) i ≡ some c
      → Stands es c k i
  unfolding to_canon_edges Stands
  stands k [] i c g = cc
  stands k (e ∷ es) zero c g =
      let shift : k ≡ k + 0 = omega arith in (e, refl, inl refl, cc, cc, cc)
  stands k (e ∷ es) (suc i) c g =
      let (d, h, m, x, p, t) = stands (suc k) es i c g in (d, h, inr m, omega (arith, x), p, t)

  edges_at_next :
      (all_edges : List (MigrationEdge Op)) (c : CanonEdge) (p : List CanonEdge)
      (e : MigrationEdge Op)
      → get_elem? all_edges c.idx ≡ some e
      → edges_at all_edges (c ∷ p) ≡ e ∷ edges_at all_edges p
  unfolding edges_at
  edges_at_next all_edges c p e g = rw (g, edges_at) refl

  pub Trail-Applies :
      (all_edges : List (MigrationEdge Op)) (target : Text) (taken : List ℕ) (f : Text)
      (p : List CanonEdge)
      → Trail (to_canon_edges edge_id remap 0 all_edges) target taken f p
      → Applies remap all_edges f target (edges_at all_edges p)
        × (length (edges_at all_edges p) ≡ length p)
  unfolding Stands edges_at
  Trail-Applies all_edges target taken f [] t = (t, refl)
  Trail-Applies all_edges target taken f (c ∷ p) (i, g, n, par, t) =
      let (e, h, m, x, from, to) = stands 0 all_edges i c g in
      let at : c.idx ≡ i = omega (arith, x) in
      let next = edges_at_next all_edges c p e (rw at h) in
      let (rest, len) = Trail-Applies all_edges target (i ∷ taken) c.target p t in
      rw next (
        (
          m,
          sym from ∙ par,
          subst (λ s. Applies remap all_edges s target (edges_at all_edges p)) to rest,
        ),
        ap suc len,
      )

-- When FindPath succeeds, its edges are edges of the store that a database at the position can
-- apply one after the other, each where the one before ended, and the last leaves it at a live
-- head.
pub find_path-Applies :
    {Op : Type 0} (edge_id : MigrationEdge Op → Text) (pos : Text) (remap : RemapTable)
    (live_edges all_edges es : List (MigrationEdge Op)) (heads : List Text)
    → find_live_heads remap live_edges ≡ ok heads
    → find_path edge_id pos remap live_edges all_edges ≡ ok es
    → (target : Text) × (elem target heads ≡ true)
      × Applies remap all_edges (canon pos remap) target es
unfolding Verdict
find_path-Applies edge_id pos remap live_edges all_edges es heads h e =
    let edges = to_canon_edges edge_id remap 0 all_edges in
    let start = canon pos remap in
    let verdict =
      subst (Verdict edges start heads all_edges) e
        ((find_path_correct edge_id pos remap live_edges all_edges).0 heads h) in
    let (target, only, how) = verdict in
    (
      target,
      only.0.0,
      elim how [
        | inl (same, none_left) ↦ rw none_left same
        | inr (p, best, is) ↦
            rw is (Trail-Applies edge_id remap all_edges target [] start p best.0.1).0
      ],
    )
