-- ===== src/Squash/Consolidated.antt =====
-- internal/migrate/squash_chain.go, SquashChain: the edge that replaces a range.
use pgdesign.Base.{
  Text, List, [], ◌∷◌, ◌++◌, map, true, false, none, inl, inr, ◌≡◌, ◌≢◌, refl, Bool-cases,
  Option-cases, Result-cases, All, subst, sym, ◌∙◌, ap, text_eq, text_eq_iff, Result, ok,
}
use pgdesign.Rev.{Revision, is_zero, revision_string, hex_of, hex_encode}
use pgdesign.Chain.Edge.{compose_path}
use pgdesign.Chain.Edge.Compose.{IsWalk, stay, go, IsContiguous, all_ops, compose_path_correct}
use pgdesign.PathFinder.{MigrationEdge, rev_string, canon}
use pgdesign.PathFinder.Found.Applied.{Applies}
use pgdesign.Squash.{
  chain_edge, path_ops, check_classes, consolidation_edge, consolidate, squash_range, squash_edge,
  find_live_consolidation_path,
}
use pgdesign.Squash.Endpoint.{resolve_squash_endpoint}
use pgdesign.Squash.Range.{Answered, find_live_consolidation_path_correct, canon_none}
use pgdesign.Squash.Disjoint.{Apart, check_consolidation_disjoint_lem}

colon_nonempty : (class sum : Text) → class ++ (b':' ∷ sum) ≢ []
colon_nonempty [] sum e = cc
colon_nonempty (c ∷ class) sum e = cc

ok_inj : {E A : Type 0} {a b : A} {r : Result E A} → r ≡ ok a → r ≡ ok b → a ≡ b
ok_inj e f = cc

-- A revision whose text form, empty for the genesis, is that of a target.
meets :
    (parent target : Revision)
    → rev_string parent ≡ revision_string target
    → revision_string target ≡ revision_string parent
unfolding rev_string revision_string hex_of
meets parent target e = elim (Bool-cases (is_zero parent)) [
  | inl z ↦ elim (colon_nonempty target.class (hex_encode target.sum) (sym (rw z at e))) [ ]
  | inr n ↦ sym (rw n at e)
]

module _ {Op : Type 0} where
  IsWalk-of :
      (live : List (MigrationEdge Op)) (a to : Revision) (es : List (MigrationEdge Op))
      → Applies [] live (canon (revision_string a) []) (revision_string to) es
      → IsWalk a (map chain_edge es)
  unfolding chain_edge
  IsWalk-of live a to [] w = stay
  IsWalk-of live a to (e ∷ es) (m, from, w) =
      go
        (meets e.parent a
          (sym (canon_none (rev_string e.parent)) ∙ from ∙ canon_none (revision_string a)))
        (IsWalk-of live e.target to es w)

  contiguous :
      (live : List (MigrationEdge Op)) (f : Text) (to : Revision) (es : List (MigrationEdge Op))
      → Applies [] live f (revision_string to) es
      → IsContiguous (map chain_edge es)
  unfolding chain_edge
  contiguous live f to [] w = tt
  contiguous live f to (e ∷ es) (m, from, w) = IsWalk-of live e.target to es w

  ops_same : (es : List (MigrationEdge Op)) → path_ops es ≡ all_ops (map chain_edge es)
  unfolding path_ops chain_edge
  ops_same [] = refl
  ops_same (e ∷ es) = ap (λ l. e.ops ++ l) (ops_same es)

  check_classes-none :
      (class : Text) (es : List (MigrationEdge Op))
      → check_classes class es ≡ none
      → All (λ e. e.class ≡ class) es
  unfolding check_classes
  check_classes-none class [] h = tt
  check_classes-none class (e ∷ es) h = elim (Bool-cases (text_eq e.class class)) [
    | inl same ↦ ((text_eq_iff e.class class).0 same, check_classes-none class es (rw same at h))
    | inr other ↦ cc (rw other at h)
  ]

module _ {Op : Type 0} (edge_id : MigrationEdge Op → Text) where
  -- What the edge `ce` for a range from `from_ref` to `to_ref` is, with the originals `path`.
  pub record Consolidates (live : List (MigrationEdge Op)) (from_ref to_ref : Text)
      (ce : MigrationEdge Op) (path : List (MigrationEdge Op)) : Type 0 where
    pub from : resolve_squash_endpoint edge_id live from_ref false ≡ ok ce.parent
    pub to : resolve_squash_endpoint edge_id live to_ref true ≡ ok ce.target
    pub range : Answered edge_id live ce.parent ce.target (ok path)
    pub same_ops : compose_path (map chain_edge path) ≡ ok ce.ops
    pub same_class : All (λ e. e.class ≡ ce.class) path
    pub is_consolidation : ce.consolidation ≡ true
    pub supersedes : ce.superseded_edge_ids ≡ map edge_id path
    pub disjoint : All (Apart ce.superseded_edge_ids) live

  module _ (e : MigrationEdge Op) (es : List (MigrationEdge Op)) (from_ref to_ref slug : Text) where
    abbrev all_live : List (MigrationEdge Op)
    all_live = e ∷ es

    consolidate_correct :
        (from_rev to_rev : Revision) (path : List (MigrationEdge Op)) (ce : MigrationEdge Op)
        (originals : List (MigrationEdge Op))
        → resolve_squash_endpoint edge_id all_live from_ref false ≡ ok from_rev
        → resolve_squash_endpoint edge_id all_live to_ref true ≡ ok to_rev
        → Answered edge_id all_live from_rev to_rev (ok path)
        → consolidate edge_id all_live from_rev to_rev slug path ≡ ok (ce, originals)
        → Consolidates all_live from_ref to_ref ce originals
    unfolding consolidate consolidation_edge Answered
    consolidate_correct from_rev to_rev [] ce originals f t a h = cc
    consolidate_correct from_rev to_rev (first ∷ path) ce originals f t a h =
        elim (Option-cases (check_classes first.class (first ∷ path))) [
          | inr (x, mixed) ↦ cc (rw (mixed, consolidate) at h)
          | inl one_class ↦
              elim (check_consolidation_disjoint_lem edge_id all_live
                (map edge_id (first ∷ path))) [
                  | inr (x, at, hit) ↦ cc (rw (one_class, at, consolidate) at h)
                  | inl (free, apart) ↦
                      let made =
                        consolidation_edge edge_id from_rev to_rev slug first.class
                          (first ∷ path) in
                      let same : ok (made, first ∷ path) ≡ ok (ce, originals) =
                        rw (one_class, free, consolidate) at h in
                      let pair : (made, first ∷ path) ≡ (ce, originals) = ok_inj refl same in
                      let built : Consolidates all_live from_ref to_ref made (first ∷ path) =
                        record {
                          from = f;
                          to = t;
                          range = a;
                          same_ops =
                              (compose_path_correct (map chain_edge (first ∷ path))
                                  (path_ops (first ∷ path))).1
                                (
                                  contiguous all_live (rev_string from_rev) to_rev (first ∷ path)
                                      a.4,
                                  ops_same (first ∷ path),
                                );
                          same_class = check_classes-none first.class (first ∷ path) one_class;
                          is_consolidation = refl;
                          supersedes = refl;
                          disjoint = apart;
                        } in
                      subst (λ r. Consolidates all_live from_ref to_ref r.0 r.1) pair built
                ]
        ]

    range_correct :
        (from_rev to_rev : Revision) (ce : MigrationEdge Op) (originals : List (MigrationEdge Op))
        → resolve_squash_endpoint edge_id all_live from_ref false ≡ ok from_rev
        → resolve_squash_endpoint edge_id all_live to_ref true ≡ ok to_rev
        → squash_range edge_id all_live slug from_rev to_rev ≡ ok (ce, originals)
        → Consolidates all_live from_ref to_ref ce originals
    unfolding squash_range
    range_correct from_rev to_rev ce originals f t h =
        let answer = find_live_consolidation_path_correct edge_id all_live from_rev to_rev in
        elim (Result-cases (find_live_consolidation_path edge_id all_live from_rev to_rev)) [
          | inr (x, bad) ↦ cc (rw (bad, squash_range) at h)
          | inl (path, found) ↦
              consolidate_correct from_rev to_rev path ce originals f t
                (subst (Answered edge_id all_live from_rev to_rev) found answer)
                (rw (found, squash_range) at h)
        ]

  -- When SquashChain has an edge to write, its endpoints are those that the references resolve to,
  -- its originals are the only path of live edges between them, at least two edges long, which
  -- ComposePath composes to exactly the operations of the new edge; all have its class, it lists
  -- their ids in order, and no live consolidation supersedes one of them.
  pub squash_edge_correct :
      (live : List (MigrationEdge Op)) (from_ref to_ref slug : Text) (ce : MigrationEdge Op)
      (path : List (MigrationEdge Op))
      → squash_edge edge_id live from_ref to_ref slug ≡ ok (ce, path)
      → Consolidates live from_ref to_ref ce path
  unfolding squash_edge
  squash_edge_correct [] from_ref to_ref slug ce path h = cc
  squash_edge_correct (e ∷ es) from_ref to_ref slug ce path h =
      elim (Result-cases (resolve_squash_endpoint edge_id (e ∷ es) from_ref false)) [
        | inr (x, bad) ↦ cc (rw (bad, squash_edge) at h)
        | inl (from_rev, f) ↦
            elim (Result-cases (resolve_squash_endpoint edge_id (e ∷ es) to_ref true)) [
              | inr (x, bad) ↦ cc (rw (f, bad, squash_edge) at h)
              | inl (to_rev, t) ↦
                  range_correct e es from_ref to_ref slug from_rev to_rev ce path f t
                    (rw (f, t, squash_edge) at h)
            ]
      ]
