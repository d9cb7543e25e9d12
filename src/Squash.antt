-- ===== src/Squash.antt =====
-- internal/migrate/squash_chain.go: the choice of a range of live edges and the consolidation edge
-- that replaces it. The content id of an edge is a parameter, `edge_id`. The files are not
-- modelled: `squash_edge` is SquashChain up to the call of WriteEdge. A text shorter than a slice
-- of it is not cut here; an edge id of the source is 64 characters long.
pub mod Endpoint
pub mod Range
pub mod Disjoint
pub mod Consolidated
pub mod Down
mod Tests
use pgdesign.Base.{
  ℕ, zero, suc, Text, bytes, List, [], ◌∷◌, ◌++◌, map, Bool, true, false, not, ◌&&◌, Option, none,
  some, Result, ok, err, if◌then◌else◌, text_eq, elem, length, take, drop, index_byte, ltb, ◌==◌,
}
use pgdesign.Rev.{Revision, zero_revision, is_zero, revision_string}
use pgdesign.Chain.{Ops}
use pgdesign.Chain.Edge
use pgdesign.Squash.Endpoint.{ReferenceError, genesis, resolve_squash_endpoint}
use pgdesign.Chain.Invert.{
  all_mechanically_invertible, new_mechanical_range, manifest_diff_down, inverse_of_list,
}
use pgdesign.PathFinder.{
  MigrationEdge, CanonEdge, rev_string, to_canon_edges, all_forward_paths, edges_at,
}

pub data PathRefusal : Type 0 where
  same_revision : Text → PathRefusal
  no_live_path : Text → Text → PathRefusal
  ambiguous_range : Text → Text → ℕ → PathRefusal
  single_edge : Text → Text → PathRefusal

pub data SquashError : Type 0 where
  no_live_edges : SquashError
  bad_from : Text → ReferenceError → SquashError
  bad_to : Text → ReferenceError → SquashError
  bad_range : PathRefusal → SquashError
  mixed_classes : Text → Text → SquashError
  -- The edge already superseded, and the consolidation that supersedes it.
  overlap : Text → Text → SquashError

-- displayRev
unfoldable pub display_rev : Text → Text
display_rev [] = genesis
display_rev (c ∷ s) = c ∷ s

unfoldable pub short_rev_hash : Revision → Text
short_rev_hash r = take 8 (after_colon (revision_string r) (index_byte (revision_string r) b':'))
  where
    after_colon : Text → Option ℕ → Text
    after_colon s none = s
    after_colon s (some i) = drop (suc i) s

unfoldable pub default_squash_slug : Revision → Revision → Text
default_squash_slug from_rev to_rev =
    bytes "squash-"
    ++ (if is_zero from_rev then genesis else short_rev_hash from_rev)
    ++ bytes "-to-"
    ++ short_rev_hash to_rev

module _ {Op : Type 0} where
  unfoldable pub chain_edge : MigrationEdge Op → Edge.Edge Op
  chain_edge e = record { parent = e.parent; target = e.target; ops = e.ops; slug = e.slug }

  -- The loop over the classes of the range, each compared with the first one's.
  unfoldable pub check_classes : Text → List (MigrationEdge Op) → Option SquashError
  check_classes class [] = none
  check_classes class (e ∷ es) =
      let rest = check_classes class es in
      if not (text_eq e.class class) then some (mixed_classes class e.class) else rest

  unfoldable pub path_ops : List (MigrationEdge Op) → List Op
  path_ops [] = []
  path_ops (e ∷ es) = e.ops ++ path_ops es

-- The inner loop of checkConsolidationDisjoint.
unfoldable pub first_common : List Text → List Text → Option Text
first_common new_set [] = none
first_common new_set (id ∷ ids) =
    let rest = first_common new_set ids in if elem id new_set then some id else rest

-- What findLiveConsolidationPath makes of the list of all forward paths.
unfoldable pub only_path : Text → Text → List (List CanonEdge) → Result PathRefusal (List CanonEdge)
only_path from to [] = err (no_live_path (display_rev from) to)
only_path from to (best ∷ []) =
    if ltb (length best) 2 then err (single_edge (display_rev from) to) else ok best
only_path from to (p ∷ q ∷ ps) = err (ambiguous_range (display_rev from) to (length (p ∷ q ∷ ps)))

module _ {Op : Type 0} where
  unfoldable pub live_edges_of :
      List (MigrationEdge Op)
      → Result PathRefusal (List CanonEdge)
      → Result PathRefusal (List (MigrationEdge Op))
  live_edges_of live (err x) = err x
  live_edges_of live (ok best) = ok (edges_at live best)

module _ {Op : Type 0} (edge_id : MigrationEdge Op → Text) where
  unfoldable pub find_live_consolidation_path :
      List (MigrationEdge Op) → Revision → Revision → Result PathRefusal (List (MigrationEdge Op))
  find_live_consolidation_path live from_rev to_rev =
      let from = rev_string from_rev in
      let to = revision_string to_rev in
      if text_eq from to
      then err (same_revision to)
      else live_edges_of live
          (only_path from to (all_forward_paths from to (to_canon_edges edge_id [] 0 live)))

  unfoldable pub check_overlap :
      MigrationEdge Op → Option Text → Option SquashError → Option SquashError
  check_overlap e none rest = rest
  check_overlap e (some id) rest = some (overlap (take 12 id) (take 12 (edge_id e)))

  unfoldable pub check_consolidation_disjoint :
      List (MigrationEdge Op) → List Text → Option SquashError
  check_consolidation_disjoint [] new_superseded = none
  check_consolidation_disjoint (e ∷ es) new_superseded =
      let rest = check_consolidation_disjoint es new_superseded in
      if not e.consolidation
      then rest
      else check_overlap e (first_common new_superseded e.superseded_edge_ids) rest

  -- The edge `ce`.
  unfoldable pub consolidation_edge :
      Revision → Revision → Text → Text → List (MigrationEdge Op) → MigrationEdge Op
  consolidation_edge from_rev to_rev slug class path = record {
    parent = from_rev;
    target = to_rev;
    slug = elim slug [ [] ↦ default_squash_slug from_rev to_rev | c ∷ s ↦ c ∷ s ];
    class = class;
    ops = path_ops path;
    file = [];
    archived = false;
    consolidation = true;
    superseded_edge_ids = map edge_id path;
  }

  -- SquashChain from the path on: the edge to write, with the originals to archive. A path that
  -- findLiveConsolidationPath gives is not empty.
  unfoldable pub consolidate :
      List (MigrationEdge Op)
      → Revision
      → Revision
      → Text
      → List (MigrationEdge Op)
      → Result SquashError (MigrationEdge Op × List (MigrationEdge Op))
  consolidate live from_rev to_rev slug [] =
      err (bad_range (no_live_path (display_rev (rev_string from_rev)) (revision_string to_rev)))
  consolidate live from_rev to_rev slug (first ∷ path) =
      elim (check_classes first.class (first ∷ path)) [
        | some x ↦ err x
        | none ↦ elim (check_consolidation_disjoint live (map edge_id (first ∷ path))) [
          | some x ↦ err x
          | none ↦
              ok (consolidation_edge from_rev to_rev slug first.class (first ∷ path), first ∷ path)
        ]
      ]

  unfoldable pub squash_range :
      List (MigrationEdge Op)
      → Text
      → Revision
      → Revision
      → Result SquashError (MigrationEdge Op × List (MigrationEdge Op))
  squash_range live slug from_rev to_rev =
      elim (find_live_consolidation_path live from_rev to_rev) [
        | err x ↦ err (bad_range x)
        | ok path ↦ consolidate live from_rev to_rev slug path
      ]

  unfoldable pub squash_edge :
      List (MigrationEdge Op)
      → Text
      → Text
      → Text
      → Result SquashError (MigrationEdge Op × List (MigrationEdge Op))
  squash_edge [] from_ref to_ref slug = err no_live_edges
  squash_edge (e ∷ es) from_ref to_ref slug =
      elim (resolve_squash_endpoint edge_id (e ∷ es) from_ref false) [
        | err x ↦ err (bad_from from_ref x)
        | ok from_rev ↦ elim (resolve_squash_endpoint edge_id (e ∷ es) to_ref true) [
          | err x ↦ err (bad_to to_ref x)
          | ok to_rev ↦ squash_range (e ∷ es) slug from_rev to_rev
        ]
      ]

pub data DownForm : Type 0 where
  manifest_diff composed_recorded_downs irreversible : DownForm

module _ (o : Ops) where
  open o use {Op}

  unfoldable pub recorded_downs : Option (List Op) → DownForm × List Op
  recorded_downs none = (irreversible, [])
  recorded_downs (some inv) = (composed_recorded_downs, inv)

  -- The form and the down of a range; `none` is the panic of ManifestDiffDown.
  unfoldable pub classify_consolidation_down : List Op → Option (DownForm × List Op)
  classify_consolidation_down ops =
      if not (all_mechanically_invertible o ops)
      then some (recorded_downs (inverse_of_list o ops))
      else elim (new_mechanical_range o ops) [
        | err x ↦ some (recorded_downs (inverse_of_list o ops))
        | ok mr ↦ elim (manifest_diff_down o mr) [
          | none ↦ none
          | some down ↦ some (manifest_diff, down)
        ]
      ]
