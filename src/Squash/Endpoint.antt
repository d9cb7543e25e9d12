-- ===== src/Squash/Endpoint.antt =====
-- internal/migrate/squash_chain.go, resolveSquashEndpoint: the revision that a reference names. The
-- content id of an edge is a parameter, `edge_id`.
--
-- Go reads the map `seen` in any order; the matches are used only when there is exactly one, or for
-- their number.
use pgdesign.Base.{
  ℕ, Text, bytes, List, [], ◌∷◌, Bool, true, false, ◌&&◌, Result, ok, err, if◌then◌else◌, text_eq,
  length, ltb, ◌==◌,
}
use pgdesign.Rev.{Revision, zero_revision, is_zero, revision_string}
use pgdesign.Chain.Edge.{RevisionMap, put, read, has_key}
use pgdesign.PathFinder.{MigrationEdge}

-- strings.HasPrefix
unfoldable pub has_prefix : Text → Text → Bool
has_prefix s [] = true
has_prefix [] (p ∷ ps) = false
has_prefix (c ∷ s) (p ∷ ps) = c == p && has_prefix s ps

pub data ReferenceError : Type 0 where
  genesis_target : ReferenceError
  short_edge : Text → ReferenceError
  no_match : Text → ReferenceError
  ambiguous : Text → ℕ → ReferenceError

-- The switch on the matches.
unfoldable pub only_match : {A : Type 0} → Text → List A → Result ReferenceError A
only_match ref [] = err (no_match ref)
only_match ref (m ∷ []) = ok m
only_match ref (m ∷ n ∷ ms) = err (ambiguous ref (length (m ∷ n ∷ ms)))

unfoldable pub matching_revisions : Text → RevisionMap → List Revision
unfolding has_prefix
matching_revisions ref [] = []
matching_revisions ref ((s, r) ∷ m) =
    let rest = matching_revisions ref m in if has_prefix s ref then r ∷ rest else rest

unfoldable pub has_byte : Text → ℕ → Bool
has_byte [] c = false
has_byte (x ∷ xs) c = if x == c then true else has_byte xs c

abbrev pub genesis : Text
genesis = bytes "genesis"

module _ {Op : Type 0} where
  -- The map `seen`, from the entries that the edges before have left.
  unfoldable pub seen_endpoints : RevisionMap → List (MigrationEdge Op) → RevisionMap
  seen_endpoints seen [] = seen
  seen_endpoints seen (e ∷ es) =
      let with_parent =
        if is_zero e.parent then seen else put (revision_string e.parent) e.parent seen in
      seen_endpoints (put (revision_string e.target) e.target with_parent) es

  unfoldable pub resolve_endpoint_revision :
      List (MigrationEdge Op) → Text → Result ReferenceError Revision
  resolve_endpoint_revision live ref =
      let seen = seen_endpoints [] live in
      if has_key ref seen then ok (read ref seen) else only_match ref (matching_revisions ref seen)

-- The target or the parent of the one matched edge.
unfoldable pub endpoint_of :
    {Op : Type 0} → Bool → Result ReferenceError (MigrationEdge Op) → Result ReferenceError Revision
endpoint_of at_target (err x) = err x
endpoint_of true (ok e) = ok e.target
endpoint_of false (ok e) = ok e.parent

module _ {Op : Type 0} (edge_id : MigrationEdge Op → Text) where
  unfoldable pub matching_edges : Text → List (MigrationEdge Op) → List (MigrationEdge Op)
  matching_edges ref [] = []
  matching_edges ref (e ∷ es) =
      let rest = matching_edges ref es in if has_prefix (edge_id e) ref then e ∷ rest else rest

  unfoldable pub resolve_endpoint_edge :
      List (MigrationEdge Op) → Text → Bool → Result ReferenceError Revision
  resolve_endpoint_edge live ref at_target =
      if ltb (length ref) 6
      then err (short_edge ref)
      else endpoint_of at_target (only_match ref (matching_edges ref live))

  unfoldable pub resolve_squash_endpoint :
      List (MigrationEdge Op) → Text → Bool → Result ReferenceError Revision
  resolve_squash_endpoint live ref at_target =
      if text_eq ref genesis
      then if at_target then err genesis_target else ok zero_revision
      else if has_byte ref b':'
      then resolve_endpoint_revision live ref
      else resolve_endpoint_edge live ref at_target
