-- ===== src/Squash/Tests.antt =====
-- A range of two edges, consolidated.
use pgdesign.Base.{
  ℕ, zero, suc, Text, bytes, List, [], ◌∷◌, Bool, true, false, none, some, ◌≡◌, refl, String, ok,
  Option, ◌↔◌, elem,
}
use pgdesign.Rev.{Revision, zero_revision, registry_present, revision_string}
use pgdesign.Chain.{
  InvertibilityClass, mechanically_invertible, declared_inverse, non_invertible, Ops, IsLawful,
}
use pgdesign.Enc.Key.{Key, kind_table}
use pgdesign.PathFinder.{MigrationEdge, to_canon_edges, all_forward_paths, edges_at, rev_string}
use pgdesign.Squash.{
  squash_edge, squash_range, consolidate, consolidation_edge, check_classes,
  check_consolidation_disjoint, first_common, find_live_consolidation_path, only_path,
  classify_consolidation_down, DownForm, path_ops, live_edges_of, check_overlap,
}
use pgdesign.Squash.Endpoint.{
  resolve_squash_endpoint, has_byte, resolve_endpoint_edge, endpoint_of, only_match, matching_edges,
  has_prefix,
}
use pgdesign.Squash.Range.{Answered, find_live_consolidation_path_correct}
use pgdesign.Squash.Consolidated.{Consolidates, squash_edge_correct}
use pgdesign.Squash.Down.{Fits, classify_consolidation_down_correct}

abbrev digest : ℕ → ℕ → List ℕ
digest zero b = []
digest (suc n) b = b ∷ digest n b

abbrev at_rev : ℕ → Revision
at_rev n = record { class = registry_present; sum = digest 32 n }

abbrev move : Revision → Revision → String → List Text → Bool → List Text → MigrationEdge Text
move p t slug ops consol superseded = record {
  parent = p;
  target = t;
  slug = bytes slug;
  class = bytes "fully_mechanical";
  ops = ops;
  file = [];
  archived = false;
  consolidation = consol;
  superseded_edge_ids = superseded;
}

abbrev first_move : MigrationEdge Text
first_move = move zero_revision (at_rev 1) "first_edge" (bytes "a" ∷ bytes "b" ∷ []) false []

abbrev second_move : MigrationEdge Text
second_move = move (at_rev 1) (at_rev 2) "second_edge" (bytes "c" ∷ []) false []

-- An edge that consolidates two old ones.
abbrev third_move : MigrationEdge Text
third_move = move (at_rev 2) (at_rev 3) "third_edge" [] true (bytes "old" ∷ bytes "older" ∷ [])

abbrev live : List (MigrationEdge Text)
live = first_move ∷ second_move ∷ third_move ∷ []

abbrev slug_id : MigrationEdge Text → Text
slug_id e = e.slug

abbrev both : MigrationEdge Text
both =
    move zero_revision (at_rev 2) "both" (bytes "a" ∷ bytes "b" ∷ bytes "c" ∷ []) true
      (bytes "first_edge" ∷ bytes "second_edge" ∷ [])

squashed :
    squash_edge slug_id live (bytes "genesis") (bytes "second") (bytes "both")
    ≡ ok (both, first_move ∷ second_move ∷ [])
unfolding squash_edge squash_range consolidate consolidation_edge check_classes
    check_consolidation_disjoint first_common find_live_consolidation_path only_path
    resolve_squash_endpoint to_canon_edges all_forward_paths edges_at rev_string revision_string
    path_ops has_byte resolve_endpoint_edge endpoint_of only_match matching_edges has_prefix
    live_edges_of check_overlap elem
squashed = refl

find_live_consolidation_path_correct_example :
    Answered slug_id live zero_revision
      (at_rev 2)
      (find_live_consolidation_path slug_id live zero_revision (at_rev 2))
find_live_consolidation_path_correct_example =
    find_live_consolidation_path_correct slug_id live zero_revision (at_rev 2)

squash_edge_correct_example :
    Consolidates slug_id live
      (bytes "genesis")
      (bytes "second")
      both
      (first_move ∷ second_move ∷ [])
squash_edge_correct_example =
    squash_edge_correct slug_id live (bytes "genesis") (bytes "second") (bytes "both") both
      (first_move ∷ second_move ∷ []) squashed

-- A table comes, goes, is filled with a declared inverse, or loses rows.
data Step : Type 0 where
  add drop fill wipe : Step

abbrev step_class : Step → InvertibilityClass
step_class add = mechanically_invertible
step_class drop = mechanically_invertible
step_class fill = declared_inverse
step_class wipe = non_invertible

abbrev step_inverse : Step → Option Step
step_inverse add = some drop
step_inverse drop = some add
step_inverse fill = some wipe
step_inverse wipe = none

abbrev users : Key
users = record { kind = kind_table; schema = bytes "app"; name = bytes "users"; arg_sig = [] }

abbrev steps : Ops
steps = record {
  Op = Step;
  kind = λ s. bytes "step";
  target = λ s. users;
  invertibility = step_class;
  payload_id = λ s. [];
  inverse = step_inverse;
}

agrees : (s : Step) → (step_inverse s ≡ none) ↔ (step_class s ≡ non_invertible)
agrees add = (λ h. cc, λ h. cc)
agrees drop = (λ h. cc, λ h. cc)
agrees fill = (λ h. cc, λ h. cc)
agrees wipe = (λ h. refl, λ h. refl)

steps-IsLawful : IsLawful steps
steps-IsLawful = record { agrees = agrees }

classify_consolidation_down_correct_example :
    (answer : DownForm × List Step) × (classify_consolidation_down steps (add ∷ fill ∷ [])
      ≡ some answer)
    × Fits steps (add ∷ fill ∷ []) answer
classify_consolidation_down_correct_example =
    classify_consolidation_down_correct steps steps-IsLawful (add ∷ fill ∷ [])
