-- ===== src/PathFinder/Tests.antt =====
-- Paths over small stores.
use pgdesign.Base.{
  ℕ, zero, suc, Text, bytes, List, [], ◌∷◌, Bool, true, false, none, some, ◌≡◌, refl, ◌↔◌, length,
  In, inl, inr, arith, Bool-cases, text_eq_iff, sym, String, ok, err, elem, text_eq, sort_texts,
}
use pgdesign.Rev.{Revision, zero_revision, registry_present, revision_string, parse_revision}
use pgdesign.PathFinder.{
  MigrationEdge, RemapTable, CanonEdge, remapped, canon, find_live_heads, find_path, less_path,
  choose, reachable, all_forward_paths, to_canon_edges, select_head, heads_reached, edges_at,
  PathError,
}
use pgdesign.PathFinder.Paths.Trails.{Trail, all_forward_paths_correct}
use pgdesign.PathFinder.Reachable.Search.{Reach, reachable_correct}
use pgdesign.PathFinder.Remap.{Descends, canon_fixpoint}
use pgdesign.PathFinder.Found.{Verdict, find_path_correct}
use pgdesign.PathFinder.Found.Applied.{Applies, find_path-Applies}

-- Two ways from `a` to `c`, one by a consolidation edge.
abbrev hop : Text → Text → Text → Bool → ℕ → CanonEdge
hop p t id c i = record { parent = p; target = t; id = id; consol = c; idx = i }

abbrev ab : CanonEdge
ab = hop (bytes "a") (bytes "b") (bytes "1") false 0

abbrev bc : CanonEdge
bc = hop (bytes "b") (bytes "c") (bytes "2") false 1

abbrev ac : CanonEdge
ac = hop (bytes "a") (bytes "c") (bytes "3") true 2

abbrev store : List CanonEdge
store = ab ∷ bc ∷ ac ∷ []

abbrev long : List CanonEdge
long = ab ∷ bc ∷ []

both_paths : all_forward_paths (bytes "a") (bytes "c") store ≡ long ∷ (ac ∷ []) ∷ []
unfolding all_forward_paths
both_paths = refl

short_chosen : choose long ((ac ∷ []) ∷ []) ≡ ac ∷ []
unfolding choose less_path
short_chosen = refl

no_way_back : reachable (bytes "c") (bytes "a") store ≡ false
unfolding reachable
no_way_back = refl

all_forward_paths_correct_example :
    In long (all_forward_paths (bytes "a") (bytes "c") store)
    ↔ (true ≡ true) × Trail store (bytes "c") [] (bytes "a") long
all_forward_paths_correct_example = all_forward_paths_correct (bytes "a") (bytes "c") store long

reachable_correct_example :
    (reachable (bytes "a") (bytes "c") store ≡ true) ↔ Reach store (bytes "a") (bytes "c")
reachable_correct_example = reachable_correct (bytes "a") (bytes "c") store

-- A chain of two rebases, of descending lengths.
abbrev moved : RemapTable
moved = (bytes "xxx", bytes "yy") ∷ (bytes "yy", bytes "z") ∷ []

moved_twice : canon (bytes "xxx") moved ≡ bytes "z"
unfolding canon
moved_twice = refl

some_text : {a b : Text} → some a ≡ some b → a ≡ b
some_text e = cc

moved-Descends : Descends length moved
unfolding remapped
moved-Descends k v e = elim (Bool-cases (text_eq (bytes "xxx") k)) [
  | inl q ↦
      let key : bytes "xxx" ≡ k = (text_eq_iff (bytes "xxx") k).0 q in
      let value : bytes "yy" ≡ v = some_text (rw (q, remapped) at e) in
      rw (sym key, sym value) (omega arith)
  | inr q ↦ elim (Bool-cases (text_eq (bytes "yy") k)) [
    | inl r ↦
        let key : bytes "yy" ≡ k = (text_eq_iff (bytes "yy") k).0 r in
        let value : bytes "z" ≡ v = some_text (rw (q, r, remapped) at e) in
        rw (sym key, sym value) (omega arith)
    | inr r ↦ let absurd : none ≡ some v = rw (q, r, remapped) at e in cc
  ]
]

canon_fixpoint_example :
    (remapped (canon (bytes "xxx") moved) moved ≡ none)
    × (canon (canon (bytes "xxx") moved) moved ≡ canon (bytes "xxx") moved)
canon_fixpoint_example = canon_fixpoint length (bytes "xxx") moved moved-Descends

-- A store with a genesis edge, two live edges and two archived ones that they consolidate.
abbrev digest : ℕ → ℕ → List ℕ
digest zero b = []
digest (suc n) b = b ∷ digest n b

abbrev at_rev : ℕ → Revision
at_rev n = record { class = registry_present; sum = digest 32 n }

abbrev move : Revision → Revision → String → MigrationEdge Text
move p t slug = record {
  parent = p;
  target = t;
  slug = bytes slug;
  class = bytes "fully_mechanical";
  ops = [];
  file = [];
  archived = false;
  consolidation = false;
  superseded_edge_ids = [];
}

abbrev live : List (MigrationEdge Text)
live = move zero_revision (at_rev 1) "first" ∷ move (at_rev 1) (at_rev 2) "merged" ∷ []

abbrev all_moves : List (MigrationEdge Text)
all_moves =
    move zero_revision (at_rev 1) "first"
    ∷ move (at_rev 1) (at_rev 2) "merged"
    ∷ move (at_rev 1) (at_rev 3) "old"
    ∷ move (at_rev 3) (at_rev 2) "older"
    ∷ []

abbrev slug_id : MigrationEdge Text → Text
slug_id e = e.slug

abbrev last_head : List Text
last_head = revision_string (at_rev 2) ∷ []

live_head : find_live_heads [] live ≡ ok last_head
unfolding find_live_heads revision_string parse_revision
live_head = refl

position_one : Text
position_one = revision_string (at_rev 1)

abbrev merged_only : List (MigrationEdge Text)
merged_only = move (at_rev 1) (at_rev 2) "merged" ∷ []

one_step : find_path slug_id position_one [] live all_moves ≡ ok merged_only
unfolding find_path find_live_heads revision_string parse_revision position_one select_head
    heads_reached to_canon_edges reachable all_forward_paths choose less_path edges_at sort_texts
    elem
one_step = refl

find_path_correct_example :
    ((heads : List Text)
      → find_live_heads [] live ≡ ok heads
      → Verdict
          (to_canon_edges slug_id [] 0 all_moves)
          (canon position_one [])
          heads
          all_moves
          (find_path slug_id position_one [] live all_moves))
    × ((x : PathError)
        → find_live_heads [] live ≡ err x
        → find_path slug_id position_one [] live all_moves ≡ err x)
find_path_correct_example = find_path_correct slug_id position_one [] live all_moves

find_path-Applies_example :
    (target : Text) × (elem target last_head ≡ true)
    × Applies [] all_moves (canon position_one []) target merged_only
find_path-Applies_example =
    find_path-Applies slug_id position_one [] live all_moves merged_only last_head live_head
      one_step
