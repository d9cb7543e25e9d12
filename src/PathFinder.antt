-- ===== src/PathFinder.antt =====
-- internal/migrate/path_finder.go: which edges a database at a chain position has to apply. The
-- content id of an edge is a parameter, `edge_id`.
--
-- Fuel: `reachable` dequeues the start and each edge's target at most once, and a path uses each
-- edge at most once, so the number of edges bounds both searches (`PathFinder.Reachable`,
-- `PathFinder.Paths`).
pub mod Reachable
pub mod Paths
pub mod Choice
pub mod Found
pub mod Remap
mod Tests
use pgdesign.Base.{
  ℕ, zero, suc, ◌+◌, Text, bytes, List, [], ◌∷◌, ◌++◌, map, Bool, true, false, not, ◌&&◌, ◌||◌,
  Option, none, some, Result, ok, err, if◌then◌else◌, text_eq, text_lt, elem, sort_texts, length,
  get_elem?, get_or, set, ltb, ◌==◌,
}
use pgdesign.Rev.{Revision, RevError, is_zero, revision_string, parse_revision}
use pgdesign.Chain.Edge
use pgdesign.Chain.Edge.{find_heads}
use pgdesign.Fd.Sets.{join_rest}

-- The edge of internal/migrate/chain_edge.go.
pub record MigrationEdge {ℓ} (Op : Type ℓ) : Type ℓ where
  pub parent : Revision
  pub target : Revision
  pub slug : Text
  pub class : Text
  pub ops : List Op
  pub file : Text
  pub archived : Bool
  pub consolidation : Bool
  pub superseded_edge_ids : List Text

abbrev pub RemapTable : Type 0
RemapTable = List (Text × Text)

unfoldable pub remapped : Text → RemapTable → Option Text
remapped s [] = none
remapped s ((k, v) ∷ m) = if text_eq k s then some v else remapped s m

-- The loop of canon, over the rounds left.
unfoldable pub canon_loop : ℕ → Text → RemapTable → Text
canon_loop zero s remap = s
canon_loop (suc n) s remap = elim (remapped s remap) [
  | none ↦ s
  | some next ↦ canon_loop n next remap
]

-- A map has as many keys as entries here, so the rounds are `len(remap) + 1`.
unfoldable pub canon : Text → RemapTable → Text
unfolding canon_loop remapped text_eq
canon s remap = canon_loop (suc (length remap)) s remap

-- revString
unfoldable pub rev_string : Revision → Text
unfolding is_zero
rev_string r = if is_zero r then [] else revision_string r

pub record CanonEdge : Type 0 where
  pub parent : Text
  pub target : Text
  pub id : Text
  pub consol : Bool
  pub idx : ℕ

pub data PathError : Type 0 where
  no_path : Text → PathError
  forked : List Text → PathError
  bad_revision : Text → RevError → PathError

-- The scan of the edges in one round of `reachable`: it may hit the target at once.
pub data Scan : Type 0 where
  hit : Scan
  more : List Text → List Text → Scan

unfoldable pub scan : Text → Text → List CanonEdge → List Text → List Text → Scan
scan target cur [] visited queue = more visited queue
scan target cur (e ∷ es) visited queue =
    let on = scan target cur es visited queue in
    let marked = scan target cur es (e.target ∷ visited) (queue ++ (e.target ∷ [])) in
    if text_eq e.parent cur && not (elem e.target visited)
    then if text_eq e.target target then hit else marked
    else on

-- One round on a dequeued revision.
unfoldable pub after_scan : (List Text → List Text → Bool) → Scan → Bool
after_scan next hit = true
after_scan next (more visited queue) = next visited queue

unfoldable pub search : ℕ → Text → List CanonEdge → List Text → List Text → Bool
unfolding after_scan
search fuel target edges visited [] = false
search zero target edges visited (cur ∷ queue) = false
search (suc fuel) target edges visited (cur ∷ queue) =
    after_scan (search fuel target edges) (scan target cur edges visited queue)

unfoldable pub reachable : Text → Text → List CanonEdge → Bool
unfolding search scan text_eq elem
reachable start target edges =
    if text_eq start target
    then true
    else search (suc (length edges)) target edges (start ∷ []) (start ∷ [])

-- The loop of dfs over the edges, from position `i`; `enter` is the recursive call.
unfoldable pub try_edges :
    (List Bool → List CanonEdge → Text → List (List CanonEdge))
    → List Bool
    → List CanonEdge
    → Text
    → ℕ
    → List CanonEdge
    → List (List CanonEdge)
try_edges enter used cur frontier i [] = []
try_edges enter used cur frontier i (e ∷ es) =
    let rest = try_edges enter used cur frontier (suc i) es in
    if get_or used i true || not (text_eq e.parent frontier)
    then rest
    else enter (set used i true) (cur ++ (e ∷ [])) e.target ++ rest

abbrev is_nonempty : List CanonEdge → Bool
is_nonempty [] = false
is_nonempty (x ∷ xs) = true

-- A copy of the current path, at the target.
unfoldable pub arrived : Text → Text → List CanonEdge → List (List CanonEdge)
arrived target frontier cur = if text_eq frontier target && is_nonempty cur then cur ∷ [] else []

unfoldable pub dfs :
    ℕ → Text → List CanonEdge → List Bool → List CanonEdge → Text → List (List CanonEdge)
dfs zero target edges used cur frontier = arrived target frontier cur
dfs (suc fuel) target edges used cur frontier =
    arrived target frontier cur ++ try_edges (dfs fuel target edges) used cur frontier 0 edges

unfoldable pub all_forward_paths : Text → Text → List CanonEdge → List (List CanonEdge)
unfolding dfs arrived try_edges text_eq
all_forward_paths start target edges =
    dfs (length edges) target edges (map (λ e. false) edges) [] start

unfoldable pub count_consolidation : List CanonEdge → ℕ
count_consolidation [] = 0
count_consolidation (e ∷ p) =
    if e.consol then suc (count_consolidation p) else count_consolidation p

-- The sorted ids, joined by ','.
unfoldable pub edge_id_seq : List CanonEdge → Text
unfolding sort_texts text_lt join_rest
edge_id_seq p = elim (sort_texts (map (λ e. e.id) p)) [
  | [] ↦ []
  | x ∷ xs ↦ x ++ join_rest (bytes ",") xs
]

unfoldable pub less_path : List CanonEdge → List CanonEdge → Bool
unfolding count_consolidation edge_id_seq
less_path a b =
    if not (length a == length b)
    then ltb (length a) (length b)
    else if not (count_consolidation a == count_consolidation b)
    then ltb (count_consolidation b) (count_consolidation a)
    else text_lt (edge_id_seq a) (edge_id_seq b)

-- The loop of choosePath.
unfoldable pub choose : List CanonEdge → List (List CanonEdge) → List CanonEdge
choose best [] = best
choose best (p ∷ ps) = choose (if less_path p best then p else best) ps

unfoldable pub heads_reached : Text → List CanonEdge → List Text → List Text
heads_reached start edges [] = []
heads_reached start edges (h ∷ hs) =
    let rest = heads_reached start edges hs in
    if text_eq start h || reachable start h edges then h ∷ rest else rest

module _ {Op : Type 0} (edge_id : MigrationEdge Op → Text) where
  unfoldable pub to_canon_edges : RemapTable → ℕ → List (MigrationEdge Op) → List CanonEdge
  unfolding canon rev_string
  to_canon_edges remap i [] = []
  to_canon_edges remap i (e ∷ es) =
      record {
        parent = canon (rev_string e.parent) remap;
        target = canon (revision_string e.target) remap;
        id = edge_id e;
        consol = e.consolidation;
        idx = i;
      }
      ∷ to_canon_edges remap (suc i) es

module _ {Op : Type 0} where
  -- The kernel edge that findLiveHeads builds of one live edge.
  unfoldable pub kernel_edge : RemapTable → MigrationEdge Op → Result PathError (Edge.Edge Op)
  unfolding canon rev_string
  kernel_edge remap e =
      let parent_str = canon (rev_string e.parent) remap in
      let target_str = canon (revision_string e.target) remap in
      elim (parse_revision parent_str) [
        | err x ↦ err (bad_revision parent_str x)
        | ok p ↦ elim (parse_revision target_str) [
          | err x ↦ err (bad_revision target_str x)
          | ok t ↦ ok (record { parent = p; target = t; ops = []; slug = e.slug })
        ]
      ]

  unfoldable pub kernel_edges :
      RemapTable → List (MigrationEdge Op) → Result PathError (List (Edge.Edge Op))
  kernel_edges remap [] = ok []
  kernel_edges remap (e ∷ es) =
      let rest = kernel_edges remap es in
      elim (kernel_edge remap e) [
        | err x ↦ err x
        | ok k ↦ elim rest [ err x ↦ err x | ok ks ↦ ok (k ∷ ks) ]
      ]

  unfoldable pub find_live_heads :
      RemapTable → List (MigrationEdge Op) → Result PathError (List Text)
  unfolding kernel_edges kernel_edge find_heads
  find_live_heads remap live = elim (kernel_edges remap live) [
    | err x ↦ err x
    | ok ks ↦ ok (map revision_string (find_heads ks))
  ]

  -- The edges at the positions of a path; a position of a projected edge is one of the list.
  unfoldable pub edges_at : List (MigrationEdge Op) → List CanonEdge → List (MigrationEdge Op)
  edges_at all_edges [] = []
  edges_at all_edges (c ∷ p) = elim (get_elem? all_edges c.idx) [
    | none ↦ edges_at all_edges p
    | some e ↦ e ∷ edges_at all_edges p
  ]

  -- What FindPath does once it has the one reachable head.
  unfoldable pub path_to :
      Text
      → Text
      → List (MigrationEdge Op)
      → List CanonEdge
      → Result PathError (List (MigrationEdge Op))
  path_to start target all_edges all =
      if text_eq start target then ok [] else elim (all_forward_paths start target all) [
        | [] ↦ err (no_path start)
        | p ∷ ps ↦ ok (edges_at all_edges (choose p ps))
      ]

  -- The switch on the reachable heads.
  unfoldable pub select_head :
      Text
      → List Text
      → List Text
      → List (MigrationEdge Op)
      → List CanonEdge
      → Result PathError (List (MigrationEdge Op))
  unfolding path_to
  select_head start heads [] all_edges all = if elem start heads then ok [] else err (no_path start)
  select_head start heads (target ∷ []) all_edges all = path_to start target all_edges all
  select_head start heads (h ∷ g ∷ hs) all_edges all = err (forked (h ∷ g ∷ hs))

  unfoldable pub find_path :
      (MigrationEdge Op → Text)
      → Text
      → RemapTable
      → List (MigrationEdge Op)
      → List (MigrationEdge Op)
      → Result PathError (List (MigrationEdge Op))
  find_path edge_id pos remap live_edges all_edges =
      let start = canon pos remap in
      let all = to_canon_edges edge_id remap 0 all_edges in
      elim (find_live_heads remap live_edges) [
        | err x ↦ err x
        | ok heads ↦
            select_head start heads (sort_texts (heads_reached start all heads)) all_edges all
      ]
