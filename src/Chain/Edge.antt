-- ===== src/Chain/Edge.antt =====
-- internal/chain/edge.go: the edges of the chain, their heads and genesis edges, and the
-- composition of a path. A Go map is an association list whose writes replace. The identity of an
-- edge (the SHA-256 of its JSON) is a parameter where it is used.
pub mod Heads
pub mod Compose
use pgdesign.Base.{
  ℕ, zero, suc, ◌+◌, Text, List, [], ◌∷◌, ◌++◌, Bool, true, false, not, Result, ok, err,
  if◌then◌else◌, elem, text_eq, text_lt, sort_texts,
}
use pgdesign.Rev.{Revision, zero_revision, is_zero, revision_string}

pub record Edge {ℓ} (Op : Type ℓ) : Type ℓ where
  pub parent : Revision
  pub target : Revision
  pub ops : List Op
  pub slug : Text

-- A map from texts to revisions.
abbrev pub RevisionMap : Type 0
RevisionMap = List (Text × Revision)

unfoldable pub put : Text → Revision → RevisionMap → RevisionMap
put k v [] = (k, v) ∷ []
put k v ((j, w) ∷ m) = if text_eq j k then (k, v) ∷ m else (j, w) ∷ put k v m

-- A missing key reads as the zero value.
unfoldable pub read : Text → RevisionMap → Revision
read k [] = zero_revision
read k ((j, w) ∷ m) = if text_eq j k then w else read k m

unfoldable pub has_key : Text → RevisionMap → Bool
has_key k [] = false
has_key k ((j, w) ∷ m) = if text_eq j k then true else has_key k m

-- `parents`, `targets` and `targetOrder` of FindHeads.
pub record Graph : Type 0 where
  pub parents : List Text
  pub targets : RevisionMap
  pub target_order : List Text

abbrev pub no_edges : Graph
no_edges = record { parents = []; targets = []; target_order = [] }

module _ {ℓ} {Op : Type ℓ} where
  unfoldable pub is_genesis : Edge Op → Bool
  unfolding is_zero
  is_genesis e = is_zero e.parent

  -- The body of the first loop.
  unfoldable pub add_edge : Graph → Edge Op → Graph
  add_edge g e =
      let ts = revision_string e.target in
      record {
        parents = if is_genesis e then g.parents else revision_string e.parent ∷ g.parents;
        targets = put ts e.target g.targets;
        target_order = if has_key ts g.targets then g.target_order else g.target_order ++ (ts ∷ []);
      }

  unfoldable pub add_edges : Graph → List (Edge Op) → Graph
  add_edges g [] = g
  add_edges g (e ∷ es) = add_edges (add_edge g e) es

-- The second loop, over the sorted targets; `seen` guards against duplicates.
unfoldable pub collect_heads : Graph → List Text → List Text → List Revision
collect_heads g seen [] = []
collect_heads g seen (ts ∷ rest) =
    let skipped = collect_heads g seen rest in
    let taken = read ts g.targets ∷ collect_heads g (ts ∷ seen) rest in
    if elem ts g.parents then skipped else if elem ts seen then skipped else taken

module _ {ℓ} {Op : Type ℓ} where
  unfoldable pub find_heads : List (Edge Op) → List Revision
  unfolding collect_heads add_edges add_edge is_genesis put read has_key elem text_eq text_lt
      sort_texts
  find_heads edges =
      let g = add_edges no_edges edges in collect_heads g [] (sort_texts g.target_order)

  unfoldable pub find_genesis : List (Edge Op) → List (Edge Op)
  unfolding is_genesis
  find_genesis [] = []
  find_genesis (e ∷ es) = let rest = find_genesis es in if is_genesis e then e ∷ rest else rest

-- The break of a path: the position of the edge, the target before it and its parent.
pub record PathBreak : Type 0 where
  pub at : ℕ
  pub previous : Text
  pub parent : Text

module _ {ℓ} {Op : Type ℓ} where
  -- The loop of ComposePath from the second edge on; `i` is the position and `prev` the target of
  -- the edge before.
  unfoldable pub compose_loop : ℕ → Revision → List Op → List (Edge Op) → Result PathBreak (List Op)
  unfolding text_eq
  compose_loop i prev ops [] = ok ops
  compose_loop i prev ops (e ∷ es) =
      let rest = compose_loop (i + 1) e.target (ops ++ e.ops) es in
      if not (text_eq (revision_string prev) (revision_string e.parent))
      then err
          (record { at = i; previous = revision_string prev; parent = revision_string e.parent })
      else rest

  unfoldable pub compose_path : List (Edge Op) → Result PathBreak (List Op)
  unfolding compose_loop
  compose_path [] = ok []
  compose_path (e ∷ es) = compose_loop 1 e.target e.ops es
