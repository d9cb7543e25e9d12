-- ===== src/Diff/Match.antt =====
-- internal/diff/match.go: pairing the objects of two schemas by name, where the database may have
-- cut a name to 63 bytes. A Go map from names to lists is an association list that grows at the
-- end.
mod Pairing
mod Grouped
pub mod Exact
pub mod Collisions
pub mod Truncated
mod Tests
use mathlib.Core.Option
use pgdesign.Base.{
  ℕ, zero, suc, Text, List, [], ◌∷◌, ◌++◌, map, Bool, true, false, not, Option, none, some,
  if◌then◌else◌, text_eq, elem, sort_texts, length, take, leb,
}

abbrev pub max_ident_bytes : ℕ
max_ident_bytes = 63

unfoldable pub truncate_ident : Text → Text
truncate_ident s = if leb (length s) max_ident_bytes then s else take max_ident_bytes s

abbrev pub Groups : Type 0
Groups = List (Text × List Text)

-- byTrunc[t] = append(byTrunc[t], n)
unfoldable pub push_group : Text → Text → Groups → Groups
push_group t n [] = (t, n ∷ []) ∷ []
push_group t n ((k, group) ∷ m) =
    let rest = push_group t n m in
    if text_eq k t then (k, group ++ (n ∷ [])) ∷ m else (k, group) ∷ rest

unfoldable pub group_names : List Text → Groups → Groups
group_names [] m = m
group_names (n ∷ ns) m = group_names ns (push_group (truncate_ident n) n m)

unfoldable pub group_keys : Groups → List Text
group_keys [] = []
group_keys ((k, group) ∷ m) = k ∷ group_keys m

unfoldable pub group_at : Text → Groups → List Text
group_at t [] = []
group_at t ((k, group) ∷ m) = if text_eq k t then group else group_at t m

-- The loop of dedupeSorted; `seen` holds what was kept.
unfoldable pub dedupe : List Text → List Text → List Text
dedupe seen [] = []
dedupe seen (v ∷ s) =
    let skipped = dedupe seen s in
    let kept = v ∷ dedupe (v ∷ seen) s in if elem v seen then skipped else kept

unfoldable pub dedupe_sorted : List Text → List Text
unfolding dedupe
dedupe_sorted s = sort_texts (dedupe [] s)

-- The last loop of truncationCollisions, with the truncation and the names that share it in place
-- of the message that prints them.
unfoldable pub report_collisions : Groups → List Text → List (Text × List Text)
report_collisions m [] = []
report_collisions m (t ∷ ts) =
    let rest = report_collisions m ts in
    let distinct = dedupe_sorted (group_at t m) in
    if leb 2 (length distinct) then (t, distinct) ∷ rest else rest

unfoldable pub truncation_collisions : List Text → List (Text × List Text)
truncation_collisions names =
    let m = group_names names [] in report_collisions m (sort_texts (group_keys m))

pub record Pair (T : Type 0) : Type 0 where
  pub desired : T
  pub actual : T

-- What the loop over the desired objects leaves: `added` and `matched`, and the keys marked in
-- `matchedActual`.
pub record Pass (T : Type 0) : Type 0 where
  pub added : List T
  pub matched : List (Pair T)
  pub keys : List Text

pub record Matching (T : Type 0) : Type 0 where
  pub added : List T
  pub removed : List T
  pub matched : List (Pair T)

module _ {T : Type 0} (key : T → Text) where
  -- actualByKey[k]: a later object of the same key replaces an earlier one.
  unfoldable pub by_key : Text → List T → Option T
  by_key k [] = none
  by_key k (a ∷ rest) = elim (by_key k rest) [
    | some b ↦ some b
    | none ↦ if text_eq (key a) k then some a else none
  ]

  -- What a desired key is paired with: an actual object, and the key that marks it.
  unfoldable pub resolve_trunc : List T → Text → Option (T × Text)
  resolve_trunc actual k = elim (by_key k actual) [
    | some a ↦ some (a, k)
    | none ↦
        let tk = truncate_ident k in
        if text_eq tk k then none else Option.map (λ a. (a, tk)) (by_key tk actual)
  ]

  unfoldable pub resolve : List T → Text → Option (T × Text)
  resolve actual k = Option.map (λ a. (a, k)) (by_key k actual)

  unfoldable pub add_object : T → Option (T × Text) → Pass T → Pass T
  add_object d none rest = record rest { added = d ∷ rest.added }
  add_object d (some (a, k)) rest = record rest {
    matched = record { desired = d; actual = a } ∷ rest.matched;
    keys = k ∷ rest.keys;
  }

  unfoldable pub match_loop : (Text → Option (T × Text)) → List T → Pass T
  match_loop find [] = record { added = []; matched = []; keys = [] }
  match_loop find (d ∷ ds) = add_object d (find (key d)) (match_loop find ds)

  -- The loop over the actual objects.
  unfoldable pub unmarked : List Text → List T → List T
  unmarked keys [] = []
  unmarked keys (a ∷ rest) =
      let others = unmarked keys rest in if elem (key a) keys then others else a ∷ others

  unfoldable pub match_objects_trunc : List T → List T → Matching T
  match_objects_trunc desired actual =
      let pass = match_loop (resolve_trunc actual) desired in
      record { added = pass.added; removed = unmarked pass.keys actual; matched = pass.matched }

  -- matchObjects marks every desired key, whether or not it is found.
  unfoldable pub match_objects : List T → List T → Matching T
  match_objects desired actual =
      let pass = match_loop (resolve actual) desired in
      record {
        added = pass.added;
        removed = unmarked (map key desired) actual;
        matched = pass.matched;
      }
