-- ===== src/Chain/Manifest.antt =====
-- internal/chain/manifest.go: a manifest is a Go map from keys to object ids, here the list of its
-- entries with distinct keys. A range over a map has no order in Go; every result that could depend
-- on it is sorted by the keys' texts. The encoder and the store are parameters where they are used.
pub mod Equality
pub mod Delta
pub mod Closed
use pgdesign.Base.{
  ℕ, zero, suc, Text, List, [], ◌∷◌, ◌++◌, Bool, true, false, not, ◌&&◌, Option, none, some, Result,
  ok, err, if◌then◌else◌, text_eq, text_lt, length, ◌==◌, sort_by, ◌≡◌, map, elem,
}
use pgdesign.Enc.Key.{Key, key_string}
use pgdesign.Chain.{Ops}
use pgdesign.Chain.Edge.{Edge}

abbrev pub Manifest : Type 0
Manifest = List (Key × Text)

unfoldable pub key_eq : Key → Key → Bool
unfolding text_eq
key_eq a b =
    text_eq a.kind b.kind
    && text_eq a.schema b.schema
    && text_eq a.name b.name
    && text_eq a.arg_sig b.arg_sig

-- m[k], with whether it is there.
unfoldable pub find : Key → Manifest → Option Text
find k [] = none
find k ((j, v) ∷ m) = if key_eq j k then some v else find k m

-- The keys are distinct.
abbrev pub IsMap : Manifest → Type 0
IsMap [] = Unit
IsMap ((k, v) ∷ m) = (find k m ≡ none) × IsMap m

-- One round of the loop in Equal.
unfoldable pub agrees_with : Option Text → Text → Bool
agrees_with none id = false
agrees_with (some oid) id = text_eq oid id

unfoldable pub equal_loop : Manifest → Manifest → Bool
equal_loop [] other = true
equal_loop ((k, id) ∷ m) other =
    let rest = equal_loop m other in if agrees_with (find k other) id then rest else false

-- Manifest.Equal
unfoldable pub manifest_equal : Manifest → Manifest → Bool
unfolding equal_loop agrees_with find key_eq
manifest_equal m other = if not (length m == length other) then false else equal_loop m other

pub record ManifestDelta : Type 0 where
  pub added : List Key
  pub removed : List Key
  pub changed : List Key

abbrev is_nil : List Key → Bool
is_nil [] = true
is_nil (x ∷ xs) = false

-- ManifestDelta.Empty
unfoldable pub delta_empty : ManifestDelta → Bool
delta_empty d = is_nil d.added && is_nil d.removed && is_nil d.changed

unfoldable pub key_less : Key → Key → Bool
key_less a b = text_lt (key_string a) (key_string b)

unfoldable pub sort_keys : List Key → List Key
unfolding key_less sort_by
sort_keys = sort_by key_less

-- The keys of `other` that `m` does not hold, and those that it holds with another id.
unfoldable pub added_keys : Manifest → Manifest → List Key
added_keys m [] = []
added_keys m ((k, oid) ∷ other) =
    let rest = added_keys m other in elim (find k m) [ none ↦ k ∷ rest | some id ↦ rest ]

unfoldable pub changed_ids : Manifest → Manifest → List Key
changed_ids m [] = []
changed_ids m ((k, oid) ∷ other) =
    let rest = changed_ids m other in
    elim (find k m) [ none ↦ rest | some id ↦ if not (text_eq id oid) then k ∷ rest else rest ]

-- Manifest.Diff
unfoldable pub diff : Manifest → Manifest → ManifestDelta
unfolding added_keys changed_ids sort_keys find key_eq text_eq
diff m other = record {
  added = sort_keys (added_keys m other);
  removed = sort_keys (added_keys other m);
  changed = sort_keys (changed_ids m other);
}

unfoldable pub changed_keys : Manifest → Manifest → List Key
unfolding diff
changed_keys base target =
    let d = diff base target in sort_keys (d.added ++ (d.removed ++ d.changed))

-- The ways in which VerifyClosure fails; `unreachable` is an error of the store.
pub data ClosureError : Type 0 where
  unreachable : Key → Text → ClosureError
  dangling : Key → Text → ClosureError

-- The store's Has: an answer, or an error.
pub data Answer : Type 0 where
  there absent failed : Answer

abbrev id_of : Option Text → Text
id_of none = []
id_of (some id) = id

unfoldable pub verify_keys : (Text → Answer) → Manifest → List Key → Option ClosureError
verify_keys has m [] = none
verify_keys has m (k ∷ ks) =
    let rest = verify_keys has m ks in
    elim (has (id_of (find k m))) [
      | there ↦ rest
      | absent ↦ some (dangling k (id_of (find k m)))
      | failed ↦ some (unreachable k (id_of (find k m)))
    ]

abbrev keys_of : Manifest → List Key
keys_of [] = []
keys_of ((k, v) ∷ m) = k ∷ keys_of m

-- VerifyClosure; `none` is success.
unfoldable pub verify_closure : (Text → Answer) → Manifest → Option ClosureError
unfolding verify_keys sort_keys find key_eq text_eq
verify_closure has m = verify_keys has m (sort_keys (keys_of m))

-- OpSimulator, with `none` for its error.
abbrev pub Simulator : Type 0 → Type 0
Simulator Op = Manifest → List Op → Option Manifest

pub data EndpointError : Type 0 where
  no_simulator simulation_failed : EndpointError
  mismatch : ManifestDelta → EndpointError

unfoldable pub compare_endpoint : Manifest → Option Manifest → Option EndpointError
compare_endpoint to none = some simulation_failed
compare_endpoint to (some got) =
    if not (manifest_equal got to) then some (mismatch (diff to got)) else none

-- VerifyEdgeEndpoint; the simulator may be nil, and `none` is success.
unfoldable pub verify_edge_endpoint :
    {Op : Type 0} → Option (Simulator Op) → Edge Op → Manifest → Manifest → Option EndpointError
unfolding compare_endpoint
verify_edge_endpoint none e from to = some no_simulator
verify_edge_endpoint (some sim) e from to = compare_endpoint to (sim from e.ops)
