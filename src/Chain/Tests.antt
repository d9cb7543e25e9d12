-- ===== src/Chain/Tests.antt =====
-- The chain kernel over a small implementation of its steps.
use pgdesign.Base.{
  ℕ, Text, bytes, List, [], ◌∷◌, not, ◌&&◌, map, Option, none, some, ◌≡◌, refl, arith, ◌↔◌, ok, err,
  elem, In, IsStrict, subst,
}
use pgdesign.Enc.Key.{Key, kind_table}
use pgdesign.Rev.{Revision, registry_present, zero_revision, revision_string}
use pgdesign.Chain.{InvertibilityClass, mechanically_invertible, non_invertible, Ops}
use pgdesign.Chain.Invert.{inverse_of_list, new_mechanical_range}
use pgdesign.Chain.Invert.Laws.{IsInverse, inverse_of_list_correct}
use pgdesign.Chain.Edge.{Edge, find_heads, compose_path, PathBreak}
use pgdesign.Chain.Edge.Heads.{target_strings, parent_strings, find_heads_correct}
use pgdesign.Chain.Edge.Compose.{IsContiguous, all_ops, compose_path_correct}
use pgdesign.Chain.Manifest.{
  Manifest, find, IsMap, diff, Simulator, verify_edge_endpoint, no_simulator, key_eq,
}
use pgdesign.Chain.Manifest.Delta.{IsAdded, IsChanged, diff_correct}
use pgdesign.Chain.Manifest.Closed.{Reaches, verify_edge_endpoint_correct}

-- A column comes, goes, or is filled from a file that is not kept.
data Step : Type 0 where
  add drop fill : Step

abbrev users : Key
users = record { kind = kind_table; schema = bytes "app"; name = bytes "users"; arg_sig = [] }

abbrev orders : Key
orders = record { kind = kind_table; schema = bytes "app"; name = bytes "orders"; arg_sig = [] }

abbrev step_class : Step → InvertibilityClass
step_class add = mechanically_invertible
step_class drop = mechanically_invertible
step_class fill = non_invertible

abbrev step_inverse : Step → Option Step
step_inverse add = some drop
step_inverse drop = some add
step_inverse fill = none

abbrev steps : Ops
steps = record {
  Op = Step;
  kind = λ s. bytes "step";
  target = λ s. users;
  invertibility = step_class;
  payload_id = λ s. [];
  inverse = step_inverse;
}

down : inverse_of_list steps (add ∷ drop ∷ add ∷ []) ≡ some (drop ∷ add ∷ drop ∷ [])
unfolding inverse_of_list
down = refl

down_one : inverse_of_list steps (drop ∷ []) ≡ some (add ∷ [])
unfolding inverse_of_list
down_one = refl

range : new_mechanical_range steps (add ∷ drop ∷ []) ≡ ok (record { steps = add ∷ drop ∷ [] })
unfolding new_mechanical_range
range = refl

inverse_of_list_correct_example :
    (inverse_of_list steps (add ∷ fill ∷ []) ≡ some (drop ∷ []))
    ↔ IsInverse steps (add ∷ fill ∷ []) (drop ∷ [])
inverse_of_list_correct_example = inverse_of_list_correct steps (add ∷ fill ∷ []) (drop ∷ [])

abbrev rev : ℕ → Revision
rev n = record { class = registry_present; sum = n ∷ [] }

abbrev edge : Revision → Revision → List Step → Edge Step
edge p t ops = record { parent = p; target = t; ops = ops; slug = [] }

-- Genesis to 1, and from there to 2 and to 3: a fork.
abbrev fork : List (Edge Step)
fork =
    edge zero_revision (rev 1) (add ∷ [])
    ∷ edge (rev 1) (rev 3) (drop ∷ [])
    ∷ edge (rev 1) (rev 2) (add ∷ [])
    ∷ []

fork_heads : find_heads fork ≡ rev 2 ∷ rev 3 ∷ []
unfolding find_heads revision_string
fork_heads = refl

find_heads_correct_example :
    ((t : Text)
      → elem t (map revision_string (find_heads fork))
        ≡ (elem t (target_strings fork) && not (elem t (parent_strings fork))))
    × IsStrict (map revision_string (find_heads fork))
find_heads_correct_example = find_heads_correct fork

abbrev line : List (Edge Step)
line = edge (rev 1) (rev 2) (add ∷ []) ∷ edge (rev 2) (rev 3) (drop ∷ add ∷ []) ∷ []

compose_path_correct_example :
    (compose_path line ≡ ok (add ∷ drop ∷ add ∷ []))
    ↔ (IsContiguous line × (add ∷ drop ∷ add ∷ [] ≡ all_ops line))
compose_path_correct_example = compose_path_correct line (add ∷ drop ∷ add ∷ [])

abbrev gap : PathBreak
gap = record {
  at = 1;
  previous = bytes "registry_present:02";
  parent = bytes "registry_present:03";
}

broken : compose_path (edge (rev 1) (rev 2) (add ∷ []) ∷ edge (rev 3) (rev 4) [] ∷ []) ≡ err gap
unfolding compose_path revision_string
broken = refl

abbrev base : Manifest
base = (users, bytes "aa") ∷ []

abbrev goal : Manifest
goal = (orders, bytes "bb") ∷ (users, bytes "aa") ∷ []

base-IsMap : IsMap base
unfolding find
base-IsMap = (refl, tt)

goal-IsMap : IsMap goal
unfolding find key_eq
goal-IsMap = (refl, (refl, tt))

diff_correct_example :
    (In orders (diff base goal).added ↔ IsAdded base goal orders)
    × (In orders (diff base goal).removed ↔ IsAdded goal base orders)
    × (In orders (diff base goal).changed ↔ IsChanged base goal orders)
diff_correct_example = diff_correct base goal orders base-IsMap goal-IsMap

-- Steps that bring the table of orders.
abbrev bring : Simulator Step
bring from [] = some from
bring from (op ∷ ops) = some ((orders, bytes "bb") ∷ from)

brought_IsMap : (got : Manifest) → some goal ≡ some got → IsMap got
brought_IsMap got h = let same : goal ≡ got = ground arith in subst IsMap same goal-IsMap

verify_edge_endpoint_correct_example :
    (verify_edge_endpoint (some bring) (edge (rev 1) (rev 2) (add ∷ [])) base goal ≡ none
      ↔ Reaches bring (add ∷ []) base goal)
    × (verify_edge_endpoint none (edge (rev 1) (rev 2) (add ∷ [])) base goal ≡ some no_simulator)
verify_edge_endpoint_correct_example =
    verify_edge_endpoint_correct bring (edge (rev 1) (rev 2) (add ∷ [])) base goal goal-IsMap
      brought_IsMap
