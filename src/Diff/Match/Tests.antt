-- ===== src/Diff/Match/Tests.antt =====
-- Names that the cut makes one, and the pairing of a cut name.
use pgdesign.Base.{
  ℕ, zero, suc, Text, List, [], ◌∷◌, ◌++◌, true, ◌≡◌, ◌≢◌, ◌↔◌, ◌⊎◌, refl, In, inl, bytes, elem,
  text_eq, text_lt, sort_texts, take, map, IsStrict, length, ◌≤◌,
}
use pgdesign.Diff.Match.{
  truncate_ident, truncation_collisions, group_names, push_group, group_keys, group_at,
  dedupe_sorted, report_collisions, Pair, match_objects, match_objects_trunc, by_key, resolve,
  resolve_trunc, match_loop, add_object, unmarked,
}
use pgdesign.Diff.Match.Collisions.{cut_of, truncation_collisions_correct}
use pgdesign.Diff.Match.Truncated.{
  IsAbsent, match_objects_trunc_correct, match_objects_trunc_injective,
}

abbrev repeated : ℕ → Text
repeated zero = []
repeated (suc n) = b'x' ∷ repeated n

-- 62 times x, then a tail.
abbrev long : Text → Text
long tail = repeated 62 ++ tail

abbrev same : Text → Text
same k = k

abbrev short_names : List Text
short_names = bytes "a" ∷ bytes "b" ∷ []

abbrev wanted : List Text
wanted = long (bytes "yz") ∷ bytes "b" ∷ bytes "c" ∷ []

abbrev stored : List Text
stored = long (bytes "y") ∷ bytes "b" ∷ bytes "d" ∷ []

collision :
    truncation_collisions (long (bytes "yz") ∷ long (bytes "yw") ∷ [])
    ≡ (long (bytes "y"), long (bytes "yw") ∷ long (bytes "yz") ∷ []) ∷ []
unfolding truncation_collisions group_names push_group group_keys group_at dedupe_sorted
    report_collisions truncate_ident text_eq elem sort_texts text_lt
collision = refl

no_collision : truncation_collisions wanted ≡ []
unfolding truncation_collisions group_names push_group group_keys group_at dedupe_sorted
    report_collisions truncate_ident text_eq elem sort_texts text_lt
no_collision = refl

exact_added : (match_objects same wanted stored).added ≡ long (bytes "yz") ∷ bytes "c" ∷ []
unfolding match_objects by_key resolve match_loop add_object unmarked text_eq elem
exact_added = refl

cut_added : (match_objects_trunc same wanted stored).added ≡ bytes "c" ∷ []
unfolding match_objects_trunc by_key resolve_trunc match_loop add_object unmarked text_eq elem
    truncate_ident
cut_added = refl

cut_removed : (match_objects_trunc same wanted stored).removed ≡ bytes "d" ∷ []
unfolding match_objects_trunc by_key resolve_trunc match_loop add_object unmarked text_eq elem
    truncate_ident
cut_removed = refl

abbrev cut_pair : Pair Text
cut_pair = record { desired = long (bytes "yz"); actual = long (bytes "y") }

In-cut_pair : In cut_pair (match_objects_trunc same wanted stored).matched
unfolding match_objects_trunc by_key resolve_trunc match_loop add_object unmarked text_eq elem
    truncate_ident
In-cut_pair = inl refl

abbrev clashing : List Text
clashing = long (bytes "yz") ∷ bytes "a" ∷ long (bytes "yw") ∷ []

truncation_collisions_correct_example :
    IsStrict (map cut_of (truncation_collisions clashing))
    × ((t : Text) (group : List Text)
        → In (t, group) (truncation_collisions clashing)
        → IsStrict group
          × (2 ≤ length group)
          × ((n : Text) → (elem n group ≡ true) ↔ (elem n clashing ≡ true) × (take 63 n ≡ t)))
    × ((a b : Text)
        → elem a clashing ≡ true
        → elem b clashing ≡ true
        → take 63 a ≡ take 63 b
        → a ≢ b
        → (group : List Text) × In (take 63 a, group) (truncation_collisions clashing))
truncation_collisions_correct_example = truncation_collisions_correct clashing

match_objects_trunc_injective_example : long (bytes "yz") ≡ long (bytes "yz")
match_objects_trunc_injective_example =
    match_objects_trunc_injective same wanted stored no_collision cut_pair cut_pair In-cut_pair
      In-cut_pair refl

match_objects_trunc_correct_example :
    ((p : Pair Text)
      → In p (match_objects_trunc same wanted stored).matched
      → In p.desired wanted
        × In p.actual stored
        × ((p.actual ≡ p.desired)
            ⊎ IsAbsent same stored p.desired × (p.actual ≡ take 63 p.desired)))
    × ((d : Text)
        → In d wanted
        → In d (match_objects_trunc same wanted stored).added
          ⊎ ((p : Pair Text) × In p (match_objects_trunc same wanted stored).matched
              × (p.desired ≡ d)))
    × ((d : Text)
        → In d (match_objects_trunc same wanted stored).added
          ↔ In d wanted × IsAbsent same stored d × IsAbsent same stored (take 63 d))
    × ((a : Text)
        → In a (match_objects_trunc same wanted stored).removed
          ↔ In a stored
            × ((p : Pair Text)
                → In p (match_objects_trunc same wanted stored).matched
                → p.actual ≢ a))
match_objects_trunc_correct_example = match_objects_trunc_correct same wanted stored
