-- ===== src/Fd/Sets.antt =====
-- The set helpers at the middle of internal/fd/fd.go. A Go map used as a set is read by `elem`.
use pgdesign.Base.{
  ℕ, zero, suc, Text, List, [], ◌∷◌, ◌++◌, Bool, true, false, ◌&&◌, ltb, length, get_or, text_eq,
  elem, sort_texts, search_texts, if◌then◌else◌, ◌≡◌, refl, arith, IsSorted, search_texts_lem,
  text_eq_iff, text_eq_refl, Bool-cases, ◌<◌, text_le_antisymm, IsSorted-IsOrdered, inl, inr, bytes,
  text_lt_irrefl,
}

unfoldable pub is_subset : List Text → List Text → Bool
is_subset [] b = true
is_subset (v ∷ a) b = elem v b && is_subset a b

unfoldable pub contains : List Text → Text → Bool
contains sorted a =
    let i = search_texts sorted a in ltb i (length sorted) && text_eq (get_or sorted i []) a

-- The keys of a map that the texts were put into.
unfoldable pub map_keys : List Text → List Text
map_keys [] = []
map_keys (x ∷ xs) = let rest = map_keys xs in if elem x xs then rest else x ∷ rest

unfoldable pub set_union : List Text → List Text → List Text
unfolding map_keys
set_union a b = sort_texts (map_keys (a ++ b))

unfoldable pub set_equals : List Text → List Text → Bool
set_equals [] [] = true
set_equals (x ∷ xs) (y ∷ ys) = text_eq x y && set_equals xs ys
set_equals _ _ = false

unfoldable pub without : List Text → List Text → List Text
without [] b = []
without (v ∷ a) b = let rest = without a b in if elem v b then rest else v ∷ rest

unfoldable pub set_difference : List Text → List Text → List Text
unfolding without
set_difference a b = sort_texts (without a b)

unfoldable pub within : List Text → List Text → List Text
within [] b = []
within (v ∷ a) b = let rest = within a b in if elem v b then v ∷ rest else rest

unfoldable pub set_intersection : List Text → List Text → List Text
unfolding within
set_intersection a b = sort_texts (within a b)

unfoldable pub join_rest : Text → List Text → Text
join_rest sep [] = []
join_rest sep (a ∷ rest) = sep ++ (a ++ join_rest sep rest)

unfoldable pub join_attrs : List Text → Text
unfolding join_rest
join_attrs [] = []
join_attrs (a ∷ rest) = a ++ join_rest (bytes ",") rest

pub is_subset_elim :
    (a b : List Text) (x : Text) → is_subset a b ≡ true → elem x a ≡ true → elem x b ≡ true
unfolding is_subset elem
is_subset_elim [] b x h e = cc
is_subset_elim (v ∷ a) b x h e = ground (arith, is_subset_elim a b x, text_eq_iff x v)

pub elem_head : (x : Text) (a : List Text) → elem x (x ∷ a) ≡ true
unfolding elem
elem_head x a = ground (arith, text_eq_refl x)

pub elem_tail : (x y : Text) (a : List Text) → elem x a ≡ true → elem x (y ∷ a) ≡ true
unfolding elem
elem_tail x y a h = ground arith

pub is_subset_intro :
    (a b : List Text) → ((x : Text) → elem x a ≡ true → elem x b ≡ true) → is_subset a b ≡ true
unfolding is_subset
is_subset_intro [] b h = refl
is_subset_intro (v ∷ a) b h =
    ground (arith, h v (elem_head v a), is_subset_intro a b (λ x e. h x (elem_tail x v a e)))

elem-get_or : (xs : List Text) (i : ℕ) → i < length xs → elem (get_or xs i []) xs ≡ true
elem-get_or [] i h = absurd (omega arith)
elem-get_or (x ∷ xs) zero h = elem_head x xs
elem-get_or (x ∷ xs) (suc i) h = elem_tail (get_or xs i []) x xs (elem-get_or xs i (omega arith))

-- What the binary search finds is there, whether the list is sorted or not.
pub elem_of_contains : (xs : List Text) (a : Text) → contains xs a ≡ true → elem a xs ≡ true
unfolding contains
elem_of_contains xs a h =
    ground
      (arith, text_eq_iff (get_or xs (search_texts xs a) []) a, elem-get_or xs (search_texts xs a))

index_of :
    (xs : List Text) (a : Text)
    → elem a xs ≡ true
    → (k : ℕ) × (k < length xs) × (get_or xs k [] ≡ a)
unfolding elem
index_of [] a h = cc
index_of (x ∷ xs) a h = elim (Bool-cases (text_eq a x)) [
  | inl e ↦ (0, omega arith, ground (arith, text_eq_iff a x))
  | inr e ↦ let (k, lt, at) = index_of xs a (ground arith) in (suc k, omega arith, at)
]

-- In a sorted list it finds what is there.
pub contains_of_elem :
    (xs : List Text) (a : Text) → IsSorted xs → elem a xs ≡ true → contains xs a ≡ true
unfolding contains
contains_of_elem xs a s h =
    let (k, lt, at) = index_of xs a h in
    let sp = search_texts_lem xs a s in
    ground (
      arith,
      sp.inside,
      sp.below k,
      sp.above (search_texts xs a),
      at,
      text_lt_irrefl a,
      IsSorted-IsOrdered xs s (search_texts xs a) k,
      text_le_antisymm a (get_or xs (search_texts xs a) []),
      text_eq_iff (get_or xs (search_texts xs a) []) a,
    )
