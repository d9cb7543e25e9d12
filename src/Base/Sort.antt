-- ===== src/Base/Sort.antt =====
-- `sort.Strings` and `sort.SearchStrings` of Go's standard library on lists of texts. Equal texts
-- are the same value, so the sorted list does not depend on the algorithm.
use Prim.Native.Nat.{ℕ, zero, suc, ◌+◌, ◌-◌, ◌/◌, ◌≤◌, ◌<◌}
use mathlib.Core.Path.{◌≡◌, refl, ap}
use mathlib.Core.Logic.{◌⊎◌, inl, inr}
use mathlib.Core.Bool.{Bool, true, ◌||◌}
use mathlib.Core.List.{List, [], ◌∷◌, ◌++◌}
use native.Mathlib.Omega.{arith}
use pgdesign.Base.Tests.{ltb, if◌then◌else◌, Bool-cases}
use pgdesign.Base.Lists.{length, get_or, All, In}
use pgdesign.Base.Texts.{
  Text, text_eq, text_lt, text_le, elem, text_eq_iff, text_eq_refl, text_le_trans, text_le_refl,
  text_le_of_lt, text_lt_of_le_lt,
}

unfoldable pub insert_text : Text → List Text → List Text
insert_text x [] = x ∷ []
insert_text x (y ∷ ys) = if text_lt y x then y ∷ insert_text x ys else x ∷ y ∷ ys

unfoldable pub sort_texts : List Text → List Text
unfolding insert_text
sort_texts [] = []
sort_texts (x ∷ xs) = insert_text x (sort_texts xs)

abbrev pub IsSorted : List Text → Type 0
IsSorted [] = Unit
IsSorted (x ∷ xs) = All (λ y. text_le x y ≡ true) xs × IsSorted xs

pub elem-append : (a : Text) (xs ys : List Text) → elem a (xs ++ ys) ≡ (elem a xs || elem a ys)
unfolding elem
elem-append a [] ys = refl
elem-append a (x ∷ xs) ys = ground (arith, elem-append a xs ys)

pub elem-insert_text :
    (a x : Text) (xs : List Text) → elem a (insert_text x xs) ≡ (text_eq a x || elem a xs)
unfolding elem insert_text
elem-insert_text a x [] = refl
elem-insert_text a x (y ∷ ys) = ground (arith, elem-insert_text a x ys)

-- Sorting keeps the members.
pub elem-sort_texts : (a : Text) (xs : List Text) → elem a (sort_texts xs) ≡ elem a xs
unfolding elem sort_texts
elem-sort_texts a [] = refl
elem-sort_texts a (x ∷ xs) = rw (elem-insert_text, elem-sort_texts a xs)

pub length-insert_text : (x : Text) (xs : List Text) → length (insert_text x xs) ≡ suc (length xs)
unfolding insert_text
length-insert_text x [] = refl
length-insert_text x (y ∷ ys) = ground (arith, length-insert_text x ys)

pub length-sort_texts : (xs : List Text) → length (sort_texts xs) ≡ length xs
unfolding sort_texts
length-sort_texts [] = refl
length-sort_texts (x ∷ xs) = rw length-insert_text (ap suc (length-sort_texts xs))

All-le_trans :
    (x y : Text) (ys : List Text)
    → text_le x y ≡ true
    → All (λ z. text_le y z ≡ true) ys
    → All (λ z. text_le x z ≡ true) ys
All-le_trans x y [] h k = tt
All-le_trans x y (z ∷ zs) h k = (text_le_trans x y z h k.0, All-le_trans x y zs h k.1)

All-le-insert_text :
    (y x : Text) (xs : List Text)
    → text_le y x ≡ true
    → All (λ z. text_le y z ≡ true) xs
    → All (λ z. text_le y z ≡ true) (insert_text x xs)
unfolding insert_text
All-le-insert_text y x [] h k = (h, tt)
All-le-insert_text y x (z ∷ zs) h k = elim (Bool-cases (text_lt z x)) [
  | inl e ↦ rw e (k.0, All-le-insert_text y x zs h k.1)
  | inr e ↦ rw e (h, k)
]

insert_text-IsSorted : (x : Text) (xs : List Text) → IsSorted xs → IsSorted (insert_text x xs)
unfolding insert_text
insert_text-IsSorted x [] h = (tt, tt)
insert_text-IsSorted x (y ∷ ys) h = elim (Bool-cases (text_lt y x)) [
  | inl e ↦
      rw e (All-le-insert_text y x ys (text_le_of_lt y x e) h.0, insert_text-IsSorted x ys h.1)
  | inr e ↦ rw e ((rw e, All-le_trans x y ys (rw e) h.0), h)
]

pub sort_texts-IsSorted : (xs : List Text) → IsSorted (sort_texts xs)
unfolding sort_texts
sort_texts-IsSorted [] = tt
sort_texts-IsSorted (x ∷ xs) = insert_text-IsSorted x (sort_texts xs) (sort_texts-IsSorted xs)

-- A sorted list is not changed by sorting.
insert_text-of_le :
    (x : Text) (xs : List Text) → All (λ y. text_le x y ≡ true) xs → insert_text x xs ≡ x ∷ xs
unfolding insert_text
insert_text-of_le x [] h = refl
insert_text-of_le x (y ∷ ys) h = ground arith

pub sort_texts-of_IsSorted : (xs : List Text) → IsSorted xs → sort_texts xs ≡ xs
unfolding sort_texts
sort_texts-of_IsSorted [] h = refl
sort_texts-of_IsSorted (x ∷ xs) h = rw (sort_texts-of_IsSorted xs h.1) (insert_text-of_le x xs h.0)

-- `sort.Search` over the half-open range [i, j), on fuel; the callers give the length.
unfoldable pub search_loop : ℕ → List Text → Text → ℕ → ℕ → ℕ
search_loop zero xs x i j = i
search_loop (suc f) xs x i j =
    let h = (i + j) / 2 in
    let low = search_loop f xs x i h in
    let high = search_loop f xs x (h + 1) j in
    if ltb i j then if text_le x (get_or xs h []) then low else high else i

unfoldable pub search_texts : List Text → Text → ℕ
unfolding search_loop
search_texts xs x = search_loop (length xs) xs x 0 (length xs)

-- Sortedness by positions.
abbrev pub IsOrdered : List Text → Type 0
IsOrdered xs = (m k : ℕ) → m ≤ k → k < length xs → text_le (get_or xs m []) (get_or xs k []) ≡ true

All-get_or :
    (x : Text) (xs : List Text) (k : ℕ)
    → All (λ y. text_le x y ≡ true) xs
    → k < length xs
    → text_le x (get_or xs k []) ≡ true
All-get_or x [] k h l = absurd (omega arith)
All-get_or x (y ∷ ys) zero h l = h.0
All-get_or x (y ∷ ys) (suc k) h l = All-get_or x ys k h.1 (omega arith)

pub IsSorted-IsOrdered : (xs : List Text) → IsSorted xs → IsOrdered xs
IsSorted-IsOrdered [] h m k p q = absurd (omega arith)
IsSorted-IsOrdered (x ∷ xs) h zero zero p q = text_le_refl x
IsSorted-IsOrdered (x ∷ xs) h zero (suc k) p q = All-get_or x xs k h.0 (omega arith)
IsSorted-IsOrdered (x ∷ xs) h (suc m) zero p q = absurd (omega arith)
IsSorted-IsOrdered (x ∷ xs) h (suc m) (suc k) p q =
    IsSorted-IsOrdered xs h.1 m k (omega arith) (omega arith)

-- What `r` is to be: all before it is smaller, all from it on is not.
pub record Splits (xs : List Text) (x : Text) (r : ℕ) : Type 0 where
  pub inside : r ≤ length xs
  pub below : (m : ℕ) → m < r → text_lt (get_or xs m []) x ≡ true
  pub above : (m : ℕ) → r ≤ m → m < length xs → text_le x (get_or xs m []) ≡ true

search_loop_lem :
    (f : ℕ) (xs : List Text) (x : Text) (i j : ℕ)
    → IsOrdered xs
    → i ≤ j
    → j ≤ length xs
    → j - i ≤ f
    → ((m : ℕ) → m < i → text_lt (get_or xs m []) x ≡ true)
    → ((m : ℕ) → j ≤ m → m < length xs → text_le x (get_or xs m []) ≡ true)
    → Splits xs x (search_loop f xs x i j)
unfolding search_loop
search_loop_lem zero xs x i j o ij jn fuel lo hi = record {
  inside = omega arith;
  below = lo;
  above = λ m p q. hi m (omega arith) q;
}
search_loop_lem (suc f) xs x i j o ij jn fuel lo hi = elim (Bool-cases (ltb i j)) [
  | inl lt ↦ elim (Bool-cases (text_le x (get_or xs ((i + j) / 2) []))) [
    | inl le ↦
        rw (lt, le)
          (search_loop_lem f xs x i ((i + j) / 2) o (ground arith) (ground arith) (ground arith) lo
            (λ m p q.
              text_le_trans x (get_or xs ((i + j) / 2) []) (get_or xs m []) le
                (o ((i + j) / 2) m p q)))
    | inr gt ↦
        rw (lt, gt)
          (search_loop_lem f xs x ((i + j) / 2 + 1) j o (ground arith) jn (ground arith)
            (λ m p.
              text_lt_of_le_lt (get_or xs m []) (get_or xs ((i + j) / 2) []) x
                (o m ((i + j) / 2) (omega arith) (ground arith)) (ground arith))
            hi)
  ]
  | inr ge ↦
      rw ge (record { inside = omega arith; below = lo; above = λ m p q. hi m (ground arith) q })
]

pub search_texts_lem : (xs : List Text) (x : Text) → IsSorted xs → Splits xs x (search_texts xs x)
unfolding search_texts
search_texts_lem xs x h =
    search_loop_lem (length xs) xs x 0 (length xs) (IsSorted-IsOrdered xs h) (omega arith)
      (omega arith) (omega arith) (λ m p. absurd (omega arith)) (λ m p q. absurd (omega arith))

-- Every member has what every item has, and the other way round.
pub All-of_elem :
    (P : Text → Type 0) (l : List Text) → ((y : Text) → elem y l ≡ true → P y) → All P l
unfolding elem
All-of_elem P [] h = tt
All-of_elem P (x ∷ l) h =
    (h x (ground (arith, text_eq_refl x)), All-of_elem P l (λ y e. h y (ground arith)))

pub elem-All : (P : Text → Type 0) (l : List Text) (y : Text) → All P l → elem y l ≡ true → P y
unfolding elem
elem-All P [] y h e = cc
elem-All P (x ∷ l) y h e = elim (Bool-cases (text_eq y x)) [
  | inl q ↦ rw ((text_eq_iff y x).0 q) h.0
  | inr q ↦ elem-All P l y h.1 (rw q at e)
]

-- Sorted, and without duplicates.
abbrev pub IsStrict : List Text → Type 0
IsStrict [] = Unit
IsStrict (x ∷ xs) = All (λ y. text_lt x y ≡ true) xs × IsStrict xs

-- Insertion sort by a test, for `sort.Slice`.
module _ {A : Type 0} (less : A → A → Bool) where
  unfoldable pub insert_by : A → List A → List A
  insert_by x [] = x ∷ []
  insert_by x (y ∷ ys) = if less y x then y ∷ insert_by x ys else x ∷ y ∷ ys

  unfoldable pub sort_by : List A → List A
  unfolding insert_by
  sort_by [] = []
  sort_by (x ∷ xs) = insert_by x (sort_by xs)

  In-insert_by : (a x : A) (xs : List A) → In a (insert_by x xs) → (a ≡ x) ⊎ In a xs
  unfolding insert_by
  In-insert_by a x [] h = h
  In-insert_by a x (y ∷ ys) h = ground (arith, In-insert_by a x ys)

  insert_by-In : (a x : A) (xs : List A) → (a ≡ x) ⊎ In a xs → In a (insert_by x xs)
  unfolding insert_by
  insert_by-In a x [] h = h
  insert_by-In a x (y ∷ ys) h = ground (arith, insert_by-In a x ys)

  -- Sorting keeps the items.
  pub In-sort_by : (a : A) (xs : List A) → In a (sort_by xs) → In a xs
  unfolding sort_by
  In-sort_by a [] h = h
  In-sort_by a (x ∷ xs) h = elim (In-insert_by a x (sort_by xs) h) [
    | inl e ↦ inl e
    | inr m ↦ inr (In-sort_by a xs m)
  ]

  pub sort_by-In : (a : A) (xs : List A) → In a xs → In a (sort_by xs)
  unfolding sort_by
  sort_by-In a [] h = h
  sort_by-In a (x ∷ xs) (inl e) = insert_by-In a x (sort_by xs) (inl e)
  sort_by-In a (x ∷ xs) (inr m) = insert_by-In a x (sort_by xs) (inr (sort_by-In a xs m))
