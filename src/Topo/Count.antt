-- ===== src/Topo/Count.antt =====
-- Lists of positions, and cells that are updated, for the topological sort.
use pgdesign.Base.{
  ℕ, zero, suc, ◌+◌, ◌≤◌, ◌<◌, List, [], ◌∷◌, ◌++◌, Bool, true, false, ◌||◌, inl, inr, ◌≡◌, refl,
  arith, Bool-cases, if◌then◌else◌, length, get_or, ◌==◌, ==_iff, subst, sym, ◌∙◌, ap,
}
use pgdesign.Topo.{modify}

unfoldable pub has : ℕ → List ℕ → Bool
has a [] = false
has a (x ∷ xs) = a == x || has a xs

pub has-append : (a : ℕ) (xs ys : List ℕ) → has a (xs ++ ys) ≡ (has a xs || has a ys)
unfolding has
has-append a [] ys = refl
has-append a (x ∷ xs) ys = ground (arith, has-append a xs ys)

-- How often a number is in a list.
unfoldable pub times : ℕ → List ℕ → ℕ
times i [] = 0
times i (j ∷ js) = (if i == j then 1 else 0) + times i js

unfoldable pub Distinct : List ℕ → Type 0
Distinct [] = Unit
Distinct (x ∷ xs) = (has x xs ≡ false) × Distinct xs

pub Distinct-push :
    (xs : List ℕ) (i : ℕ) → has i xs ≡ false → Distinct xs → Distinct (xs ++ (i ∷ []))
unfolding Distinct has
Distinct-push [] i h d = (refl, tt)
Distinct-push (x ∷ xs) i h (f, d) =
    (has-append x xs (i ∷ []) ∙ ground arith, Distinct-push xs i (ground arith) d)

-- The numbers below `n` that are not in the list.
unfoldable pub left : ℕ → List ℕ → ℕ
left zero out = 0
left (suc k) out = (if has k out then 0 else 1) + left k out

pub left_le : (n : ℕ) → left n [] ≤ n
unfolding left has
left_le zero = omega arith
left_le (suc k) = omega (arith, left_le k)

left-skip : (n idx : ℕ) (out : List ℕ) → n ≤ idx → left n (idx ∷ out) ≡ left n out
unfolding left has
left-skip zero idx out h = refl
left-skip (suc k) idx out h = ground (arith, left-skip k idx out (omega (arith, h)))

pub left-cons :
    (n idx : ℕ) (out : List ℕ)
    → idx < n
    → has idx out ≡ false
    → suc (left n (idx ∷ out)) ≡ left n out
unfolding left has
left-cons zero idx out h f = omega (arith, h)
left-cons (suc k) idx out h f = elim (Bool-cases (idx == k)) [
  | inl e ↦
      let same : idx ≡ k = (==_iff idx k).0 e in
      ground
        (arith, left-skip k idx out (omega (arith, same)), subst (λ j. has j out ≡ false) same f)
  | inr e ↦ ground (arith, left-cons k idx out (ground arith) f)
]

pub left_zero : (n i : ℕ) (out : List ℕ) → left n out ≡ 0 → i < n → has i out ≡ true
unfolding left
left_zero zero i out z h = let none_below : ⊥ = omega (arith, h) in elim none_below [ ]
left_zero (suc k) i out z h = elim (Bool-cases (i == k)) [
  | inl e ↦
      let same : k ≡ i = sym ((==_iff i k).0 e) in subst (λ j. has j out ≡ true) same (ground arith)
  | inr e ↦ left_zero k i out (omega (arith, z)) (ground arith)
]

pub get_or-modify_same :
    (f : ℕ → ℕ) (i : ℕ) (xs : List ℕ) (d : ℕ)
    → i < length xs
    → get_or (modify f i xs) i d ≡ f (get_or xs i d)
unfolding modify
get_or-modify_same f i [] d h = omega (arith, h)
get_or-modify_same f zero (x ∷ xs) d h = refl
get_or-modify_same f (suc i) (x ∷ xs) d h = get_or-modify_same f i xs d (omega (arith, h))

pub get_or-modify_other :
    {A : Type 0} (f : A → A) (i j : ℕ) (xs : List A) (d : A)
    → (i == j) ≡ false
    → get_or (modify f i xs) j d ≡ get_or xs j d
unfolding modify
get_or-modify_other f i j [] d h = refl
get_or-modify_other f zero zero (x ∷ xs) d h = cc
get_or-modify_other f zero (suc j) (x ∷ xs) d h = refl
get_or-modify_other f (suc i) zero (x ∷ xs) d h = refl
get_or-modify_other f (suc i) (suc j) (x ∷ xs) d h = get_or-modify_other f i j xs d (ground arith)

pub length-modify :
    {A : Type 0} (f : A → A) (i : ℕ) (xs : List A) → length (modify f i xs) ≡ length xs
unfolding modify
length-modify f i [] = refl
length-modify f zero (x ∷ xs) = refl
length-modify f (suc i) (x ∷ xs) = ap suc (length-modify f i xs)

pub get_or_default : (xs : List ℕ) (i d e : ℕ) → i < length xs → get_or xs i d ≡ get_or xs i e
get_or_default [] i d e h = omega (arith, h)
get_or_default (x ∷ xs) zero d e h = refl
get_or_default (x ∷ xs) (suc i) d e h = get_or_default xs i d e (omega (arith, h))

pub left_nil : (n : ℕ) → left n [] ≡ n
unfolding left has
left_nil zero = refl
left_nil (suc k) = omega (arith, left_nil k)

-- Distinct numbers below `n` are as many as are no longer left.
pub left-length :
    (n : ℕ) (xs : List ℕ)
    → Distinct xs
    → ((i : ℕ) → has i xs ≡ true → i < n)
    → left n xs + length xs ≡ n
unfolding Distinct has
left-length n [] d b = omega (arith, left_nil n)
left-length n (x ∷ xs) (f, d) b =
    let rest = left-length n xs d (λ i h. b i (ground arith)) in
    let one = left-cons n x xs (b x (ground arith)) f in omega (arith, rest, one)

pub left_none : (n : ℕ) (xs : List ℕ) → ((i : ℕ) → i < n → has i xs ≡ true) → left n xs ≡ 0
unfolding left
left_none zero xs h = refl
left_none (suc k) xs h =
    let this = h k (omega arith) in
    let rest = left_none k xs (λ i b. h i (omega (arith, b))) in ground arith
