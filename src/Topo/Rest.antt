-- ===== src/Topo/Rest.antt =====
-- internal/graph/topo.go, TopoSort: the items that the loop of the queue does not emit.
use pgdesign.Base.{
  ℕ, zero, suc, ◌+◌, ◌<◌, List, [], ◌∷◌, ◌++◌, Bool, true, false, ◌||◌, some, inl, inr, ◌≡◌, refl,
  arith, Bool-cases, Option-cases, if◌then◌else◌, length, get_or, get_elem?, set, ◌==◌, ==_iff,
  subst, ◌∙◌, ap,
}
use pgdesign.Topo.{items_at, left_over, mark_all}
use pgdesign.Topo.Count.{has, Distinct}

-- The positions without a mark, from position `k` on.
unfoldable pub free_positions : ℕ → List Bool → List ℕ
free_positions k [] = []
free_positions k (b ∷ marks) =
    let rest = free_positions (suc k) marks in if b then rest else k ∷ rest

pub has-free_positions :
    (k : ℕ) (marks : List Bool) (i : ℕ)
    → has i (free_positions k marks) ≡ true
    → (m : ℕ) × (i ≡ k + m) × (m < length marks) × (get_or marks m true ≡ false)
unfolding has free_positions
has-free_positions k [] i h = cc
has-free_positions k (true ∷ marks) i h =
    let (m, at, b, f) = has-free_positions (suc k) marks i h in
    (suc m, omega (arith, at), omega (arith, b), f)
has-free_positions k (false ∷ marks) i h = elim (Bool-cases (i == k)) [
  | inl e ↦ (0, (==_iff i k).0 e ∙ omega arith, omega arith, refl)
  | inr e ↦
      let (m, at, b, f) = has-free_positions (suc k) marks i (rw e at h) in
      (suc m, omega (arith, at), omega (arith, b), f)
]

pub free_positions-has :
    (k : ℕ) (marks : List Bool) (m : ℕ)
    → m < length marks
    → get_or marks m true ≡ false
    → has (k + m) (free_positions k marks) ≡ true
unfolding has free_positions
free_positions-has k [] m b f = cc
free_positions-has k (true ∷ marks) zero b f = cc
free_positions-has k (false ∷ marks) zero b f = ground arith
free_positions-has k (true ∷ marks) (suc m) b f =
    let shift : suc k + m ≡ k + suc m = omega arith in
    subst (λ i. has i (free_positions (suc k) marks) ≡ true) shift
      (free_positions-has (suc k) marks m (omega (arith, b)) f)
free_positions-has k (false ∷ marks) (suc m) b f =
    let shift : suc k + m ≡ k + suc m = omega arith in
    let rest =
      subst (λ i. has i (free_positions (suc k) marks) ≡ true) shift
        (free_positions-has (suc k) marks m (omega (arith, b)) f) in
    ground arith

pub free_positions-Distinct : (k : ℕ) (marks : List Bool) → Distinct (free_positions k marks)
unfolding Distinct free_positions
free_positions-Distinct k [] = tt
free_positions-Distinct k (true ∷ marks) = free_positions-Distinct (suc k) marks
free_positions-Distinct k (false ∷ marks) = (
  elim (Bool-cases (has k (free_positions (suc k) marks))) [
    | inl h ↦
        let (m, at, b, f) = has-free_positions (suc k) marks k h in
        let never : ⊥ = omega (arith, at) in elim never [ ]
    | inr f ↦ f
  ],
  free_positions-Distinct (suc k) marks,
)

length-set : (marks : List Bool) (i : ℕ) → length (set marks i true) ≡ length marks
length-set [] i = refl
length-set (b ∷ marks) zero = refl
length-set (b ∷ marks) (suc i) = ap suc (length-set marks i)

set_get :
    (marks : List Bool) (i j : ℕ)
    → get_or (set marks i true) j true ≡ (j == i || get_or marks j true)
set_get [] i j = ground arith
set_get (b ∷ marks) zero zero = ground arith
set_get (b ∷ marks) zero (suc j) = ground arith
set_get (b ∷ marks) (suc i) zero = ground arith
set_get (b ∷ marks) (suc i) (suc j) = set_get marks i j ∙ ground arith

pub mark_all-length :
    (order : List ℕ) (marks : List Bool) → length (mark_all order marks) ≡ length marks
unfolding mark_all
mark_all-length [] marks = refl
mark_all-length (i ∷ order) marks = mark_all-length order (set marks i true) ∙ length-set marks i

pub mark_all-get :
    (order : List ℕ) (marks : List Bool) (j : ℕ)
    → get_or (mark_all order marks) j true ≡ (has j order || get_or marks j true)
unfolding mark_all has
mark_all-get [] marks j = refl
mark_all-get (i ∷ order) marks j =
    let rest = mark_all-get order (set marks i true) j in
    let one = set_get marks i j in ground arith

module _ {T : Type 0} where
  pub items_at-append :
      (items : List T) (xs ys : List ℕ)
      → items_at items (xs ++ ys) ≡ items_at items xs ++ items_at items ys
  unfolding items_at
  items_at-append items [] ys = refl
  items_at-append items (i ∷ xs) ys = elim (Option-cases (get_elem? items i)) [
    | inl e ↦ rw (e, items_at) (items_at-append items xs ys)
    | inr (x, e) ↦ rw (e, items_at) (ap (λ l. x ∷ l) (items_at-append items xs ys))
  ]

  pub position_of :
      (items : List T) (i : ℕ) → i < length items → (x : T) × (get_elem? items i ≡ some x)
  position_of [] i h = let nothing : ⊥ = omega (arith, h) in elim nothing [ ]
  position_of (x ∷ items) zero h = (x, refl)
  position_of (x ∷ items) (suc i) h = position_of items i (omega (arith, h))

  pub position_below :
      (items : List T) (i : ℕ) (x : T) → get_elem? items i ≡ some x → i < length items
  position_below [] i x h = cc
  position_below (y ∷ items) zero x h = omega arith
  position_below (y ∷ items) (suc i) x h = omega (arith, position_below items i x h)

  pub items_at-length :
      (items : List T) (order : List ℕ)
      → ((i : ℕ) → has i order ≡ true → i < length items)
      → length (items_at items order) ≡ length order
  unfolding items_at has
  items_at-length items [] b = refl
  items_at-length items (i ∷ order) b =
      let (x, e) = position_of items i (b i (ground arith)) in
      rw (e, items_at) (ap suc (items_at-length items order (λ j h. b j (ground arith))))

  pub left_over-items_at :
      (items rest : List T) (k : ℕ) (marks : List Bool)
      → length marks ≡ length rest
      → ((m : ℕ) → get_elem? items (k + m) ≡ get_elem? rest m)
      → left_over marks rest ≡ items_at items (free_positions k marks)
  unfolding left_over items_at free_positions
  left_over-items_at items rest k [] h at = refl
  left_over-items_at items [] k (b ∷ marks) h at =
      let nothing : ⊥ = omega (arith, h) in elim nothing [ ]
  left_over-items_at items (x ∷ rest) k (b ∷ marks) h at =
      let shift : (m : ℕ) → k + suc m ≡ suc k + m = λ m. omega arith in
      let next =
        left_over-items_at items rest (suc k) marks (omega (arith, h))
          (λ m. subst (λ i. get_elem? items i ≡ get_elem? rest m) (shift m) (at (suc m))) in
      let zero_shift : k + 0 ≡ k = omega arith in
      let here : get_elem? items k ≡ some x =
        subst (λ i. get_elem? items i ≡ some x) zero_shift (at 0) in
      elim (Bool-cases b) [
        | inl e ↦ rw e next
        | inr e ↦ rw (e, here, items_at) (ap (λ l. x ∷ l) next)
      ]
