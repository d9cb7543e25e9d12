-- ===== src/Topo/Emitted.antt =====
-- internal/graph/topo.go, TopoSort: the positions that the loop of the queue emits.
use pgdesign.Base.{
  ℕ, zero, suc, ◌<◌, List, [], ◌∷◌, ◌++◌, map, true, false, In, inl, inr, ◌≡◌, refl, arith,
  Bool-cases, length, get_or, ◌==◌, ==_iff, subst, sym, ◌∙◌, ap,
}
use pgdesign.Topo.Count.{has, has-append, Distinct}
use pgdesign.Topo.Drain.{Emits}
use pgdesign.Topo.Depends.{pending-waits}

-- What the emitted items are.
module _ (n : ℕ) (edges : List (ℕ × ℕ)) where
  pub Emits-fresh :
      (out order : List ℕ)
      → Emits n edges out order
      → (i : ℕ) → has i order ≡ true
      → (i < n) × (has i out ≡ false)
  unfolding Emits has
  Emits-fresh out [] e i m = cc
  Emits-fresh out (j ∷ order) (b, f, z, e) i m = elim (Bool-cases (i == j)) [
    | inl s ↦
        let same : j ≡ i = sym ((==_iff i j).0 s) in
        (subst (λ k. k < n) same b, subst (λ k. has k out ≡ false) same f)
    | inr s ↦ let (c, g) = Emits-fresh (j ∷ out) order e i (ground arith) in (c, ground arith)
  ]

  pub Emits-Distinct : (out order : List ℕ) → Emits n edges out order → Distinct order
  unfolding Emits Distinct has
  Emits-Distinct out [] e = tt
  Emits-Distinct out (j ∷ order) (b, f, z, e) = (
    elim (Bool-cases (has j order)) [
      | inl m ↦
          let (c, g) = Emits-fresh (j ∷ out) order e j m in
          let same = (==_iff j j).1 refl in ground arith
      | inr g ↦ g
    ],
    Emits-Distinct (j ∷ out) order e,
  )

  pub Emits-waits :
      (out order : List ℕ) (i : ℕ)
      → Emits n edges out order
      → i < n
      → has i order ≡ false
      → has i out ≡ false
      → (d : ℕ) × In (d, i) edges × (has d order ≡ false) × (has d out ≡ false)
  unfolding Emits has
  Emits-waits out [] i e b f g =
      let (d, m, h) = pending-waits edges out i (λ z. cc (e i b z, g)) in (d, m, refl, h)
  Emits-waits out (j ∷ order) i (c, x, z, e) b f g =
      let (d, m, h, k) = Emits-waits (j ∷ out) order i e b (ground arith) (ground arith) in
      (d, m, ground arith, ground arith)

pub length-map : {A B : Type 0} (f : A → B) (xs : List A) → length (map f xs) ≡ length xs
length-map f [] = refl
length-map f (x ∷ xs) = ap suc (length-map f xs)

pub get_or-map :
    {A B : Type 0} (v d : B) (xs : List A) (i : ℕ)
    → i < length xs
    → get_or (map (λ x. v) xs) i d ≡ v
get_or-map v d [] i h = let nothing : ⊥ = omega (arith, h) in elim nothing [ ]
get_or-map v d (x ∷ xs) zero h = refl
get_or-map v d (x ∷ xs) (suc i) h = get_or-map v d xs i (omega (arith, h))

pub empty_list : (xs : List ℕ) → length xs ≡ 0 → xs ≡ []
empty_list [] h = refl
empty_list (x ∷ xs) h = let nothing : ⊥ = omega (arith, h) in elim nothing [ ]

pub Distinct-append :
    (xs ys : List ℕ)
    → Distinct xs
    → Distinct ys
    → ((i : ℕ) → has i xs ≡ true → has i ys ≡ false)
    → Distinct (xs ++ ys)
unfolding Distinct has
Distinct-append [] ys d e apart = e
Distinct-append (x ∷ xs) ys (f, d) e apart = (
  has-append x xs ys ∙ (let g = apart x (ground arith) in ground arith),
  Distinct-append xs ys d e (λ i m. apart i (ground arith)),
)
