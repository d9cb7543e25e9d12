-- ===== src/Topo/Start.antt =====
-- internal/graph/topo.go, TopoSort: the queue at the start of its loop.
use pgdesign.Base.{
  ℕ, zero, suc, ◌+◌, ◌<◌, List, [], ◌∷◌, true, false, inl, inr, ◌≡◌, refl, arith, Bool-cases,
  length, get_or, ◌==◌, ==_iff, subst, ◌∙◌,
}
use pgdesign.Topo.{zeros}
use pgdesign.Topo.Count.{has, times, Distinct}
use pgdesign.Topo.Queue.{Holds}

zeros_at :
    (k : ℕ) (degrees : List ℕ) (i : ℕ)
    → has i (zeros k degrees) ≡ true
    → (m : ℕ) × (i ≡ k + m) × (m < length degrees) × (get_or degrees m 1 ≡ 0)
unfolding zeros has
zeros_at k [] i h = cc
zeros_at k (v ∷ degrees) i h = elim (Bool-cases (v == 0)) [
  | inl e ↦ elim (Bool-cases (i == k)) [
    | inl s ↦ (0, (==_iff i k).0 s ∙ omega arith, omega arith, (==_iff v 0).0 e)
    | inr s ↦
        let (m, at, b, z) = zeros_at (suc k) degrees i (rw (e, s) at h) in
        (suc m, omega (arith, at), omega (arith, b), z)
  ]
  | inr e ↦
      let (m, at, b, z) = zeros_at (suc k) degrees i (rw e at h) in
      (suc m, omega (arith, at), omega (arith, b), z)
]

has-zeros :
    (k m : ℕ) (degrees : List ℕ)
    → m < length degrees
    → get_or degrees m 1 ≡ 0
    → has (k + m) (zeros k degrees) ≡ true
unfolding zeros has
has-zeros k m [] b z = let nothing : ⊥ = omega (arith, b) in elim nothing [ ]
has-zeros k zero (v ∷ degrees) b z = ground arith
has-zeros k (suc m) (v ∷ degrees) b z =
    let shift : suc k + m ≡ k + suc m = omega arith in
    let rest : has (k + suc m) (zeros (suc k) degrees) ≡ true =
      subst (λ i. has i (zeros (suc k) degrees) ≡ true) shift
        (has-zeros (suc k) m degrees (omega (arith, b)) z) in
    ground arith

zeros-Distinct : (k : ℕ) (degrees : List ℕ) → Distinct (zeros k degrees)
unfolding zeros Distinct
zeros-Distinct k [] = tt
zeros-Distinct k (v ∷ degrees) = elim (Bool-cases (v == 0)) [
  | inl e ↦
      let fresh : has k (zeros (suc k) degrees) ≡ false =
        elim (Bool-cases (has k (zeros (suc k) degrees))) [
          | inl m ↦
              let (j, at, _, _) = zeros_at (suc k) degrees k m in
              let never : ⊥ = omega (arith, at) in elim never [ ]
          | inr f ↦ f
        ] in
      rw e (fresh, zeros-Distinct (suc k) degrees)
  | inr e ↦ rw e (zeros-Distinct (suc k) degrees)
]

-- The loop starts with the items without dependencies.
pub zeros-Holds :
    (n : ℕ) (p : ℕ → ℕ) (degrees : List ℕ)
    → length degrees ≡ n
    → ((i : ℕ) → i < n → get_or degrees i 1 ≡ p i)
    → Holds n p [] (zeros 0 degrees) degrees []
unfolding times has
zeros-Holds n p degrees len counts = record {
  len = len;
  counts = λ i b. omega (arith, counts i b);
  ready = λ i b z.
      let here : has (0 + i) (zeros 0 degrees) ≡ true =
        has-zeros 0 i degrees (omega (arith, b, len)) (omega (arith, counts i b, z)) in
      let same : 0 + i ≡ i = omega arith in
      let there = subst (λ j. has j (zeros 0 degrees) ≡ true) same here in ground arith;
  only = λ i m.
      let (j, at, b, z) = zeros_at 0 degrees i m in
      let same : j ≡ i = omega (arith, at) in
      let value : get_or degrees i 1 ≡ 0 = subst (λ k. get_or degrees k 1 ≡ 0) same z in
      let small : i < n = omega (arith, b, same, len) in
      (small, refl, omega (arith, counts i small, value));
  done = λ i m. cc;
  distinct = zeros-Distinct 0 degrees;
}
