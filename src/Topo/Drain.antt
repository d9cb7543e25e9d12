-- ===== src/Topo/Drain.antt =====
-- internal/graph/topo.go, TopoSort: what the loop of the queue emits.
use pgdesign.Base.{
  ℕ, zero, suc, ◌+◌, ◌≤◌, ◌<◌, List, [], ◌∷◌, true, false, inl, inr, ◌≡◌, arith, Bool-cases, get_or,
  ◌==◌, ==_iff, subst, sym, All,
}
use pgdesign.Topo.{release, drain}
use pgdesign.Topo.Count.{has, times, Distinct, left, left-cons, left_zero}
use pgdesign.Topo.Queue.{pending, targets, pending-split, Holds, released}

module _ (n : ℕ) (edges : List (ℕ × ℕ)) where
  -- Every item of the list is emitted once, after its dependencies, and none is left whose
  -- dependencies are emitted; `out` has been emitted before.
  unfoldable pub Emits : List ℕ → List ℕ → Type 0
  Emits out [] = (i : ℕ) → i < n → pending edges out i ≡ 0 → has i out ≡ true
  Emits out (i ∷ order) =
      (i < n) × (has i out ≡ false) × (pending edges out i ≡ 0) × Emits (i ∷ out) order

  emitted_next :
      (out queue degrees : List ℕ) (idx : ℕ)
      → Holds n (pending edges out) out (idx ∷ queue) degrees []
      → Holds n (pending edges (idx ∷ out)) (idx ∷ out) queue degrees (targets idx edges)
  unfolding has Distinct times
  emitted_next out queue degrees idx h =
      let (c, f, z) = h.only idx (ground arith) in
      let split : (i : ℕ)
          → pending edges out i ≡ pending edges (idx ∷ out) i + times i (targets idx edges) =
        λ i. pending-split edges out idx i f in
      record {
        len = h.len;
        counts = λ i b. omega (arith, h.counts i b, split i);
        ready = λ i b y. let before = h.ready i b (omega (arith, y, split i)) in ground arith;
        only = λ i m.
            let (b, g, y) = h.only i (ground arith) in
            let apart : (i == idx) ≡ false = elim (Bool-cases (i == idx)) [
              | inl e ↦ cc (rw ((==_iff i idx).0 e) at m, h.distinct.0)
              | inr e ↦ e
            ] in
            (b, ground arith, omega (arith, y, split i));
        done = λ i m. elim (Bool-cases (i == idx)) [
          | inl e ↦ let same = (==_iff i idx).0 e in rw same (omega (arith, z, split idx))
          | inr e ↦ let y = h.done i (ground arith) in omega (arith, y, split i)
        ];
        distinct = h.distinct.1;
      }

  module _ (dependents : List (List ℕ))
      (lists : (d : ℕ) → d < n → get_or dependents d [] ≡ targets d edges)
      (below : (d : ℕ) → All (λ j. j < n) (targets d edges)) where
    pub drain-Emits :
        (fuel : ℕ) (out queue degrees : List ℕ)
        → Holds n (pending edges out) out queue degrees []
        → left n out ≤ fuel
        → Emits out (drain fuel dependents degrees queue)
    unfolding drain Emits has times
    drain-Emits zero out queue degrees h b = λ i c z. left_zero n i out (omega (arith, b)) c
    drain-Emits (suc fuel) out [] degrees h b = λ i c z. h.ready i c (omega (arith, z))
    drain-Emits (suc fuel) out (idx ∷ queue) degrees h b =
        let (c, f, z) = h.only idx (ground arith) in
        let js = get_or dependents idx [] in
        let next : Holds n (pending edges (idx ∷ out)) (idx ∷ out) queue degrees js =
          subst (Holds n (pending edges (idx ∷ out)) (idx ∷ out) queue degrees) (sym (lists idx c))
            (emitted_next out queue degrees idx h) in
        let small : All (λ j. j < n) js =
          subst (All (λ j. j < n)) (sym (lists idx c)) (below idx) in
        (
          c,
          f,
          omega (arith, z),
          drain-Emits fuel (idx ∷ out) (release degrees queue js).1 (release degrees queue js).0
              (released n (pending edges (idx ∷ out)) (idx ∷ out) queue degrees js next small)
              (omega (arith, b, left-cons n idx out c f)),
        )
