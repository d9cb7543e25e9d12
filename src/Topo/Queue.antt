-- ===== src/Topo/Queue.antt =====
-- internal/graph/topo.go, TopoSort: the queue and the in-degrees while dependents are released, over a list of edges `(d, i)`, "item `i`
-- depends on item `d`", that the in-degrees count and the dependents list.
use pgdesign.Base.{
  ℕ, suc, ◌+◌, ◌-◌, ◌≤◌, ◌<◌, List, [], ◌∷◌, ◌++◌, true, false, not, ◌&&◌, ◌||◌, inl, inr, ◌⊎◌, ◌≡◌,
  ◌≢◌, refl, arith, Bool-cases, if◌then◌else◌, length, get_or, ◌==◌, ==_iff, subst, sym, ◌∙◌, All,
}
use pgdesign.Topo.{modify, push_if_zero, release}
use pgdesign.Topo.Count.{
  has, has-append, times, Distinct, Distinct-push, get_or-modify_same, get_or-modify_other,
  length-modify,
}

-- The dependencies of item `i` that are not in `out`.
unfoldable pub pending : List (ℕ × ℕ) → List ℕ → ℕ → ℕ
pending [] out i = 0
pending ((d, j) ∷ edges) out i = (if i == j && not (has d out) then 1 else 0) + pending edges out i

-- The items that depend on `d`, in the order of the edges.
unfoldable pub targets : ℕ → List (ℕ × ℕ) → List ℕ
targets d [] = []
targets d ((e, j) ∷ edges) = let rest = targets d edges in if e == d then j ∷ rest else rest

pub pending-split :
    (edges : List (ℕ × ℕ)) (out : List ℕ) (idx i : ℕ)
    → has idx out ≡ false
    → pending edges out i ≡ pending edges (idx ∷ out) i + times i (targets idx edges)
unfolding pending targets has times
pending-split [] out idx i h = refl
pending-split ((d, j) ∷ edges) out idx i h = elim (Bool-cases (d == idx)) [
  | inl e ↦
      let out_of : has d out ≡ false = rw ((==_iff d idx).0 e) h in
      ground (arith, pending-split edges out idx i h)
  | inr e ↦ ground (arith, pending-split edges out idx i h)
]

-- The state of the loop: `p i` are the pending dependencies of `i`, of which `js` has some to be
-- taken off its in-degree yet.
pub record Holds (n : ℕ) (p : ℕ → ℕ) (out queue degrees js : List ℕ) : Type 0 where
  pub len : length degrees ≡ n
  pub counts : (i : ℕ) → i < n → get_or degrees i 1 ≡ p i + times i js
  pub ready : (i : ℕ) → i < n → p i + times i js ≡ 0 → (has i queue || has i out) ≡ true
  pub only : (i : ℕ) → has i queue ≡ true → (i < n) × (has i out ≡ false) × (p i + times i js ≡ 0)
  pub done : (i : ℕ) → has i out ≡ true → p i + times i js ≡ 0
  pub distinct : Distinct queue

pub times_self : (j : ℕ) (js : List ℕ) → times j (j ∷ js) ≡ suc (times j js)
unfolding times
times_self j js = ground arith

pub times_other : (i j : ℕ) (js : List ℕ) → (j == i) ≡ false → times i (j ∷ js) ≡ times i js
unfolding times
times_other i j js h = ground arith

pub times_le : (i j : ℕ) (js : List ℕ) → times i js ≤ times i (j ∷ js)
unfolding times
times_le i j js = omega arith

-- What a step may do to the queue: `zero_now` tells whether `j` is to be pushed.
abbrev Pushed : Type 0 → ℕ → List ℕ → List ℕ → Type 0
Pushed zero_now j queue queue' =
    zero_now × (queue' ≡ queue ++ (j ∷ [])) ⊎ (¬ zero_now) × (queue' ≡ queue)

module _ (zero_now : Type 0) (j : ℕ) (queue queue' : List ℕ)
    (how : Pushed zero_now j queue queue') where
  kept : (i : ℕ) → has i queue ≡ true → has i queue' ≡ true
  kept i h = elim how [
    | inl (z, e) ↦ rw (e, has-append i queue (j ∷ [])) (ground arith)
    | inr (z, e) ↦ rw e h
  ]

  pushed : zero_now → has j queue' ≡ true
  unfolding has
  pushed z = elim how [
    | inl (y, e) ↦ rw (e, has-append j queue (j ∷ [])) (ground arith)
    | inr (y, e) ↦ elim (y z) [ ]
  ]

  from : (i : ℕ) → has i queue' ≡ true → (has i queue ≡ true) ⊎ (i ≡ j) × zero_now
  unfolding has
  from i h = elim how [
    | inl (z, e) ↦
        let either : (has i queue || has i (j ∷ [])) ≡ true =
          sym (has-append i queue (j ∷ [])) ∙ (rw e at h) in
        elim (Bool-cases (has i queue)) [
          | inl old ↦ inl old
          | inr new ↦ inr ((==_iff i j).0 (ground arith), z)
        ]
    | inr (z, e) ↦ inl (rw e at h)
  ]

  still-Distinct : has j queue ≡ false → Distinct queue → Distinct queue'
  still-Distinct f d = elim how [
    | inl (z, e) ↦ rw e (Distinct-push queue j f d)
    | inr (z, e) ↦ rw e d
  ]

module _ (n : ℕ) (p : ℕ → ℕ) (out : List ℕ) where
  -- One dependent taken off: the queue is the old one, or has the dependent at its end.
  taken :
      (queue degrees js queue' : List ℕ) (j : ℕ)
      → Holds n p out queue degrees (j ∷ js)
      → j < n
      → Pushed (p j + times j js ≡ 0) j queue queue'
      → Holds n p out queue' (modify (λ m. m - 1) j degrees) js
  taken queue degrees js queue' j h b how =
      let now = p j + times j js ≡ 0 in
      let waiting : has j queue ≢ true =
        λ m. let (_, _, z) = h.only j m in omega (arith, z, times_self j js) in
      let not_out : has j out ≢ true = λ m. omega (arith, h.done j m, times_self j js) in
      record {
        len = length-modify (λ m. m - 1) j degrees ∙ h.len;
        counts = λ i c. elim (Bool-cases (j == i)) [
          | inl e ↦
              let same : j ≡ i = (==_iff j i).0 e in
              subst (λ k. get_or (modify (λ m. m - 1) j degrees) k 1 ≡ p k + times k js) same
                (get_or-modify_same (λ m. m - 1) j degrees 1 (omega (arith, b, h.len))
                  ∙ omega (arith, h.counts j b, times_self j js))
          | inr e ↦
              get_or-modify_other (λ m. m - 1) j i degrees 1 e
              ∙ omega (arith, h.counts i c, times_other i j js e)
        ];
        ready = λ i c z. elim (Bool-cases (j == i)) [
          | inl e ↦
              let same : j ≡ i = (==_iff j i).0 e in
              let here : has i queue' ≡ true =
                subst (λ k. has k queue' ≡ true) same (pushed now j queue queue' how (rw same z)) in
              rw here refl
          | inr e ↦
              let before = h.ready i c (omega (arith, z, times_other i j js e)) in
              let grows = kept now j queue queue' how i in ground arith
        ];
        only = λ i m. elim (from now j queue queue' how i m) [
          | inl old ↦ let (c, f, z) = h.only i old in (c, f, omega (arith, z, times_le i j js))
          | inr (same, z) ↦ rw same (b, ground arith, z)
        ];
        done = λ i m. omega (arith, h.done i m, times_le i j js);
        distinct = still-Distinct now j queue queue' how (ground arith) h.distinct;
      }

  push_cases : (v j : ℕ) (queue : List ℕ) → Pushed (v ≡ 0) j queue (push_if_zero v j queue)
  unfolding push_if_zero
  push_cases v j queue = elim (Bool-cases (v == 0)) [
    | inl e ↦ inl ((==_iff v 0).0 e, rw e refl)
    | inr e ↦ inr (λ z. cc ((==_iff v 0).1 z, e), rw e refl)
  ]

  pub released :
      (queue degrees js : List ℕ)
      → Holds n p out queue degrees js
      → All (λ j. j < n) js
      → Holds n p out (release degrees queue js).1 (release degrees queue js).0 []
  unfolding release
  released queue degrees [] h b = h
  released queue degrees (j ∷ js) h (b, bs) =
      let lower = modify (λ m. m - 1) j degrees in
      let value : get_or lower j 1 ≡ p j + times j js =
        get_or-modify_same (λ m. m - 1) j degrees 1 (omega (arith, b, h.len))
        ∙ omega (arith, h.counts j b, times_self j js) in
      let queue' = push_if_zero (get_or lower j 1) j queue in
      released queue' lower js
        (taken queue degrees js queue' j h b (
          subst (λ v. Pushed (v ≡ 0) j queue queue') value (push_cases (get_or lower j 1) j queue)))
        bs
