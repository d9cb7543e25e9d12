-- ===== src/Topo/Build.antt =====
-- internal/graph/topo.go, TopoSort: one more dependency in the in-degrees and the dependents.
use pgdesign.Base.{
  ℕ, zero, suc, ◌+◌, ◌<◌, List, [], ◌∷◌, ◌++◌, inl, inr, ◌≡◌, refl, arith, Bool-cases,
  if◌then◌else◌, length, get_or, ◌==◌, ==_iff, subst, sym, ◌∙◌, ap, All, append-nil,
}
use pgdesign.Topo.{modify, Counts, add_dependency}
use pgdesign.Topo.Count.{has, get_or-modify_same, get_or-modify_other, length-modify}
use pgdesign.Topo.Queue.{pending, targets}

pending-push :
    (edges : List (ℕ × ℕ)) (d j i : ℕ)
    → pending (edges ++ ((d, j) ∷ [])) [] i ≡ pending edges [] i + (if i == j then 1 else 0)
unfolding pending has
pending-push [] d j i = ground arith
pending-push ((e, k) ∷ edges) d j i = ground (arith, pending-push edges d j i)

targets-push :
    (edges : List (ℕ × ℕ)) (d j e : ℕ)
    → targets e (edges ++ ((d, j) ∷ [])) ≡ targets e edges ++ (if d == e then j ∷ [] else [])
unfolding targets
targets-push [] d j e = ground arith
targets-push ((f, k) ∷ edges) d j e = ground (arith, targets-push edges d j e)

-- The arrays are those of the edges, between the first `n` items.
pub record Built (n : ℕ) (edges : List (ℕ × ℕ)) (g : Counts) : Type 0 where
  pub len : length g.in_degree ≡ n
  pub len_dependents : length g.dependents ≡ n
  pub counts : (i : ℕ) → i < n → get_or g.in_degree i 1 ≡ pending edges [] i
  pub lists : (d : ℕ) → d < n → get_or g.dependents d [] ≡ targets d edges
  pub below : (d : ℕ) → All (λ j. j < n) (targets d edges)

get_or-modify_list :
    (f : List ℕ → List ℕ) (i : ℕ) (xs : List (List ℕ)) (d : List ℕ)
    → i < length xs
    → get_or (modify f i xs) i d ≡ f (get_or xs i d)
unfolding modify
get_or-modify_list f i [] d h = let nothing : ⊥ = omega (arith, h) in elim nothing [ ]
get_or-modify_list f zero (x ∷ xs) d h = refl
get_or-modify_list f (suc i) (x ∷ xs) d h = get_or-modify_list f i xs d (omega (arith, h))

All-push :
    (n : ℕ) (js : List ℕ) (j : ℕ) → j < n → All (λ k. k < n) js → All (λ k. k < n) (js ++ (j ∷ []))
All-push n [] j h a = (h, tt)
All-push n (k ∷ js) j h (b, a) = (b, All-push n js j h a)

-- One more edge.
pub add_dependency-Built :
    (n : ℕ) (edges : List (ℕ × ℕ)) (g : Counts) (d i : ℕ)
    → Built n edges g
    → d < n
    → i < n
    → Built n (edges ++ ((d, i) ∷ [])) (add_dependency i d g)
unfolding add_dependency
add_dependency-Built n edges g d i h c b = record {
  len = length-modify (λ m. m + 1) i g.in_degree ∙ h.len;
  len_dependents = length-modify (λ is. is ++ (i ∷ [])) d g.dependents ∙ h.len_dependents;
  counts = λ k l. elim (Bool-cases (i == k)) [
    | inl e ↦
        let same : i ≡ k = (==_iff i k).0 e in
        subst
          (λ j.
            get_or (modify (λ m. m + 1) i g.in_degree) j 1 ≡ pending (edges ++ ((d, i) ∷ [])) [] j)
          same
          (get_or-modify_same (λ m. m + 1) i g.in_degree 1 (omega (arith, b, h.len))
            ∙ ground (arith, h.counts i b, pending-push edges d i i))
    | inr e ↦
        get_or-modify_other (λ m. m + 1) i k g.in_degree 1 e
        ∙ ground (arith, h.counts k l, pending-push edges d i k)
  ];
  lists = λ k l. elim (Bool-cases (d == k)) [
    | inl e ↦
        let same : d ≡ k = (==_iff d k).0 e in
        subst
          (λ j.
            get_or (modify (λ is. is ++ (i ∷ [])) d g.dependents) j []
            ≡ targets j (edges ++ ((d, i) ∷ [])))
          same
          (get_or-modify_list (λ is. is ++ (i ∷ [])) d g.dependents []
              (omega (arith, c, h.len_dependents))
            ∙ ap (λ is. is ++ (i ∷ [])) (h.lists d c)
            ∙ sym (targets-push edges d i d ∙ rw ((==_iff d d).1 refl) refl))
    | inr e ↦
        get_or-modify_other (λ is. is ++ (i ∷ [])) d k g.dependents [] e
        ∙ h.lists k l
        ∙ sym (targets-push edges d i k ∙ rw (e, append-nil) refl)
  ];
  below = λ k. elim (Bool-cases (d == k)) [
    | inl e ↦ rw (targets-push edges d i k, e) (All-push n (targets k edges) i b (h.below k))
    | inr e ↦ rw (targets-push edges d i k, e, append-nil) (h.below k)
  ];
}
