-- ===== src/PathFinder/Paths/Trails.antt =====
-- internal/migrate/path_finder.go, allForwardPaths against the paths that use no edge twice.
use pgdesign.Base.{
  ℕ, zero, suc, Text, List, [], ◌∷◌, map, Bool, true, false, some, In, inl, inr, ◌⊎◌, ◌↔◌, ◌≡◌, ◌≢◌,
  refl, arith, Bool-cases, length, get_elem?, get_or, set, sym, ◌∙◌, ap,
}
use pgdesign.PathFinder.{CanonEdge, is_nonempty, all_forward_paths}
use pgdesign.PathFinder.Paths.{Walk, free, Extends, In-dfs, dfs-In}

-- A path from `f` to the target along edges of the list, each starting where the one before ends,
-- at positions that are neither in `taken` nor used twice.
abbrev pub Trail : List CanonEdge → Text → List ℕ → Text → List CanonEdge → Type 0
Trail edges target taken f [] = f ≡ target
Trail edges target taken f (e ∷ p) =
    (i : ℕ) × (get_elem? edges i ≡ some e)
    × ¬ In i taken
    × (e.parent ≡ f)
    × Trail edges target (i ∷ taken) e.target p

get_or-set_same : (used : List Bool) (i : ℕ) → get_or (set used i true) i true ≡ true
get_or-set_same [] i = refl
get_or-set_same (b ∷ bs) zero = refl
get_or-set_same (b ∷ bs) (suc i) = get_or-set_same bs i

get_or-set_other :
    (used : List Bool) (i j : ℕ) → i ≢ j → get_or (set used i true) j true ≡ get_or used j true
get_or-set_other [] i j n = refl
get_or-set_other (b ∷ bs) zero zero n = elim (n refl) [ ]
get_or-set_other (b ∷ bs) zero (suc j) n = refl
get_or-set_other (b ∷ bs) (suc i) zero n = refl
get_or-set_other (b ∷ bs) (suc i) (suc j) n = get_or-set_other bs i j (λ e. n (ap suc e))

pub nat_cases : (i j : ℕ) → (i ≡ j) ⊎ (i ≢ j)
nat_cases i j = ground arith

-- The marks are those of the positions in `taken`, for the positions of the list.
Marks : List CanonEdge → List Bool → List ℕ → Type 0
Marks edges used taken =
    (i : ℕ) (e : CanonEdge)
    → get_elem? edges i ≡ some e
    → ((get_or used i true ≡ true → In i taken) × (In i taken → get_or used i true ≡ true))

Marks-set :
    (edges : List CanonEdge) (used : List Bool) (taken : List ℕ) (i : ℕ)
    → Marks edges used taken
    → Marks edges (set used i true) (i ∷ taken)
unfolding Marks
Marks-set edges used taken i m j e g = (
  λ h. elim (nat_cases j i) [
    | inl same ↦ inl same
    | inr other ↦ inr ((m j e g).0 (sym (get_or-set_other used i j (λ x. other (sym x))) ∙ h))
  ],
  λ h. elim h [
    | inl same ↦ rw same (get_or-set_same used i)
    | inr old ↦ elim (nat_cases j i) [
      | inl same ↦ rw same (get_or-set_same used i)
      | inr other ↦ get_or-set_other used i j (λ x. other (sym x)) ∙ (m j e g).1 old
    ]
  ],
)

module _ (edges : List CanonEdge) (target : Text) where
  Walk-Trail :
      (used : List Bool) (taken : List ℕ) (f : Text) (p : List CanonEdge)
      → Marks edges used taken
      → Walk edges target used f p
      → Trail edges target taken f p
  unfolding Marks
  Walk-Trail used taken f [] m w = w
  Walk-Trail used taken f (e ∷ p) m (i, g, u, par, w) = (
    i,
    g,
    λ t. cc ((m i e g).1 t, u),
    par,
    Walk-Trail (set used i true) (i ∷ taken) e.target p (Marks-set edges used taken i m) w,
  )

  Trail-Walk :
      (used : List Bool) (taken : List ℕ) (f : Text) (p : List CanonEdge)
      → Marks edges used taken
      → Trail edges target taken f p
      → Walk edges target used f p
  unfolding Marks
  Trail-Walk used taken f [] m t = t
  Trail-Walk used taken f (e ∷ p) m (i, g, n, par, t) = (
    i,
    g,
    elim (Bool-cases (get_or used i true)) [ inl b ↦ elim (n ((m i e g).0 b)) [ ] | inr b ↦ b ],
    par,
    Trail-Walk (set used i true) (i ∷ taken) e.target p (Marks-set edges used taken i m) t,
  )

get_or-free_mark :
    (edges : List CanonEdge) (i : ℕ) (e : CanonEdge)
    → get_elem? edges i ≡ some e
    → get_or (map (λ e. false) edges) i true ≡ false
get_or-free_mark [] i e g = cc
get_or-free_mark (x ∷ edges) zero e g = refl
get_or-free_mark (x ∷ edges) (suc i) e g = get_or-free_mark edges i e g

Marks-none : (edges : List CanonEdge) → Marks edges (map (λ e. false) edges) []
unfolding Marks
Marks-none edges i e g = (λ h. cc (get_or-free_mark edges i e g, h), λ h. elim h [ ])

free-get_or-free_mark : (edges : List CanonEdge) → free (map (λ e. false) edges) ≡ length edges
unfolding free
free-get_or-free_mark [] = refl
free-get_or-free_mark (e ∷ edges) = ap suc (free-get_or-free_mark edges)

-- allForwardPaths lists exactly the paths of at least one edge from the start to the target that
-- use no position of the edge list twice: it invents none and, ending with the edges used up,
-- misses none.
pub all_forward_paths_correct :
    (start target : Text) (edges p : List CanonEdge)
    → In p (all_forward_paths start target edges)
      ↔ (is_nonempty p ≡ true) × Trail edges target [] start p
unfolding all_forward_paths Extends
all_forward_paths_correct start target edges p =
    let used = map (λ (e : CanonEdge). false) edges in
    (
      λ h.
          let (q, s, n, w) = In-dfs target edges (length edges) used [] start p h in
          (n, Walk-Trail edges target used [] start p (Marks-none edges) (rw s w)),
      λ (n, t).
          dfs-In target edges (length edges) used [] p start
            (omega (arith, free-get_or-free_mark edges)) n
            (Trail-Walk edges target used [] start p (Marks-none edges) t),
    )
