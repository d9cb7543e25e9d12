-- ===== src/PathFinder/Remap.antt =====
-- internal/migrate/path_finder.go, canon: the loop reaches a revision that is not remapped.
use pgdesign.Base.{
  ℕ, zero, suc, ◌+◌, ◌≤◌, ◌<◌, Text, [], ◌∷◌, some, none, inl, inr, ◌≡◌, refl, arith, Bool-cases,
  Option-cases, length, text_eq, text_eq_iff, leb, if◌then◌else◌, ap,
}
use pgdesign.PathFinder.{RemapTable, remapped, canon_loop, canon}

-- Every entry leads downwards, so following the table ends.
abbrev pub Descends : (Text → ℕ) → RemapTable → Type 0
Descends rank remap = (k v : Text) → remapped k remap ≡ some v → rank v < rank k

-- How many keys are no higher than `n`.
below : (Text → ℕ) → ℕ → RemapTable → ℕ
below rank n [] = 0
below rank n ((k, v) ∷ m) = (if leb (rank k) n then 1 else 0) + below rank n m

module _ (rank : Text → ℕ) where
  below_le_length : (n : ℕ) (m : RemapTable) → below rank n m ≤ length m
  unfolding below
  below_le_length n [] = omega arith
  below_le_length n ((k, v) ∷ m) = ground (arith, below_le_length n m)

  below_mono : (i n : ℕ) (m : RemapTable) → i ≤ n → below rank i m ≤ below rank n m
  unfolding below
  below_mono i n [] h = omega arith
  below_mono i n ((k, v) ∷ m) h = ground (arith, below_mono i n m h)

  below_lt :
      (s next : Text) (i : ℕ) (m : RemapTable)
      → remapped s m ≡ some next
      → i < rank s
      → below rank i m < below rank (rank s) m
  unfolding below remapped
  below_lt s next i [] e h = cc
  below_lt s next i ((k, v) ∷ m) e h = elim (Bool-cases (text_eq k s)) [
    | inl q ↦
        let same : rank k ≡ rank s = ap rank ((text_eq_iff k s).0 q) in
        ground (arith, below_mono i (rank s) m (omega (arith, h)))
    | inr q ↦ ground (arith, below_lt s next i m (rw q at e) h)
  ]

  loop_step :
      (n : ℕ) (s next : Text) (m : RemapTable)
      → remapped s m ≡ some next
      → canon_loop (suc n) s m ≡ canon_loop n next m
  unfolding canon_loop
  loop_step n s next m e = rw (e, canon_loop) refl

  loop_end : (n : ℕ) (s : Text) (m : RemapTable) → remapped s m ≡ none → canon_loop n s m ≡ s
  unfolding canon_loop
  loop_end zero s m e = refl
  loop_end (suc n) s m e = rw (e, canon_loop) refl

  loop_fixpoint :
      (n : ℕ) (s : Text) (m : RemapTable)
      → Descends rank m
      → below rank (rank s) m ≤ n
      → remapped (canon_loop n s m) m ≡ none
  loop_fixpoint zero s m d b = elim (Option-cases (remapped s m)) [
    | inl e ↦ rw (loop_end zero s m e) e
    | inr (next, e) ↦
        let less = below_lt s next (rank next) m e (d s next e) in
        let absurd : ⊥ = omega (arith, less, b) in elim absurd [ ]
  ]
  loop_fixpoint (suc n) s m d b = elim (Option-cases (remapped s m)) [
    | inl e ↦ rw (loop_end (suc n) s m e) e
    | inr (next, e) ↦
        let less = below_lt s next (rank next) m e (d s next e) in
        rw (loop_step n s next m e) (loop_fixpoint n next m d (omega (arith, less, b)))
  ]

-- On a remap that some rank descends along, so that following it never comes back, the rounds of
-- canon are enough: the result is a revision that is not remapped any more, and canon leaves it
-- as it is.
pub canon_fixpoint :
    (rank : Text → ℕ) (s : Text) (remap : RemapTable)
    → Descends rank remap
    → (remapped (canon s remap) remap ≡ none) × (canon (canon s remap) remap ≡ canon s remap)
unfolding canon
canon_fixpoint rank s remap d =
    let rounds = suc (length remap) in
    let last =
      loop_fixpoint rank rounds s remap d (omega (arith, below_le_length rank (rank s) remap)) in
    (last, loop_end rank rounds (canon_loop rounds s remap) remap last)
