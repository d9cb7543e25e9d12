-- ===== src/Squash/Disjoint.antt =====
-- internal/migrate/squash_chain.go: the edges that a consolidation supersedes are those of no other
-- live one.
use pgdesign.Base.{
  Text, List, [], ◌∷◌, true, false, some, none, In, inl, inr, ◌⊎◌, ◌≡◌, refl, arith, Bool-cases,
  Option-cases, All, sym, ◌∙◌, elem, take, text_eq, text_eq_iff,
}
use pgdesign.PathFinder.{MigrationEdge}
use pgdesign.Squash.{
  SquashError, overlap, first_common, check_overlap, check_consolidation_disjoint,
}

module _ {Op : Type 0} where
  -- No id is superseded by both.
  abbrev pub Apart : List Text → MigrationEdge Op → Type 0
  Apart ids e =
      e.consolidation ≡ true
      → (id : Text) → elem id e.superseded_edge_ids ≡ true
      → elem id ids ≡ false

first_common-none :
    (ids theirs : List Text)
    → first_common ids theirs ≡ none
    → (id : Text) → elem id theirs ≡ true
    → elem id ids ≡ false
unfolding first_common elem
first_common-none ids [] h id m = cc
first_common-none ids (x ∷ theirs) h id m = elim (Bool-cases (elem x ids)) [
  | inl found ↦ cc (rw found at h)
  | inr free ↦ elim (Bool-cases (text_eq id x)) [
    | inl same ↦ rw ((text_eq_iff id x).0 same) free
    | inr other ↦ first_common-none ids theirs (rw free at h) id (rw other at m)
  ]
]

first_common-some :
    (ids theirs : List Text) (id : Text)
    → first_common ids theirs ≡ some id
    → (elem id theirs ≡ true) × (elem id ids ≡ true)
unfolding first_common elem
first_common-some ids [] id h = cc
first_common-some ids (x ∷ theirs) id h = elim (Bool-cases (elem x ids)) [
  | inl found ↦
      let at : some x ≡ some id = rw found at h in
      let same : x ≡ id = cc in (ground (arith, (text_eq_iff id x).1 (sym same)), rw same at found)
  | inr free ↦
      let (there, here) = first_common-some ids theirs id (rw free at h) in (ground arith, here)
]

module _ {Op : Type 0} (edge_id : MigrationEdge Op → Text) where
  -- An edge of the list that is superseded by a consolidation of it and is one of `ids`.
  pub Overlaps : List (MigrationEdge Op) → List Text → SquashError → Type 0
  Overlaps live ids x =
      (e : MigrationEdge Op) × (id : Text) × In e live
      × (e.consolidation ≡ true)
      × (elem id e.superseded_edge_ids ≡ true)
      × (elem id ids ≡ true)
      × (x ≡ overlap (take 12 id) (take 12 (edge_id e)))

  check_onward :
      (e : MigrationEdge Op) (live : List (MigrationEdge Op)) (ids : List Text)
      → (e.consolidation ≡ false) ⊎ (first_common ids e.superseded_edge_ids ≡ none)
      → check_consolidation_disjoint edge_id (e ∷ live) ids
        ≡ check_consolidation_disjoint edge_id live ids
  unfolding check_consolidation_disjoint check_overlap
  check_onward e live ids (inl plain) = rw plain refl
  check_onward e live ids (inr free) = elim (Bool-cases e.consolidation) [
    | inl consol ↦ rw (consol, free) refl
    | inr plain ↦ rw plain refl
  ]

  check_hit :
      (e : MigrationEdge Op) (live : List (MigrationEdge Op)) (ids : List Text) (id : Text)
      → e.consolidation ≡ true
      → first_common ids e.superseded_edge_ids ≡ some id
      → check_consolidation_disjoint edge_id (e ∷ live) ids
        ≡ some (overlap (take 12 id) (take 12 (edge_id e)))
  unfolding check_consolidation_disjoint check_overlap
  check_hit e live ids id consol at = rw (consol, at) refl

  -- The check passes exactly on ids that no live consolidation supersedes; otherwise it names such
  -- an id and the consolidation.
  pub check_consolidation_disjoint_lem :
      (live : List (MigrationEdge Op)) (ids : List Text)
      → (check_consolidation_disjoint edge_id live ids ≡ none) × All (Apart ids) live
        ⊎ (x : SquashError) × (check_consolidation_disjoint edge_id live ids ≡ some x)
          × Overlaps live ids x
  unfolding check_consolidation_disjoint check_overlap Overlaps
  check_consolidation_disjoint_lem [] ids = inl (refl, tt)
  check_consolidation_disjoint_lem (e ∷ live) ids =
      let later : (x : SquashError) → Overlaps live ids x → Overlaps (e ∷ live) ids x =
        λ x (d, id, m, c, there, here, is). (d, id, inr m, c, there, here, is) in
      let onward : (e.consolidation ≡ false) ⊎ (first_common ids e.superseded_edge_ids ≡ none)
          → Apart ids e
          → (check_consolidation_disjoint edge_id (e ∷ live) ids ≡ none)
              × All (Apart ids) (e ∷ live)
            ⊎ (x : SquashError) × (check_consolidation_disjoint edge_id (e ∷ live) ids ≡ some x)
              × Overlaps (e ∷ live) ids x =
        λ on apart. elim (check_consolidation_disjoint_lem live ids) [
          | inl (free, all) ↦ inl (check_onward e live ids on ∙ free, (apart, all))
          | inr (x, at, hit) ↦ inr (x, check_onward e live ids on ∙ at, later x hit)
        ] in
      elim (Bool-cases e.consolidation) [
        | inr plain ↦ onward (inl plain) (λ c. cc)
        | inl consol ↦ elim (Option-cases (first_common ids e.superseded_edge_ids)) [
          | inl free ↦ onward (inr free) (λ c. first_common-none ids e.superseded_edge_ids free)
          | inr (id, at) ↦
              let (there, here) = first_common-some ids e.superseded_edge_ids id at in
              inr (
                overlap (take 12 id) (take 12 (edge_id e)),
                check_hit e live ids id consol at,
                (e, id, inl refl, consol, there, here, refl),
              )
        ]
      ]
