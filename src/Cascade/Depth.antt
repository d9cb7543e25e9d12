-- ===== src/Cascade/Depth.antt =====
-- internal/model/fkgraph.go, CascadeDepth: the longest cascade.
use pgdesign.Base.{
  ℕ, ◌≤◌, Text, bytes, List, [], ◌∷◌, ◌++◌, Bool, true, false, elem, In, inl, inr, ◌⊎◌, ◌≡◌, refl,
  arith, Bool-cases, length, ltb, sym, ap,
}
use pgdesign.Cascade.{
  FkEdge, FkGraph, toward_referencing, edges_out, is_blank, walk_cascade, follow_cascade_only,
  longest, cascade_depth, table_key, edges_of, next_key, from_key, too_deep,
}
use pgdesign.Cascade.Simple.{Simple, walk_cascade-Simple}

longest_lem :
    (n : ℕ) (ps : List (List FkEdge))
    → (n ≤ longest n ps)
      × ((p : List FkEdge) → In p ps → length p ≤ longest n ps)
      × ((longest n ps ≡ n) ⊎ ((p : List FkEdge) × In p ps × (length p ≡ longest n ps)))
unfolding longest
longest_lem n [] = (omega arith, (λ p m. elim m [ ]), inl refl)
longest_lem n (q ∷ ps) = elim (Bool-cases (ltb n (length q))) [
  | inl lt ↦
      let (low, all, is) = longest_lem (length q) ps in
      rw lt (
        ground arith,
        λ p m. elim m [ inl e ↦ rw e low | inr old ↦ all p old ],
        inr (elim is [ inl e ↦ (q, inl refl, sym e) | inr (p, m, e) ↦ (p, inr m, e) ]),
      )
  | inr ge ↦
      let (low, all, is) = longest_lem n ps in
      let short : length q ≤ n = ground arith in
      rw ge (
        low,
        λ p m. elim m [
          | inl e ↦ let same = ap length e in omega (arith, same, short, low)
          | inr old ↦ all p old
        ],
        elim is [ inl e ↦ inl e | inr (p, m, e) ↦ inr (p, inr m, e) ],
      )
]

blank_short : (p : List FkEdge) → is_blank p ≡ true → (n : ℕ) → length p ≤ n
blank_short [] h n = omega arith
blank_short (e ∷ p) h n = cc

module _ (equal_fold : Text → Text → Bool) (g : FkGraph) where
  -- A chain of foreign keys that cascade: the first refers to the table, each further one to the
  -- table that declares the one before, and no declaring table is one of `on` or comes twice.
  abbrev pub IsCascade : List Text → Text → List FkEdge → Type 0
  IsCascade on table [] = Unit
  IsCascade on table (e ∷ p) =
      In e (edges_of g.reverse table)
      × (equal_fold e.on_delete (bytes "CASCADE") ≡ true)
      × (elem (table_key e.from_schema e.from_table) on ≡ false)
      × IsCascade (table_key e.from_schema e.from_table ∷ on) (table_key e.from_schema e.from_table)
          p

  Walked : List Text → List FkEdge → Text → List FkEdge → Type 0
  Walked on path key p =
      Simple toward_referencing (follow_cascade_only equal_fold) g.reverse 0 on path key p

  Walked-IsCascade :
      (on : List Text) (path : List FkEdge) (key : Text) (p : List FkEdge)
      → Walked on path key p
      → IsCascade on key p
  unfolding Walked follow_cascade_only next_key from_key
  Walked-IsCascade on path key [] w = tt
  Walked-IsCascade on path key (e ∷ p) (m, f, c, d, w) = (
    m,
    c,
    f,
    Walked-IsCascade (table_key e.from_schema e.from_table ∷ on) (path ++ (e ∷ []))
        (table_key e.from_schema e.from_table) p w,
  )

  IsCascade-Walked :
      (on : List Text) (path : List FkEdge) (key : Text) (p : List FkEdge)
      → IsCascade on key p
      → Walked on path key p
  unfolding Walked follow_cascade_only next_key from_key too_deep
  IsCascade-Walked on path key [] w = tt
  IsCascade-Walked on path key (e ∷ p) (m, c, f, w) = (
    m,
    f,
    c,
    refl,
    IsCascade-Walked (table_key e.from_schema e.from_table ∷ on) (path ++ (e ∷ []))
        (table_key e.from_schema e.from_table) p w,
  )

  -- For every graph and table: CascadeDepth is the greatest length of a chain of cascading foreign
  -- keys that starts at the table and comes to no table twice, the table included. Every chain is
  -- that long at most, and one, the empty one counted, is that long.
  pub cascade_depth_correct :
      (table : Text)
      → ((p : List FkEdge)
          → IsCascade (table ∷ []) table p
          → length p ≤ cascade_depth equal_fold g table)
        × ((p : List FkEdge) × IsCascade (table ∷ []) table p
            × (length p ≡ cascade_depth equal_fold g table))
  unfolding cascade_depth edges_out Walked
  cascade_depth_correct table =
      let follow = follow_cascade_only equal_fold in
      let walks = walk_cascade g table toward_referencing 0 follow in
      let paths = walk_cascade-Simple g table toward_referencing 0 follow in
      let (low, all, is) = longest_lem 0 walks in
      (
        λ p c. elim (Bool-cases (is_blank p)) [
          | inl b ↦ blank_short p b (cascade_depth equal_fold g table)
          | inr n ↦ all p ((paths p).1 (n, IsCascade-Walked (table ∷ []) [] table p c))
        ],
        elim is [
          | inl e ↦ ([], tt, sym e)
          | inr (p, m, e) ↦ (p, Walked-IsCascade (table ∷ []) [] table p ((paths p).0 m).1, e)
        ],
      )
