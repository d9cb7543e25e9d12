-- ===== src/Cascade/Walk.antt =====
-- internal/model/fkgraph.go, WalkCascade: the paths of the walk.
use pgdesign.Base.{
  ℕ, suc, ◌+◌, ◌≤◌, Text, List, [], ◌∷◌, ◌++◌, Bool, true, false, In, inl, inr, ◌⊎◌, ◌↔◌, ◌≡◌, refl,
  arith, length, elem, subst, sym, ap, ◌≢◌,
}
use pgdesign.Cascade.{
  FkEdge, FkGraph, WalkDirection, toward_referencing, toward_referenced, edges_of, edges_out,
  table_key, from_key, to_key, next_key, too_deep, walk_cascade, is_blank,
}
use pgdesign.Cascade.Simple.{Simple, walk_cascade-Simple}

-- An edge leads from the table `key` to the table `next`: against the foreign keys from a referenced
-- table to a referencing one, or along them.
abbrev pub Leads : FkGraph → WalkDirection → Text → FkEdge → Text → Type 0
Leads g toward_referencing key e next =
    In e (edges_of g.reverse key) × (next ≡ table_key e.from_schema e.from_table)
Leads g toward_referenced key e next =
    In e (edges_of g.forward key) × (next ≡ table_key e.to_schema e.to_table)

leads :
    (g : FkGraph) (dir : WalkDirection) (key : Text) (e : FkEdge)
    → In e (edges_of (edges_out g dir) key)
    → Leads g dir key e (next_key dir e)
unfolding edges_out next_key from_key to_key
leads g toward_referencing key e m = (m, refl)
leads g toward_referenced key e m = (m, refl)

Leads-back :
    (g : FkGraph) (dir : WalkDirection) (key : Text) (e : FkEdge) (next : Text)
    → Leads g dir key e next
    → In e (edges_of (edges_out g dir) key) × (next ≡ next_key dir e)
unfolding edges_out next_key from_key to_key
Leads-back g toward_referencing key e next l = l
Leads-back g toward_referenced key e next l = l

is_blank-append : (path : List FkEdge) (e : FkEdge) → is_blank (path ++ (e ∷ [])) ≡ false
is_blank-append [] e = refl
is_blank-append (d ∷ path) e = refl

length-append : (path : List FkEdge) (e : FkEdge) → length (path ++ (e ∷ [])) ≡ suc (length path)
length-append [] e = refl
length-append (d ∷ path) e = ap suc (length-append path e)

module _ (g : FkGraph) (dir : WalkDirection) (follow : FkEdge → Bool → Bool) where
  -- A path from the table `key` that comes to no table of `on` and to none twice, all of whose edges
  -- may be followed; `first` if it starts the walk.
  abbrev pub Route : List Text → Bool → Text → List FkEdge → Type 0
  Route on first key [] = Unit
  Route on first key (e ∷ p) =
      (next : Text) × Leads g dir key e next
      × (elem next on ≡ false)
      × (follow e first ≡ true)
      × Route (next ∷ on) false next p

  module _ (max_depth : ℕ) where
    abbrev Walked : List Text → List FkEdge → Text → List FkEdge → Type 0
    Walked on path key p = Simple dir follow (edges_out g dir) max_depth on path key p

    Walked-Route :
        (on : List Text) (path : List FkEdge) (key : Text) (p : List FkEdge)
        → Walked on path key p
        → Route on (is_blank path) key p
    Walked-Route on path key [] w = tt
    Walked-Route on path key (e ∷ p) (m, f, c, d, w) = (
      next_key dir e,
      leads g dir key e m,
      f,
      c,
      subst (λ b. Route (next_key dir e ∷ on) b (next_key dir e) p) (is_blank-append path e)
          (Walked-Route (next_key dir e ∷ on) (path ++ (e ∷ [])) (next_key dir e) p w),
    )

    Walked-depth :
        (on : List Text) (path : List FkEdge) (key : Text) (e : FkEdge) (p : List FkEdge)
        → Walked on path key (e ∷ p)
        → (max_depth ≡ 0) ⊎ (length path + length (e ∷ p) ≤ max_depth)
    unfolding too_deep
    Walked-depth on path key e [] (m, f, c, d, w) = ground arith
    Walked-depth on path key e (e' ∷ p) (m, f, c, d, w) =
        let longer = length-append path e in
        elim (Walked-depth (next_key dir e ∷ on) (path ++ (e ∷ [])) (next_key dir e) e' p w) [
          | inl z ↦ inl z
          | inr h ↦ inr (omega (arith, longer, h))
        ]

    Route-Walked :
        (on : List Text) (path : List FkEdge) (key : Text) (p : List FkEdge)
        → (max_depth ≡ 0) ⊎ (length path + length p ≤ max_depth)
        → Route on (is_blank path) key p
        → Walked on path key p
    unfolding too_deep
    Route-Walked on path key [] h r = tt
    Route-Walked on path key (e ∷ p) h (next, l, f, c, r) =
        let (m, at) = Leads-back g dir key e next l in
        let longer = length-append path e in
        let h' : (max_depth ≡ 0) ⊎ (length (path ++ (e ∷ [])) + length p ≤ max_depth) = elim h [
          | inl z ↦ inl z
          | inr b ↦ inr (omega (arith, longer, b))
        ] in
        let r' : Route (next_key dir e ∷ on) (is_blank (path ++ (e ∷ []))) (next_key dir e) p =
          subst (λ n. Route (n ∷ on) (is_blank (path ++ (e ∷ []))) n p) at
            (subst (λ b. Route (next ∷ on) b next p) (sym (is_blank-append path e)) r) in
        (
          m,
          subst (λ n. elem n on ≡ false) at f,
          c,
          ground arith,
          Route-Walked (next_key dir e ∷ on) (path ++ (e ∷ [])) (next_key dir e) p h' r',
        )

-- For every graph, start, direction, depth and test `follow`, WalkCascade hands to `visit` exactly
-- the paths of at least one edge from the start, along the edges of the direction, that come to no
-- table twice, the start included, all of whose edges `follow` allows, and that have at most
-- `max_depth` edges where `max_depth` is not zero.
pub walk_cascade_correct :
    (g : FkGraph) (start : Text) (dir : WalkDirection) (max_depth : ℕ)
    (follow : FkEdge → Bool → Bool) (p : List FkEdge)
    → In p (walk_cascade g start dir max_depth follow)
      ↔ (p ≢ [])
        × ((max_depth ≡ 0) ⊎ (length p ≤ max_depth))
        × Route g dir follow (start ∷ []) true start p
walk_cascade_correct g start dir max_depth follow [] =
    let paths = walk_cascade-Simple g start dir max_depth follow [] in
    (λ m. let n = (paths.0 m).0 in cc, λ (n, d, r). elim (n refl) [ ])
walk_cascade_correct g start dir max_depth follow (e ∷ p) =
    let paths = walk_cascade-Simple g start dir max_depth follow (e ∷ p) in
    (
      λ m.
          let w = (paths.0 m).1 in
          (
            λ n. cc,
            elim (Walked-depth g dir follow max_depth (start ∷ []) [] start e p w) [
              | inl z ↦ inl z
              | inr h ↦ inr (omega (arith, h))
            ],
            Walked-Route g dir follow max_depth (start ∷ []) [] start (e ∷ p) w,
          ),
      λ (n, d, r).
          let d' : (max_depth ≡ 0) ⊎ (0 + length (e ∷ p) ≤ max_depth) = elim d [
            | inl z ↦ inl z
            | inr h ↦ inr (omega (arith, h))
          ] in
          paths.1 (refl, Route-Walked g dir follow max_depth (start ∷ []) [] start (e ∷ p) d' r),
    )
