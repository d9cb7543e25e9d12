-- ===== src/Cascade/Chain.antt =====
-- internal/model/fkgraph.go, CascadeChain and CascadeDepth: the tables that a delete reaches.
use pgdesign.Base.{
  Text, bytes, List, [], ◌∷◌, ◌++◌, map, Bool, true, false, In, inl, inr, ◌⊎◌, ◌↔◌, ◌≡◌, ◌≢◌, refl,
  arith, Bool-cases, elem, text_eq, text_eq_iff, subst, sym, ◌∙◌,
}
use pgdesign.Cascade.{
  FkEdge, FkGraph, toward_referencing, from_key, next_key, edges_of, edges_out, too_deep, is_blank,
  walk_cascade, follow_cascade_only, last_table, cascade_chain,
}
use pgdesign.Cascade.Simple.{Simple, walk_cascade-Simple}
use pgdesign.Cascade.Reached.{Unique, reached-elem, reached-Unique, elem-map}

module _ (equal_fold : Text → Text → Bool) (g : FkGraph) where
  abbrev IsCascading : FkEdge → Type 0
  IsCascading e = equal_fold e.on_delete (bytes "CASCADE") ≡ true

  -- A delete in the first table reaches the second along foreign keys that cascade.
  pub data Reaches : Text → Text → Type 0 where
    stay : {a : Text} → Reaches a a
    along :
        {a b : Text} (e : FkEdge)
        → In e (edges_of g.reverse a)
        → IsCascading e
        → Reaches (from_key e) b
        → Reaches a b

  -- A path that visits no table of `on`, and none twice.
  Avoids : List Text → Text → Text → List FkEdge → Type 0
  Avoids on key t [] = key ≡ t
  Avoids on key t (e ∷ p) =
      In e (edges_of g.reverse key)
      × (elem (from_key e) on ≡ false)
      × IsCascading e
      × Avoids (from_key e ∷ on) (from_key e) t p

  Avoids-mono :
      (on on' : List Text) (key t : Text) (p : List FkEdge)
      → ((a : Text) → elem a on' ≡ true → elem a on ≡ true)
      → Avoids on key t p
      → Avoids on' key t p
  unfolding Avoids elem
  Avoids-mono on on' key t [] w a = a
  Avoids-mono on on' key t (e ∷ p) w (m, f, c, a) = (
    m,
    elim (Bool-cases (elem (from_key e) on')) [ inl h ↦ cc (w (from_key e) h, f) | inr h ↦ h ],
    c,
    Avoids-mono (from_key e ∷ on) (from_key e ∷ on') (from_key e) t p
        (λ b h. let v = w b in ground arith) a,
  )

  -- A path either never comes to `k`, or its end from there on is a path of its own.
  cut :
      (k : Text) (on : List Text) (key t : Text) (p : List FkEdge)
      → Avoids on key t p
      → Avoids (k ∷ on) key t p ⊎ ((q : List FkEdge) × Avoids (k ∷ []) k t q)
  unfolding Avoids elem
  cut k on key t [] a = inl a
  cut k on key t (e ∷ p) (m, f, c, a) = elim (Bool-cases (text_eq (from_key e) k)) [
    | inl q ↦
        let same = (text_eq_iff (from_key e) k).0 q in
        inr (
          p,
          subst (λ x. Avoids (x ∷ []) x t p) same
              (Avoids-mono (from_key e ∷ on) (from_key e ∷ []) (from_key e) t p
                (λ b h. ground arith) a),
        )
    | inr q ↦ elim (cut k (from_key e ∷ on) (from_key e) t p a) [
      | inr found ↦ inr found
      | inl a' ↦ inl (
        m,
        ground arith,
        c,
        Avoids-mono (k ∷ from_key e ∷ on) (from_key e ∷ k ∷ on) (from_key e) t p
            (λ b h. ground arith) a',
      )
    ]
  ]

  -- Loops can be cut out of the way.
  Reaches-Avoids : (a b : Text) → Reaches a b → (p : List FkEdge) × Avoids (a ∷ []) a b p
  unfolding Avoids elem
  Reaches-Avoids a b stay = ([], refl)
  Reaches-Avoids a b (along e m c r) =
      let (p, v) = Reaches-Avoids (from_key e) b r in
      elim (Bool-cases (text_eq (from_key e) a)) [
        | inl q ↦
            let same = (text_eq_iff (from_key e) a).0 q in
            (p, subst (λ x. Avoids (x ∷ []) x b p) same v)
        | inr q ↦ elim (cut a (from_key e ∷ []) (from_key e) b p v) [
          | inr found ↦ found
          | inl v' ↦ (
            e ∷ p,
            (
              m,
              ground arith,
              c,
              Avoids-mono (a ∷ from_key e ∷ []) (from_key e ∷ a ∷ []) (from_key e) b p
                  (λ x h. ground arith) v',
            ),
          )
        ]
      ]

  Walked : List Text → List FkEdge → Text → List FkEdge → Type 0
  Walked on path key p =
      Simple toward_referencing (follow_cascade_only equal_fold) g.reverse 0 on path key p

  Avoids-Walked :
      (on : List Text) (path : List FkEdge) (key t : Text) (p : List FkEdge)
      → Avoids on key t p
      → Walked on path key p × (last_table key p ≡ t)
  unfolding Avoids Walked last_table next_key follow_cascade_only too_deep
  Avoids-Walked on path key t [] a = (tt, a)
  Avoids-Walked on path key t (e ∷ p) (m, f, c, a) =
      let (w, l) = Avoids-Walked (from_key e ∷ on) (path ++ (e ∷ [])) (from_key e) t p a in
      ((m, f, c, refl, w), l)

  Walked-Reaches :
      (on : List Text) (path : List FkEdge) (key : Text) (p : List FkEdge)
      → Walked on path key p
      → Reaches key (last_table key p)
  unfolding Walked last_table next_key follow_cascade_only
  Walked-Reaches on path key [] w = stay
  Walked-Reaches on path key (e ∷ p) (m, f, c, d, w) =
      along e m c (Walked-Reaches (from_key e ∷ on) (path ++ (e ∷ [])) (from_key e) p w)

  -- A path never ends in a table that it avoids.
  Walked-away :
      (on : List Text) (path : List FkEdge) (key k : Text) (e : FkEdge) (p : List FkEdge)
      → Walked on path key (e ∷ p)
      → elem k on ≡ true
      → last_table key (e ∷ p) ≢ k
  unfolding Walked last_table next_key elem
  Walked-away on path key k e [] (m, f, c, d, w) h same = cc (rw same at f, h)
  Walked-away on path key k e (e' ∷ p) (m, f, c, d, w) h same =
      Walked-away (from_key e ∷ on) (path ++ (e ∷ [])) (from_key e) k e' p w (ground arith) same

  arrives :
      (table : Text) (p : List FkEdge)
      → is_blank p ≡ false
      → Walked (table ∷ []) [] table p
      → (last_table table p ≢ table) × Reaches table (last_table table p)
  unfolding elem
  arrives table [] n w = cc
  arrives table (e ∷ p) n w = (
    Walked-away (table ∷ []) [] table table e p w
        (ground (arith, (text_eq_iff table table).1 refl)),
    Walked-Reaches (table ∷ []) [] table (e ∷ p) w,
  )

  moved : (table : Text) (p : List FkEdge) → last_table table p ≢ table → is_blank p ≡ false
  unfolding last_table
  moved table [] n = elim (n refl) [ ]
  moved table (e ∷ p) n = refl

  -- For every graph and table: CascadeChain lists no table twice, and lists exactly the other tables
  -- that a delete in the table reaches along foreign keys that cascade, over any number of them.
  pub cascade_chain_correct :
      (table : Text)
      → Unique (cascade_chain equal_fold g table)
        × ((t : Text)
            → (elem t (cascade_chain equal_fold g table) ≡ true) ↔ (t ≢ table) × Reaches table t)
  unfolding cascade_chain edges_out Walked elem
  cascade_chain_correct table =
      let follow = follow_cascade_only equal_fold in
      let walks = walk_cascade g table toward_referencing 0 follow in
      let lasts = map (last_table table) walks in
      let paths = walk_cascade-Simple g table toward_referencing 0 follow in
      (
        reached-Unique [] lasts,
        λ t. (
          λ h.
              let (p, m, is) =
                (elem-map (last_table table) walks t).0 ((reached-elem [] lasts t).0 h).0 in
              let (n, w) = (paths p).0 m in
              let (away, r) = arrives table p n w in
              (λ same. away (is ∙ same), subst (Reaches table) is r),
          λ (n, r).
              let (p, v) = Reaches-Avoids table t r in
              let (w, l) = Avoids-Walked (table ∷ []) [] table t p v in
              let found = (paths p).1 (moved table p (λ e. n (sym l ∙ e)), w) in
              (reached-elem [] lasts t).1
                ((elem-map (last_table table) walks t).1 (p, found, l), refl),
        ),
      )
