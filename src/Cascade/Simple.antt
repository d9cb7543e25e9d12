-- ===== src/Cascade/Simple.antt =====
-- internal/model/fkgraph.go, WalkCascade: the paths of the walk, by the tests of its loop.
use pgdesign.Base.{
  ℕ, zero, suc, ◌<◌, Text, List, [], ◌∷◌, ◌++◌, map, Bool, true, false, In, inl, inr, ◌⊎◌, ◌↔◌, ◌≡◌,
  refl, arith, Bool-cases, length, elem, text_eq, text_eq_iff, missing, missing_lt,
  missing_le_length, Within, In-append_left, In-append_right, In-append_cases, subst, sym, ◌∙◌, ap,
  append_assoc,
}
use pgdesign.Cascade.{
  FkEdge, EdgeMap, FkGraph, WalkDirection, edges_of, all_edges, next_key, too_deep, walk_edges,
  walk_dfs, walk_cascade, edges_out, is_blank,
}

In-edges_of : (m : EdgeMap) (key : Text) (e : FkEdge) → In e (edges_of m key) → In e (all_edges m)
unfolding edges_of all_edges
In-edges_of [] key e h = elim h [ ]
In-edges_of ((k, es) ∷ m) key e h = elim (Bool-cases (text_eq k key)) [
  | inl c ↦ In-append_left e es (all_edges m) (rw c at h)
  | inr c ↦ In-append_right e es (all_edges m) (In-edges_of m key e (rw c at h))
]

elem-map :
    (f : FkEdge → Text) (es : List FkEdge) (e : FkEdge) → In e es → elem (f e) (map f es) ≡ true
unfolding elem
elem-map f [] e h = elim h [ ]
elem-map f (x ∷ es) e (inl same) = rw same (ground (arith, (text_eq_iff (f x) (f x)).1 refl))
elem-map f (x ∷ es) e (inr h) = ground (arith, elem-map f es e h)

length-map : (f : FkEdge → Text) (es : List FkEdge) → length (map f es) ≡ length es
length-map f [] = refl
length-map f (x ∷ es) = ap suc (length-map f es)

module _ (dir : WalkDirection) (follow : FkEdge → Bool → Bool) where
  -- An edge that the loop takes, and what it finds with it.
  abbrev Taken :
      (List Text → List FkEdge → Text → List (List FkEdge))
      → List Text
      → List FkEdge
      → List FkEdge
      → List FkEdge
      → Type 0
  Taken enter on path es r =
      (e : FkEdge) × In e es
      × (elem (next_key dir e) on ≡ false)
      × (follow e (is_blank path) ≡ true)
      × ((r ≡ path ++ (e ∷ []))
          ⊎ In r (enter (next_key dir e ∷ on) (path ++ (e ∷ [])) (next_key dir e)))

  module _ (enter : List Text → List FkEdge → Text → List (List FkEdge)) (on : List Text)
      (path : List FkEdge) where
    walk_edges_on :
        (e : FkEdge) (es : List FkEdge)
        → elem (next_key dir e) on ≡ false
        → follow e (is_blank path) ≡ true
        → walk_edges dir follow enter on path (e ∷ es)
          ≡ (path ++ (e ∷ []))
            ∷ (enter (next_key dir e ∷ on) (path ++ (e ∷ [])) (next_key dir e)
                ++ walk_edges dir follow enter on path es)
    unfolding walk_edges
    walk_edges_on e es f g = rw (f, g) refl

    walk_edges_off :
        (e : FkEdge) (es : List FkEdge)
        → (elem (next_key dir e) on ≡ true) ⊎ (follow e (is_blank path) ≡ false)
        → walk_edges dir follow enter on path (e ∷ es) ≡ walk_edges dir follow enter on path es
    unfolding walk_edges
    walk_edges_off e es (inl f) = rw f refl
    walk_edges_off e es (inr g) = elim (Bool-cases (elem (next_key dir e) on)) [
      | inl f ↦ rw f refl
      | inr f ↦ rw (f, g) refl
    ]

    In-walk_edges :
        (es r : List FkEdge)
        → In r (walk_edges dir follow enter on path es)
        → Taken enter on path es r
    unfolding walk_edges
    In-walk_edges [] r h = elim h [ ]
    In-walk_edges (e ∷ es) r h =
        let skip : (elem (next_key dir e) on ≡ true) ⊎ (follow e (is_blank path) ≡ false)
            → Taken enter on path (e ∷ es) r =
          λ off.
            let (d, m, f, g, how) = In-walk_edges es r (subst (In r) (walk_edges_off e es off) h) in
            (d, inr m, f, g, how) in
        elim (Bool-cases (elem (next_key dir e) on)) [
          | inl f ↦ skip (inl f)
          | inr f ↦ elim (Bool-cases (follow e (is_blank path))) [
            | inr g ↦ skip (inr g)
            | inl g ↦ elim (subst (In r) (walk_edges_on e es f g) h) [
              | inl same ↦ (e, inl refl, f, g, inl same)
              | inr deeper ↦
                  elim (In-append_cases r
                    (enter (next_key dir e ∷ on) (path ++ (e ∷ [])) (next_key dir e))
                    (walk_edges dir follow enter on path es) deeper) [
                      | inl below ↦ (e, inl refl, f, g, inr below)
                      | inr after ↦
                          let (d, m, f', g', how) = In-walk_edges es r after in
                          (d, inr m, f', g', how)
                    ]
            ]
          ]
        ]

    walk_edges-In :
        (es r : List FkEdge)
        → Taken enter on path es r
        → In r (walk_edges dir follow enter on path es)
    unfolding walk_edges
    walk_edges-In [] r (e, m, f, g, how) = elim m [ ]
    walk_edges-In (x ∷ es) r (e, inl same, f, g, how) =
        let f' : elem (next_key dir x) on ≡ false =
          subst (λ d. elem (next_key dir d) on ≡ false) same f in
        let g' : follow x (is_blank path) ≡ true =
          subst (λ d. follow d (is_blank path) ≡ true) same g in
        let below = enter (next_key dir x ∷ on) (path ++ (x ∷ [])) (next_key dir x) in
        subst (In r) (sym (walk_edges_on x es f' g'))
          (elim (subst
            (λ d.
              (r ≡ path ++ (d ∷ []))
              ⊎ In r (enter (next_key dir d ∷ on) (path ++ (d ∷ [])) (next_key dir d)))
            same how) [
              | inl is ↦ inl is
              | inr m ↦ inr (In-append_left r below (walk_edges dir follow enter on path es) m)
            ])
    walk_edges-In (x ∷ es) r (e, inr m, f, g, how) =
        let rest = walk_edges-In es r (e, m, f, g, how) in
        elim (Bool-cases (elem (next_key dir x) on)) [
          | inl h ↦ subst (In r) (sym (walk_edges_off x es (inl h))) rest
          | inr h ↦ elim (Bool-cases (follow x (is_blank path))) [
            | inr k ↦ subst (In r) (sym (walk_edges_off x es (inr k))) rest
            | inl k ↦ subst (In r) (sym (walk_edges_on x es h k)) (
                inr (
                  In-append_right r
                    (enter (next_key dir x ∷ on) (path ++ (x ∷ [])) (next_key dir x))
                    (walk_edges dir follow enter on path es) rest))
          ]
        ]

  module _ (edges : EdgeMap) (max_depth : ℕ) where
    -- A path from the table `key` that visits no table of `on` and none twice, all of whose edges
    -- may be followed, no deeper than the bound; `path` leads to `key`.
    abbrev pub Simple : List Text → List FkEdge → Text → List FkEdge → Type 0
    Simple on path key [] = Unit
    Simple on path key (e ∷ p) =
        In e (edges_of edges key)
        × (elem (next_key dir e) on ≡ false)
        × (follow e (is_blank path) ≡ true)
        × (too_deep max_depth path ≡ false)
        × Simple (next_key dir e ∷ on) (path ++ (e ∷ [])) (next_key dir e) p

    deep_none :
        (fuel : ℕ) (on : List Text) (path : List FkEdge) (key : Text)
        → too_deep max_depth path ≡ true
        → walk_dfs dir follow edges max_depth (suc fuel) on path key ≡ []
    unfolding walk_dfs
    deep_none fuel on path key h = rw h refl

    shallow :
        (fuel : ℕ) (on : List Text) (path : List FkEdge) (key : Text)
        → too_deep max_depth path ≡ false
        → walk_dfs dir follow edges max_depth (suc fuel) on path key
          ≡ walk_edges dir follow
              (walk_dfs dir follow edges max_depth fuel)
              on
              path
              (edges_of edges key)
    unfolding walk_dfs
    shallow fuel on path key h = rw h refl

    In-walk_dfs :
        (fuel : ℕ) (on : List Text) (path : List FkEdge) (key : Text) (r : List FkEdge)
        → In r (walk_dfs dir follow edges max_depth fuel on path key)
        → (e : FkEdge) × (p : List FkEdge) × (r ≡ path ++ (e ∷ p)) × Simple on path key (e ∷ p)
    unfolding walk_dfs
    In-walk_dfs zero on path key r h = elim h [ ]
    In-walk_dfs (suc fuel) on path key r h = elim (Bool-cases (too_deep max_depth path)) [
      | inl d ↦ elim (subst (In r) (deep_none fuel on path key d) h) [ ]
      | inr d ↦
          let (e, m, f, g, how) =
            In-walk_edges (walk_dfs dir follow edges max_depth fuel) on path (edges_of edges key) r
              (subst (In r) (shallow fuel on path key d) h) in
          elim how [
            | inl is ↦ (e, [], is, (m, f, g, d, tt))
            | inr below ↦
                let (e', p, is, s) =
                  In-walk_dfs fuel (next_key dir e ∷ on) (path ++ (e ∷ [])) (next_key dir e) r
                    below in
                (e, e' ∷ p, is ∙ append_assoc path (e ∷ []) (e' ∷ p), (m, f, g, d, s))
          ]
    ]

    targets : List Text
    targets = map (next_key dir) (all_edges edges)

    Within-cons : (a : Text) (on : List Text) → Within on (a ∷ on)
    unfolding elem
    Within-cons a on b h = ground arith

    walk_dfs-In :
        (fuel : ℕ) (on : List Text) (path : List FkEdge) (key : Text) (e : FkEdge) (p : List FkEdge)
        → missing targets on < fuel
        → Simple on path key (e ∷ p)
        → In (path ++ (e ∷ p)) (walk_dfs dir follow edges max_depth fuel on path key)
    unfolding walk_dfs targets elem
    walk_dfs-In zero on path key e p b s = let nothing : ⊥ = omega (arith, b) in elim nothing [ ]
    walk_dfs-In (suc fuel) on path key e p b (m, f, g, d, s) =
        let next = next_key dir e in
        let less =
          missing_lt targets on (next ∷ on) next (Within-cons next on)
            (elem-map (next_key dir) (all_edges edges) e (In-edges_of edges key e m)) f
            (ground (arith, (text_eq_iff next next).1 refl)) in
        let how : (path ++ (e ∷ p) ≡ path ++ (e ∷ []))
            ⊎ In (path ++ (e ∷ p))
                (walk_dfs dir follow edges max_depth fuel (next ∷ on) (path ++ (e ∷ [])) next) =
          elim p
              as (λ p.
                Simple (next ∷ on) (path ++ (e ∷ [])) next p
                → (path ++ (e ∷ p) ≡ path ++ (e ∷ []))
                  ⊎ In (path ++ (e ∷ p)) (
                      walk_dfs dir follow edges max_depth fuel (next ∷ on) (path ++ (e ∷ []))
                        next)) [
                          | [] ↦ λ s. inl refl
                          | e' ∷ p' ↦ λ s. inr (
                              subst
                                (λ l. In l (
                                  walk_dfs dir follow edges max_depth fuel (next ∷ on)
                                    (path ++ (e ∷ [])) next))
                                (append_assoc path (e ∷ []) (e' ∷ p'))
                                (walk_dfs-In fuel (next ∷ on) (path ++ (e ∷ [])) next e' p'
                                  (omega (arith, b, less)) s))
                        ]
            s in
        subst (In (path ++ (e ∷ p))) (sym (shallow fuel on path key d)) (
          walk_edges-In (walk_dfs dir follow edges max_depth fuel) on path (edges_of edges key)
            (path ++ (e ∷ p)) (e, m, f, g, how))

Simple-found :
    (g : FkGraph) (start : Text) (dir : WalkDirection) (max_depth : ℕ)
    (follow : FkEdge → Bool → Bool) (p : List FkEdge)
    → is_blank p ≡ false
    → Simple dir follow (edges_out g dir) max_depth (start ∷ []) [] start p
    → In p (walk_cascade g start dir max_depth follow)
unfolding walk_cascade targets
Simple-found g start dir max_depth follow [] n s = cc
Simple-found g start dir max_depth follow (e ∷ p) n s =
    let edges = edges_out g dir in
    let bound = missing_le_length (map (next_key dir) (all_edges edges)) (start ∷ []) in
    let size = length-map (next_key dir) (all_edges edges) in
    walk_dfs-In dir follow edges max_depth (suc (length (all_edges edges))) (start ∷ []) [] start e
      p (omega (arith, bound, size)) s

pub walk_cascade-Simple :
    (g : FkGraph) (start : Text) (dir : WalkDirection) (max_depth : ℕ)
    (follow : FkEdge → Bool → Bool) (p : List FkEdge)
    → In p (walk_cascade g start dir max_depth follow)
      ↔ (is_blank p ≡ false) × Simple dir follow (edges_out g dir) max_depth (start ∷ []) [] start p
unfolding walk_cascade targets
walk_cascade-Simple g start dir max_depth follow p =
    let edges = edges_out g dir in
    (
      λ h.
          let (e, q, is, s) =
            In-walk_dfs dir follow edges max_depth (suc (length (all_edges edges))) (start ∷ []) []
              start p h in
          rw is (refl, s),
      λ (n, s). Simple-found g start dir max_depth follow p n s,
    )
