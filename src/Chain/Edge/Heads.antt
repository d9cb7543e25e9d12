-- ===== src/Chain/Edge/Heads.antt =====
-- The heads are the targets that are no edge's parent, once each and in order.
use pgdesign.Base.{
  Text, List, [], ◌∷◌, true, false, not, ◌&&◌, ◌||◌, map, elem, text_eq, text_lt, sort_texts, ◌≡◌,
  refl, sym, ◌∙◌, arith, text_eq_iff, text_eq_refl, elem-append, elem-sort_texts,
  sort_texts-IsSorted, IsSorted, IsStrict, All-of_elem, elem-All, Bool-cases, inl, inr,
  if◌then◌else◌, text_le, text_trichotomy,
}
use pgdesign.Rev.{Revision, revision_string}
use pgdesign.Chain.Edge.{
  Edge, RevisionMap, put, read, has_key, Graph, is_genesis, add_edge, add_edges, no_edges,
  collect_heads, find_heads,
}

-- A map whose values stand under their own texts.
abbrev IsNamed : RevisionMap → Type 0
IsNamed [] = Unit
IsNamed ((k, v) ∷ m) = (revision_string v ≡ k) × IsNamed m

has_key-put :
    (t k : Text) (v : Revision) (m : RevisionMap)
    → has_key t (put k v m) ≡ (text_eq t k || has_key t m)
unfolding has_key put
has_key-put t k v [] = ground (arith, text_eq_iff t k, text_eq_iff k t)
has_key-put t k v ((j, w) ∷ m) =
    ground (
      arith,
      has_key-put t k v m,
      text_eq_iff j k,
      text_eq_iff k t,
      text_eq_iff t k,
      text_eq_iff j t,
    )

put-IsNamed :
    (k : Text) (v : Revision) (m : RevisionMap)
    → revision_string v ≡ k
    → IsNamed m
    → IsNamed (put k v m)
unfolding put
put-IsNamed k v [] e h = (e, tt)
put-IsNamed k v ((j, w) ∷ m) e h = elim (Bool-cases (text_eq j k)) [
  | inl q ↦ rw q (e, h.1)
  | inr q ↦ rw q (h.0, put-IsNamed k v m e h.1)
]

read-IsNamed :
    (t : Text) (m : RevisionMap) → IsNamed m → has_key t m ≡ true → revision_string (read t m) ≡ t
unfolding read has_key
read-IsNamed t [] h k = cc
read-IsNamed t ((j, w) ∷ m) h k = elim (Bool-cases (text_eq j t)) [
  | inl q ↦ rw q (h.0 ∙ (text_eq_iff j t).0 q)
  | inr q ↦ rw q (read-IsNamed t m h.1 (rw q at k))
]

-- The state of the first loop.
record IsTidy (g : Graph) : Type 0 where
  named : IsNamed g.targets
  keyed : (t : Text) → has_key t g.targets ≡ elem t g.target_order

module _ {ℓ} {Op : Type ℓ} where
  -- The texts of the edges' targets, and of the parents of those that are not genesis edges.
  abbrev pub target_strings : List (Edge Op) → List Text
  target_strings [] = []
  target_strings (e ∷ es) = revision_string e.target ∷ target_strings es

  abbrev pub parent_strings : List (Edge Op) → List Text
  parent_strings [] = []
  parent_strings (e ∷ es) =
      if is_genesis e then parent_strings es else revision_string e.parent ∷ parent_strings es

  add_edge-IsTidy : (g : Graph) (e : Edge Op) → IsTidy g → IsTidy (add_edge g e)
  unfolding add_edge elem
  add_edge-IsTidy g e h = record {
    named = put-IsNamed (revision_string e.target) e.target g.targets refl h.named;
    keyed = λ t.
        let ts = revision_string e.target in
        ground (
          arith,
          has_key-put t ts e.target g.targets,
          h.keyed t,
          h.keyed ts,
          text_eq_iff t ts,
          elem-append t g.target_order (ts ∷ []),
        );
  }

  target_order-add_edge :
      (g : Graph) (e : Edge Op) (t : Text)
      → IsTidy g
      → elem t (add_edge g e).target_order
        ≡ (text_eq t (revision_string e.target) || elem t g.target_order)
  unfolding add_edge elem
  target_order-add_edge g e t h =
      let ts = revision_string e.target in
      ground (arith, h.keyed ts, text_eq_iff t ts, elem-append t g.target_order (ts ∷ []))

  add_edges-IsTidy : (g : Graph) (es : List (Edge Op)) → IsTidy g → IsTidy (add_edges g es)
  unfolding add_edges
  add_edges-IsTidy g [] h = h
  add_edges-IsTidy g (e ∷ es) h = add_edges-IsTidy (add_edge g e) es (add_edge-IsTidy g e h)

  target_order-add_edges :
      (g : Graph) (es : List (Edge Op)) (t : Text)
      → IsTidy g
      → elem t (add_edges g es).target_order ≡ (elem t (target_strings es) || elem t g.target_order)
  unfolding add_edges elem
  target_order-add_edges g [] t h = refl
  target_order-add_edges g (e ∷ es) t h = ground (
    arith,
    target_order-add_edges (add_edge g e) es t (add_edge-IsTidy g e h),
    target_order-add_edge g e t h,
  )

  parents-add_edge :
      (g : Graph) (e : Edge Op) (t : Text)
      → elem t (add_edge g e).parents
        ≡ ((not (is_genesis e) && text_eq t (revision_string e.parent)) || elem t g.parents)
  unfolding add_edge elem
  parents-add_edge g e t = ground arith

  parents-add_edges :
      (g : Graph) (es : List (Edge Op)) (t : Text)
      → elem t (add_edges g es).parents ≡ (elem t (parent_strings es) || elem t g.parents)
  unfolding add_edges elem
  parents-add_edges g [] t = refl
  parents-add_edges g (e ∷ es) t =
      ground (arith, parents-add_edges (add_edge g e) es t, parents-add_edge g e t)

strings : List Revision → List Text
strings = map revision_string

fresh_member :
    (x y : Text) (l seen parents : List Text)
    → (elem y l && (not (elem y parents) && not (elem y (x ∷ seen)))) ≡ true
    → (elem y l ≡ true) × (text_eq y x ≡ false)
unfolding elem
fresh_member x y l seen parents h = ground arith

lt_of_fresh : (x y : Text) → text_le x y ≡ true → text_eq y x ≡ false → text_lt x y ≡ true
lt_of_fresh x y h k = ground (arith, text_trichotomy x y, text_eq_iff y x)

module _ (g : Graph) (h : IsNamed g.targets) where
  -- What the second loop collects of `l`.
  elem-collect :
      (seen l : List Text) (t : Text)
      → ((x : Text) → elem x l ≡ true → has_key x g.targets ≡ true)
      → elem t (strings (collect_heads g seen l))
        ≡ (elem t l && (not (elem t g.parents) && not (elem t seen)))
  unfolding collect_heads strings elem
  elem-collect seen [] t k = refl
  elem-collect seen (x ∷ l) t k =
      let k' = λ (y : Text) (e : elem y l ≡ true). k y (ground arith) in
      ground (
        arith,
        elem-collect seen l t k',
        elem-collect (x ∷ seen) l t k',
        text_eq_iff t x,
        read-IsNamed x g.targets h (k x (ground (arith, text_eq_refl x))),
      )

  collect-IsStrict :
      (seen l : List Text)
      → ((x : Text) → elem x l ≡ true → has_key x g.targets ≡ true)
      → IsSorted l
      → IsStrict (strings (collect_heads g seen l))
  unfolding collect_heads strings elem
  collect-IsStrict seen [] k s = tt
  collect-IsStrict seen (x ∷ l) k s =
      let k' = λ (y : Text) (e : elem y l ≡ true). k y (ground arith) in
      let skipped = collect-IsStrict seen l k' s.1 in
      elim (Bool-cases (elem x g.parents)) [
        | inl p ↦ rw p skipped
        | inr p ↦ elim (Bool-cases (elem x seen)) [
          | inl q ↦ rw (p, q) skipped
          | inr q ↦
              rw (p, q, read-IsNamed x g.targets h (k x (ground (arith, text_eq_refl x))))
                (
                  All-of_elem (λ y. text_lt x y ≡ true) (strings (collect_heads g (x ∷ seen) l))
                      (λ y e.
                        let (there, fresh) =
                          fresh_member x y l seen g.parents
                            (sym (elem-collect (x ∷ seen) l y k') ∙ e) in
                        lt_of_fresh x y (elem-All (λ z. text_le x z ≡ true) l y s.0 there) fresh),
                  collect-IsStrict (x ∷ seen) l k' s.1,
                )
        ]
      ]

module _ {ℓ} {Op : Type ℓ} (edges : List (Edge Op)) where
  abbrev built : Graph
  built = add_edges no_edges edges

  built-IsTidy : IsTidy built
  unfolding has_key elem
  built-IsTidy = add_edges-IsTidy no_edges edges (record { named = tt; keyed = λ t. refl })

  keyed_sorted :
      (x : Text) → elem x (sort_texts built.target_order) ≡ true → has_key x built.targets ≡ true
  keyed_sorted x e = built-IsTidy.keyed x ∙ sym (elem-sort_texts x built.target_order) ∙ e

  members :
      (t : Text)
      → (elem t (sort_texts built.target_order) && (not (elem t built.parents) && not (elem t [])))
        ≡ (elem t (target_strings edges) && not (elem t (parent_strings edges)))
  unfolding elem has_key
  members t = ground (
    arith,
    elem-sort_texts t built.target_order,
    target_order-add_edges no_edges edges t (record { named = tt; keyed = λ x. refl }),
    parents-add_edges no_edges edges t,
  )

  -- A text is that of a head exactly when it is the text of some edge's target and not that of the
  -- parent of an edge that is no genesis edge; the heads come in increasing order, each once.
  pub find_heads_correct :
      ((t : Text)
        → elem t (map revision_string (find_heads edges))
          ≡ (elem t (target_strings edges) && not (elem t (parent_strings edges))))
      × IsStrict (map revision_string (find_heads edges))
  unfolding find_heads strings
  find_heads_correct = (
    λ t.
        elem-collect built built-IsTidy.named [] (sort_texts built.target_order) t keyed_sorted
        ∙ members t,
    collect-IsStrict built built-IsTidy.named [] (sort_texts built.target_order) keyed_sorted
        (sort_texts-IsSorted built.target_order),
  )
