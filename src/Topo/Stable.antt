-- ===== src/Topo/Stable.antt =====
-- internal/graph/topo.go, TopoSortStable: the order of the input does not matter.
use pgdesign.Base.{
  Text, List, [], ◌∷◌, Bool, true, In, inl, inr, ◌⊎◌, ◌≡◌, ◌≢◌, refl, arith, Bool-cases, text_lt,
  text_lt_irrefl, text_lt_trans, text_trichotomy, insert_by, sort_by, In-sort_by, sort_by-In, subst,
  sym, ap, ◌↔◌,
}
use pgdesign.Topo.{topo_sort, topo_sort_stable}

module _ {T : Type 0} (get_name : T → Text) where
  -- No two items of the list have one name.
  abbrev pub NamesDiffer : List T → Type 0
  NamesDiffer [] = Unit
  NamesDiffer (x ∷ xs) = ((y : T) → In y xs → get_name x ≢ get_name y) × NamesDiffer xs

  abbrev pub Before : T → List T → Type 0
  Before x xs = (y : T) → In y xs → text_lt (get_name x) (get_name y) ≡ true

  abbrev pub Ascends : List T → Type 0
  Ascends [] = Unit
  Ascends (x ∷ xs) = Before x xs × Ascends xs

  abbrev pub by_name : T → T → Bool
  by_name a b = text_lt (get_name a) (get_name b)

  In-insert : (a x : T) (xs : List T) → In a (insert_by by_name x xs) → (a ≡ x) ⊎ In a xs
  unfolding insert_by
  In-insert a x [] h = h
  In-insert a x (y ∷ ys) h = ground (arith, In-insert a x ys)

  insert-Ascends :
      (x : T) (xs : List T)
      → ((y : T) → In y xs → get_name x ≢ get_name y)
      → Ascends xs
      → Ascends (insert_by by_name x xs)
  unfolding insert_by
  insert-Ascends x [] n a = (λ y m. elim m [ ], tt)
  insert-Ascends x (y ∷ ys) n (b, a) = elim (Bool-cases (by_name y x)) [
    | inl lt ↦ rw lt (
      λ z m. elim (In-insert z x ys m) [ inl e ↦ rw e lt | inr old ↦ b z old ],
      insert-Ascends x ys (λ z m. n z (inr m)) a,
    )
    | inr ge ↦
        let less : text_lt (get_name x) (get_name y) ≡ true =
          elim (text_trichotomy (get_name x) (get_name y)) [
            | inl l ↦ l
            | inr (inl e) ↦ elim (n y (inl refl) e) [ ]
            | inr (inr l) ↦ cc (l, ge)
          ] in
        rw ge (
          λ z m. elim m [
            | inl e ↦ rw e less
            | inr old ↦ text_lt_trans (get_name x) (get_name y) (get_name z) less (b z old)
          ],
          (b, a),
        )
  ]

  pub sort-Ascends : (xs : List T) → NamesDiffer xs → Ascends (sort_by by_name xs)
  unfolding sort_by
  sort-Ascends [] d = tt
  sort-Ascends (x ∷ xs) (n, d) =
      insert-Ascends x (sort_by by_name xs) (λ y m. n y (In-sort_by by_name y xs m))
        (sort-Ascends xs d)

  tail_same :
      (x : T) (xs ys : List T)
      → Before x xs
      → ((z : T) → In z (x ∷ xs) → In z (x ∷ ys))
      → (z : T) → In z xs
      → In z ys
  tail_same x xs ys b w z m = elim (w z (inr m)) [
    | inl e ↦ cc (b z m, ap get_name e, text_lt_irrefl (get_name x))
    | inr there ↦ there
  ]

  Ascends-unique :
      (xs ys : List T)
      → Ascends xs
      → Ascends ys
      → ((z : T) → In z xs → In z ys)
      → ((z : T) → In z ys → In z xs)
      → xs ≡ ys
  Ascends-unique [] [] a b f g = refl
  Ascends-unique [] (y ∷ ys) a b f g = elim (g y (inl refl)) [ ]
  Ascends-unique (x ∷ xs) [] a b f g = elim (f x (inl refl)) [ ]
  Ascends-unique (x ∷ xs) (y ∷ ys) (p, a) (q, b) f g =
      let same : x ≡ y = elim (f x (inl refl)) [
        | inl e ↦ e
        | inr m ↦ elim (g y (inl refl)) [
          | inl e ↦ sym e
          | inr k ↦ cc (
            text_lt_trans (get_name x) (get_name y) (get_name x) (p y k) (q x m),
            text_lt_irrefl (get_name x),
          )
        ]
      ] in
      let f' : (z : T) → In z (x ∷ xs) → In z (x ∷ ys) =
        subst (λ w. (z : T) → In z (x ∷ xs) → In z (w ∷ ys)) (sym same) f in
      let g' : (z : T) → In z (x ∷ ys) → In z (x ∷ xs) =
        subst (λ w. (z : T) → In z (w ∷ ys) → In z (x ∷ xs)) (sym same) g in
      let q' : Before x ys = subst (λ w. Before w ys) (sym same) q in
      let tails : xs ≡ ys =
        Ascends-unique xs ys a b (tail_same x xs ys p f') (tail_same x ys xs q' g') in
      rw (same, tails) refl

  -- Two lists of the same items, in whatever orders, have the same result under TopoSortStable,
  -- sorted list and cycles, if the names in each list differ.
  pub topo_sort_stable_same :
      (get_deps : T → List Text) (xs ys : List T)
      → NamesDiffer xs
      → NamesDiffer ys
      → ((z : T) → In z xs ↔ In z ys)
      → topo_sort_stable get_name get_deps xs ≡ topo_sort_stable get_name get_deps ys
  unfolding topo_sort_stable
  topo_sort_stable_same get_deps xs ys d e same = ap (topo_sort get_name get_deps) (
      Ascends-unique (sort_by by_name xs) (sort_by by_name ys) (sort-Ascends xs d)
        (sort-Ascends ys e)
        (λ z m. sort_by-In by_name z ys ((same z).0 (In-sort_by by_name z xs m)))
        (λ z m. sort_by-In by_name z xs ((same z).1 (In-sort_by by_name z ys m))))
