-- ===== src/Topo/Placed.antt =====
-- internal/graph/topo.go: without a cycle, each item stands after the items whose names it lists.
use pgdesign.Base.{
  ℕ, zero, suc, Text, List, [], ◌∷◌, ◌++◌, true, some, In, inl, inr, ◌⊎◌, ◌≡◌, ◌≢◌, refl, arith,
  Bool-cases, get_elem?, text_lt, text_lt_irrefl, sort_by, sort_by-In, subst, sym, ◌∙◌, ap,
  append-nil, ◌==◌, ==_iff,
}
use pgdesign.Topo.{items_at, topo_sort, topo_sort_stable}
use pgdesign.Topo.Count.{has}
use pgdesign.Topo.Names.{IsNamed, IsLastNamed}
use pgdesign.Topo.Rest.{position_of}
use pgdesign.Topo.Depends.{DependsOn}
use pgdesign.Topo.Sorted.{InOrder, IsSorting, topo_sort_correct}
use pgdesign.Topo.Stable.{NamesDiffer, Ascends, by_name, sort-Ascends}

place : {T : Type 0} (items : List T) (y : T) → In y items → (d : ℕ) × (get_elem? items d ≡ some y)
place [] y m = elim m [ ]
place (x ∷ items) y (inl e) = (0, rw e refl)
place (x ∷ items) y (inr m) = let (d, g) = place items y m in (suc d, g)

at_place : {T : Type 0} (items : List T) (d : ℕ) (y : T) → get_elem? items d ≡ some y → In y items
at_place [] d y g = cc
at_place (x ∷ items) zero y g = inl cc
at_place (x ∷ items) (suc d) y g = inr (at_place items d y g)

module _ {T : Type 0} (get_name : T → Text) where
  Ascends-NamesDiffer : (xs : List T) → Ascends get_name xs → NamesDiffer get_name xs
  Ascends-NamesDiffer [] a = tt
  Ascends-NamesDiffer (x ∷ xs) (b, a) = (
    λ y m e.
        let lt : text_lt (get_name x) (get_name x) ≡ true =
          subst (λ t. text_lt (get_name x) t ≡ true) (sym e) (b y m) in
        cc (lt, text_lt_irrefl (get_name x)),
    Ascends-NamesDiffer xs a,
  )

  one_place :
      (items : List T) (d e : ℕ) (y z : T)
      → NamesDiffer get_name items
      → get_elem? items d ≡ some y
      → get_elem? items e ≡ some z
      → get_name z ≡ get_name y
      → e ≡ d
  one_place [] d e y z n g h s = cc
  one_place (x ∷ items) zero zero y z n g h s = refl
  one_place (x ∷ items) zero (suc e) y z (n, ns) g h s =
      let is : x ≡ y = cc in elim (n z (at_place items e z h) (ap get_name is ∙ sym s)) [ ]
  one_place (x ∷ items) (suc d) zero y z (n, ns) g h s =
      let is : x ≡ z = cc in elim (n y (at_place items d y g) (ap get_name is ∙ s)) [ ]
  one_place (x ∷ items) (suc d) (suc e) y z (n, ns) g h s =
      ap suc (one_place items d e y z ns g h s)

  last_named :
      (items : List T) (d : ℕ) (y : T) (dep : Text)
      → NamesDiffer get_name items
      → get_elem? items d ≡ some y
      → get_name y ≡ dep
      → IsLastNamed get_name items d dep
  unfolding IsLastNamed IsNamed
  last_named items d y dep n g s = (
    (y, g, s),
    λ e (z, h, t). let same = one_place items d e y z n g h (t ∙ sym s) in omega (arith, same),
  )

  module _ (get_deps : T → List Text) (items : List T) where
    emitted_before :
        (out order : List ℕ) (b a : List T) (x : T)
        → InOrder get_name get_deps items out order
        → ((i : ℕ) → has i order ≡ true → (z : T) × (get_elem? items i ≡ some z))
        → items_at items order ≡ b ++ (x ∷ a)
        → (i : ℕ) × (get_elem? items i ≡ some x)
          × ((d : ℕ)
              → DependsOn get_name get_deps items i d
              → (has d out ≡ true) ⊎ ((y : T) × (get_elem? items d ≡ some y) × In y b))
    unfolding InOrder items_at has
    emitted_before out [] [] a x o v e = cc
    emitted_before out [] (w ∷ b) a x o v e = cc
    emitted_before out (i ∷ order) [] a x (needs, o) v e =
        let (z, g) = v i (ground arith) in
        let list : z ∷ items_at items order ≡ x ∷ a = rw (g, items_at) at e in
        let is : z ≡ x = cc in
        (i, subst (λ t. get_elem? items i ≡ some t) is g, λ d n. inl (needs d n))
    emitted_before out (i ∷ order) (w ∷ b) a x (needs, o) v e =
        let (z, g) = v i (ground arith) in
        let list : z ∷ items_at items order ≡ w ∷ (b ++ (x ∷ a)) = rw (g, items_at) at e in
        let is : z ≡ w = cc in
        let rest : items_at items order ≡ b ++ (x ∷ a) = cc in
        let (j, h, before) =
          emitted_before (i ∷ out) order b a x o (λ k m. v k (ground arith)) rest in
        (
          j,
          h,
          λ d n. elim (before d n) [
            | inr (y, at, m) ↦ inr (y, at, inr m)
            | inl m ↦ elim (Bool-cases (d == i)) [
              | inl q ↦
                  let same : i ≡ d = sym ((==_iff d i).0 q) in
                  inr (z, subst (λ k. get_elem? items k ≡ some z) same g, inl is)
              | inr q ↦ inl (ground arith)
            ]
          ],
        )

    no_rest :
        (s : IsSorting get_name get_deps items
          (topo_sort get_name get_deps items).0
          (topo_sort get_name get_deps items).1)
        → (topo_sort get_name get_deps items).1 ≡ []
        → s.rest ≡ []
    no_rest s none_found = elim s.are_cycles [ inl (z, e) ↦ z | inr (n, e) ↦ cc (e, none_found) ]

    placed :
        (b a : List T) (x y : T) (dep : Text)
        → NamesDiffer get_name items
        → (topo_sort get_name get_deps items).1 ≡ []
        → (topo_sort get_name get_deps items).0 ≡ b ++ (x ∷ a)
        → In dep (get_deps x)
        → In y items
        → get_name y ≡ dep
        → dep ≢ get_name x
        → In y b
    unfolding DependsOn has
    placed b a x y dep n none_found split m my named apart =
        let s = topo_sort_correct get_name get_deps items in
        let no_more = no_rest s none_found in
        let whole : s.order ++ s.rest ≡ s.order = rw (no_more, append-nil) refl in
        let list : items_at items s.order ≡ b ++ (x ∷ a) =
          sym (ap (items_at items) whole) ∙ sym s.is_sorted ∙ split in
        let valid : (i : ℕ) → has i s.order ≡ true → (z : T) × (get_elem? items i ≡ some z) =
          λ i h. position_of items i (s.all_below i (subst (λ l. has i l ≡ true) (sym whole) h)) in
        let (i, g, before) = emitted_before [] s.order b a x s.in_order valid list in
        let (d, h) = place items y my in
        let last = last_named items d y dep n h named in
        elim (before d (x, dep, g, m, apart, last)) [
          | inl nothing ↦ cc
          | inr (y', h', found) ↦ let is : y' ≡ y = cc in subst (λ t. In t b) is found
        ]

  -- If the names differ and TopoSortStable reports no cycle, an item whose name another item lists
  -- stands before that item in the sorted list.
  pub topo_sort_stable_placed :
      (get_deps : T → List Text) (items b a : List T) (x y : T)
      → NamesDiffer get_name items
      → (topo_sort_stable get_name get_deps items).1 ≡ []
      → (topo_sort_stable get_name get_deps items).0 ≡ b ++ (x ∷ a)
      → In y items
      → In (get_name y) (get_deps x)
      → get_name y ≢ get_name x
      → In y b
  unfolding topo_sort_stable
  topo_sort_stable_placed get_deps items b a x y n none_found split my m apart =
      let by = by_name get_name in
      placed get_deps (sort_by by items) b a x y (get_name y)
        (Ascends-NamesDiffer (sort_by by items) (sort-Ascends get_name items n)) none_found split m
        (sort_by-In by y items my) refl apart
