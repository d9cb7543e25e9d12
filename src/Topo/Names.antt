-- ===== src/Topo/Names.antt =====
-- internal/graph/topo.go, TopoSort: the entries of the map `nameToIdx`.
use pgdesign.Base.{
  ℕ, zero, suc, ◌+◌, ◌≤◌, ◌<◌, Text, List, [], ◌∷◌, none, some, inl, inr, ◌≡◌, refl, arith,
  Bool-cases, Option-cases, length, get_elem?, ◌∙◌, ap, text_eq, text_eq_iff,
}
use pgdesign.Topo.{newer, name_to_idx}

module _ {T : Type 0} (get_name : T → Text) where
  unfoldable pub IsNamed : List T → ℕ → Text → Type 0
  IsNamed items d name = (y : T) × (get_elem? items d ≡ some y) × (get_name y ≡ name)

  -- The last item of a name.
  unfoldable pub IsLastNamed : List T → ℕ → Text → Type 0
  IsLastNamed items d name = IsNamed items d name × ((e : ℕ) → IsNamed items e name → e ≤ d)

  name_to_idx-none :
      (i : ℕ) (items : List T) (name : Text) (d : ℕ)
      → name_to_idx get_name i items name ≡ none
      → ¬ IsNamed items d name
  unfolding name_to_idx IsNamed newer
  name_to_idx-none i [] name d h (y, g, e) = cc
  name_to_idx-none i (x ∷ items) name zero h (y, g, e) =
      let same : x ≡ y = cc in
      let named = (text_eq_iff (get_name x) name).1 (ap get_name same ∙ e) in
      elim (Option-cases (name_to_idx get_name (suc i) items name)) [
        | inr (j, f) ↦ cc (rw (f, newer) at h)
        | inl f ↦ cc (rw (f, named, newer) at h)
      ]
  name_to_idx-none i (x ∷ items) name (suc d) h n =
      elim (Option-cases (name_to_idx get_name (suc i) items name)) [
        | inr (j, f) ↦ cc (rw (f, newer) at h)
        | inl f ↦ name_to_idx-none (suc i) items name d f n
      ]

  later_named :
      (x : T) (items : List T) (name : Text) (d : ℕ)
      → ((e : ℕ) → IsNamed items e name → e ≤ d)
      → (e : ℕ) → IsNamed (x ∷ items) e name
      → e ≤ suc d
  unfolding IsNamed
  later_named x items name d last zero n = omega arith
  later_named x items name d last (suc e) n = omega (arith, last e n)

  only_first :
      (i : ℕ) (x : T) (items : List T) (name : Text)
      → name_to_idx get_name i items name ≡ none
      → (e : ℕ) → IsNamed (x ∷ items) e name
      → e ≤ 0
  unfolding IsNamed
  only_first i x items name f zero n = omega arith
  only_first i x items name f (suc e) n = elim (name_to_idx-none i items name e f n) [ ]

  pub name_to_idx-some :
      (i : ℕ) (items : List T) (name : Text) (j : ℕ)
      → name_to_idx get_name i items name ≡ some j
      → (d : ℕ) × (j ≡ i + d) × (d < length items) × IsLastNamed items d name
  unfolding name_to_idx IsNamed IsLastNamed newer
  name_to_idx-some i [] name j h = cc
  name_to_idx-some i (x ∷ items) name j h =
      elim (Option-cases (name_to_idx get_name (suc i) items name)) [
        | inr (k, f) ↦
            let (d, at, b, (named, last)) = name_to_idx-some (suc i) items name k f in
            let same : some k ≡ some j = rw (f, newer) at h in
            let is : k ≡ j = cc in
            (
              suc d,
              omega (arith, at, is),
              omega (arith, b),
              (named, λ e n. later_named x items name d last e n),
            )
        | inl f ↦ elim (Bool-cases (text_eq (get_name x) name)) [
          | inl t ↦
              let same : some i ≡ some j = rw (f, t, newer) at h in
              let is : i ≡ j = cc in
              (
                0,
                omega (arith, is),
                omega arith,
                (
                  (x, refl, (text_eq_iff (get_name x) name).0 t),
                  λ e n. only_first (suc i) x items name f e n,
                ),
              )
          | inr t ↦ cc (rw (f, t, newer) at h)
        ]
      ]

  pub name_to_idx_last :
      (items : List T) (name : Text) (d : ℕ)
      → IsLastNamed items d name
      → name_to_idx get_name 0 items name ≡ some d
  unfolding IsLastNamed
  name_to_idx_last items name d (named, last) =
      elim (Option-cases (name_to_idx get_name 0 items name)) [
        | inl f ↦ elim (name_to_idx-none 0 items name d f named) [ ]
        | inr (j, f) ↦
            let (e, at, b, (named', last')) = name_to_idx-some 0 items name j f in
            let low = last e named' in
            let high = last' d named in
            let same : j ≡ d = omega (arith, at, low, high) in rw same at f
      ]
