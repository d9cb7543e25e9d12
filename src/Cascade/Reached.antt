-- ===== src/Cascade/Reached.antt =====
-- internal/model/fkgraph.go, CascadeChain: the loop that keeps the first of each table.
use pgdesign.Base.{
  Text, List, [], ◌∷◌, map, true, false, In, inl, inr, ◌↔◌, ◌≡◌, refl, arith, Bool-cases, elem,
  text_eq, text_eq_iff, sym, ◌∙◌, ap,
}
use pgdesign.Cascade.{reached_tables}

-- No text is twice in the list.
abbrev pub Unique : List Text → Type 0
Unique [] = Unit
Unique (t ∷ ts) = (elem t ts ≡ false) × Unique ts

pub reached-elem :
    (seen ts : List Text) (t : Text)
    → (elem t (reached_tables seen ts) ≡ true) ↔ (elem t ts ≡ true) × (elem t seen ≡ false)
unfolding reached_tables elem
reached-elem seen [] t = (λ h. cc, λ (h, n). cc)
reached-elem seen (x ∷ ts) t =
    let same = text_eq_iff t x in
    elim (Bool-cases (elem x seen)) [
      | inl e ↦
          let rest = reached-elem seen ts t in
          rw e (
            λ h. let (m, n) = rest.0 h in (ground arith, n),
            λ (h, n). rest.1 (
              elim (Bool-cases (text_eq t x)) [
                | inl q ↦ cc (rw (same.0 q) at n, e)
                | inr q ↦ rw q at h
              ],
              n,
            ),
          )
      | inr e ↦
          let rest = reached-elem (x ∷ seen) ts t in
          rw e (
            λ h. elim (Bool-cases (text_eq t x)) [
              | inl q ↦ (ground arith, rw (same.0 q) e)
              | inr q ↦ let (m, n) = rest.0 (rw q at h) in (ground arith, ground arith)
            ],
            λ (h, n). elim (Bool-cases (text_eq t x)) [
              | inl q ↦ rw q refl
              | inr q ↦ rw q (rest.1 (rw q at h, rw q n))
            ],
          )
    ]

pub reached-Unique : (seen ts : List Text) → Unique (reached_tables seen ts)
unfolding reached_tables elem
reached-Unique seen [] = tt
reached-Unique seen (x ∷ ts) = elim (Bool-cases (elem x seen)) [
  | inl e ↦ rw e (reached-Unique seen ts)
  | inr e ↦
      let fresh : elem x (reached_tables (x ∷ seen) ts) ≡ false =
        elim (Bool-cases (elem x (reached_tables (x ∷ seen) ts))) [
          | inl m ↦
              let (h, n) = (reached-elem (x ∷ seen) ts x).0 m in
              let own = (text_eq_iff x x).1 refl in cc (rw own at n)
          | inr f ↦ f
        ] in
      rw e (fresh, reached-Unique (x ∷ seen) ts)
]

pub elem-map :
    {A : Type 0} (f : A → Text) (xs : List A) (t : Text)
    → (elem t (map f xs) ≡ true) ↔ ((a : A) × In a xs × (f a ≡ t))
unfolding elem
elem-map f [] t = (λ h. cc, λ (a, m, e). elim m [ ])
elem-map f (x ∷ xs) t =
    let rest = elem-map f xs t in
    let same = text_eq_iff t (f x) in
    (
      λ h. elim (Bool-cases (text_eq t (f x))) [
        | inl q ↦ (x, inl refl, sym (same.0 q))
        | inr q ↦ let (a, m, e) = rest.0 (rw q at h) in (a, inr m, e)
      ],
      λ (a, m, e). elim m [
        | inl is ↦ let q : text_eq t (f x) ≡ true = same.1 (sym e ∙ ap f is) in ground arith
        | inr old ↦ let h = rest.1 (a, old, e) in ground arith
      ],
    )
