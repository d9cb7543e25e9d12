-- ===== src/Diff/Match/Grouped.antt =====
-- internal/diff/match.go, truncationCollisions: the groups of names that are one after the cut.
use pgdesign.Base.{
  Text, List, [], ◌∷◌, true, false, not, ◌&&◌, ◌||◌, inl, inr, ◌⊎◌, ◌↔◌, ◌≡◌, refl, sym, ◌∙◌, ap,
  arith, Bool-cases, text_eq, text_eq_iff, elem, elem-append, elem-sort_texts, sort_texts, length,
  length-sort_texts, leb, ◌≤◌,
}
use pgdesign.Diff.Match.{
  truncate_ident, Groups, push_group, group_names, group_keys, group_at, dedupe, dedupe_sorted,
  report_collisions, truncation_collisions,
}

elem-push_group :
    (n t u x : Text) (m : Groups)
    → elem n (group_at t (push_group u x m))
      ≡ (elem n (group_at t m) || (text_eq u t && text_eq n x))
unfolding push_group group_at elem
elem-push_group n t u x [] = ground arith
elem-push_group n t u x ((k, group) ∷ m) = ground (
  arith,
  elem-push_group n t u x m,
  elem-append n group (x ∷ []),
  text_eq_iff k u,
  text_eq_iff k t,
  text_eq_iff u t,
)

elem-group_names :
    (n t : Text) (ns : List Text) (m : Groups)
    → elem n (group_at t (group_names ns m))
      ≡ (elem n (group_at t m) || (elem n ns && text_eq (truncate_ident n) t))
unfolding group_names elem
elem-group_names n t [] m = ground arith
elem-group_names n t (x ∷ ns) m = ground (
  arith,
  elem-group_names n t ns (push_group (truncate_ident x) x m),
  elem-push_group n t (truncate_ident x) x m,
  text_eq_iff n x,
)

pub elem-keys-push :
    (t u x : Text) (m : Groups)
    → elem t (group_keys (push_group u x m)) ≡ (elem t (group_keys m) || text_eq t u)
unfolding push_group group_keys elem
elem-keys-push t u x [] = ground arith
elem-keys-push t u x ((k, group) ∷ m) =
    ground (arith, elem-keys-push t u x m, text_eq_iff k u, text_eq_iff t u, text_eq_iff t k)

pub elem-keys-group_names :
    (n : Text) (ns : List Text) (m : Groups)
    → elem (truncate_ident n) (group_keys m) ≡ true ⊎ (elem n ns ≡ true)
    → elem (truncate_ident n) (group_keys (group_names ns m)) ≡ true
unfolding group_names elem
elem-keys-group_names n [] m (inl h) = h
elem-keys-group_names n [] m (inr h) = cc
elem-keys-group_names n (x ∷ ns) m h =
    let push = elem-keys-push (truncate_ident n) (truncate_ident x) x m in
    elem-keys-group_names n ns (push_group (truncate_ident x) x m) (elim h [
      | inl old ↦ inl (ground arith)
      | inr e ↦ elim (Bool-cases (text_eq n x)) [
        | inl same ↦
            let cut : text_eq (truncate_ident n) (truncate_ident x) ≡ true =
              (text_eq_iff (truncate_ident n) (truncate_ident x)).1
                (ap truncate_ident ((text_eq_iff n x).0 same)) in
            inl (ground arith)
        | inr other ↦ inr (rw other at e)
      ]
    ])

pub elem-dedupe :
    (a : Text) (seen s : List Text) → elem a (dedupe seen s) ≡ (elem a s && not (elem a seen))
unfolding dedupe elem
elem-dedupe a seen [] = refl
elem-dedupe a seen (v ∷ s) =
    ground (arith, elem-dedupe a seen s, elem-dedupe a (v ∷ seen) s, text_eq_iff a v)

-- All members are one.
abbrev pub AllSame : List Text → Type 0
AllSame g = (a b : Text) → elem a g ≡ true → elem b g ≡ true → a ≡ b

no_members : (l : List Text) → ((a : Text) → elem a l ≡ false) → length l ≡ 0
unfolding elem
no_members [] h = refl
no_members (x ∷ l) h = cc (h x, (text_eq_iff x x).1 refl)

at_most_one : (l : List Text) → length l ≤ 1 → AllSame l
unfolding elem
at_most_one [] h a b e f = cc
at_most_one (x ∷ []) h a b e f = ground (arith, text_eq_iff a x, text_eq_iff b x)
at_most_one (x ∷ y ∷ l) h a b e f = let no_way : ⊥ = omega arith in elim no_way [ ]

length-dedupe_same : (s : List Text) → AllSame s → length (dedupe [] s) ≤ 1
unfolding dedupe elem
length-dedupe_same [] same = omega arith
length-dedupe_same (v ∷ s) same =
    let rest : length (dedupe (v ∷ []) s) ≡ 0 = no_members (dedupe (v ∷ []) s) (λ a.
      elim (Bool-cases (elem a s)) [
        | inl m ↦
            let is : a ≡ v =
              same a v (unfold elem in (ground arith))
                (unfold elem in (ground (arith, text_eq_iff v v))) in
            let eq = (text_eq_iff a v).1 is in
            rw (elem-dedupe a (v ∷ []) s) (unfold elem in (ground arith))
        | inr m ↦ rw (elem-dedupe a (v ∷ []) s, m) refl
      ]) in
    omega (arith, rest)

-- A group holds one name exactly when fewer than two are left without the duplicates.
pub one_name : (g : List Text) → (leb 2 (length (dedupe_sorted g)) ≡ false) ↔ AllSame g
unfolding dedupe_sorted elem
one_name g =
    let len = length-sort_texts (dedupe [] g) in
    (
      λ h a b e f.
          at_most_one (dedupe [] g) (ground (arith, len)) a b (rw (elem-dedupe a [] g, e) refl)
            (rw (elem-dedupe b [] g, f) refl),
      λ same. let short = length-dedupe_same g same in ground (arith, len),
    )

no_reports :
    (m : Groups) (ts : List Text)
    → (report_collisions m ts ≡ []) ↔ ((t : Text) → elem t ts ≡ true → AllSame (group_at t m))
unfolding report_collisions elem
no_reports m [] = (λ h t e. cc, λ h. refl)
no_reports m (t ∷ ts) =
    let ih = no_reports m ts in
    let one = one_name (group_at t m) in
    elim (Bool-cases (leb 2 (length (dedupe_sorted (group_at t m))))) [
      | inl two ↦ rw two (λ h. cc, λ h. cc (one.1 (h t (ground (arith, text_eq_iff t t))), two))
      | inr fine ↦ rw fine (
        λ h u e. elim (Bool-cases (text_eq u t)) [
          | inl q ↦ rw ((text_eq_iff u t).0 q) (one.0 fine)
          | inr q ↦ ih.0 h u (rw q at e)
        ],
        λ h. ih.1 (λ u e. h u (ground arith)),
      )
    ]

pub in_own_group :
    (names : List Text) (n t : Text)
    → (elem n (group_at t (group_names names [])) ≡ true)
      ↔ (elem n names ≡ true) × (truncate_ident n ≡ t)
unfolding group_at elem
in_own_group names n t =
    let g = elem-group_names n t names [] in
    let q = text_eq_iff (truncate_ident n) t in
    (
      λ h. (ground (arith, g), q.0 (ground (arith, g))),
      λ (e, s). let k = q.1 s in ground (arith, g),
    )

-- No collision is reported exactly when no two different names are one after the cut to 63 bytes.
pub no_collisions :
    (names : List Text)
    → (truncation_collisions names ≡ []) ↔ (
        (a b : Text)
        → elem a names ≡ true
        → elem b names ≡ true
        → truncate_ident a ≡ truncate_ident b
        → a ≡ b)
unfolding truncation_collisions
no_collisions names =
    let m = group_names names [] in
    let all = no_reports m (sort_texts (group_keys m)) in
    (
      λ h a b e f same.
          let t = truncate_ident a in
          let listed : elem t (sort_texts (group_keys m)) ≡ true =
            elem-sort_texts t (group_keys m) ∙ elem-keys-group_names a names [] (inr e) in
          all.0 h t listed a b ((in_own_group names a t).1 (e, refl))
            ((in_own_group names b t).1 (f, sym same)),
      λ h. all.1 (λ t listed a b e f.
          let (i, s) = (in_own_group names a t).0 e in
          let (j, u) = (in_own_group names b t).0 f in h a b i j (s ∙ sym u)),
    )
