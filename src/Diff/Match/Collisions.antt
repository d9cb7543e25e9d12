-- ===== src/Diff/Match/Collisions.antt =====
-- internal/diff/match.go, truncationCollisions: what is reported.
use pgdesign.Base.{
  ℕ, zero, suc, ◌≤◌, Text, List, [], ◌∷◌, map, true, false, In, inl, inr, ◌↔◌, ◌≡◌, ◌≢◌, refl, sym,
  ◌∙◌, ap, subst, arith, Bool-cases, text_eq, text_eq_iff, text_lt, text_le, text_trichotomy, elem,
  take, length, leb, sort_texts, insert_text, elem-insert_text, elem-sort_texts,
  sort_texts-IsSorted, All, All-of_elem, elem-All, IsSorted, IsStrict,
}
use pgdesign.Diff.Match.{
  truncate_ident, max_ident_bytes, Groups, push_group, group_names, group_keys, group_at, dedupe,
  dedupe_sorted, report_collisions, truncation_collisions,
}
use pgdesign.Diff.Match.Grouped.{
  one_name, in_own_group, elem-keys-group_names, elem-keys-push, elem-dedupe,
}

take_short : (n : ℕ) (s : Text) → length s ≤ n → take n s ≡ s
take_short zero [] h = refl
take_short zero (x ∷ s) h = let no_way : ⊥ = omega (arith, h) in elim no_way [ ]
take_short (suc n) [] h = refl
take_short (suc n) (x ∷ s) h = ap (λ l. x ∷ l) (take_short n s (omega (arith, h)))

-- What is left of a name, written out.
pub truncate_ident_lem : (s : Text) → truncate_ident s ≡ take 63 s
unfolding truncate_ident
truncate_ident_lem s = elim (Bool-cases (leb (length s) max_ident_bytes)) [
  | inl short ↦ rw short (sym (take_short max_ident_bytes s (ground arith)))
  | inr long ↦ rw long refl
]

-- No text is in the list twice.
abbrev IsOnce : List Text → Type 0
IsOnce [] = Unit
IsOnce (x ∷ xs) = (elem x xs ≡ false) × IsOnce xs

insert_text-IsOnce :
    (x : Text) (xs : List Text) → elem x xs ≡ false → IsOnce xs → IsOnce (insert_text x xs)
unfolding insert_text elem
insert_text-IsOnce x [] f h = (refl, tt)
insert_text-IsOnce x (y ∷ ys) f (g, h) =
    let turned = text_eq_iff x y in
    let back = text_eq_iff y x in
    elim (Bool-cases (text_lt y x)) [
      | inl e ↦
          rw e (ground (arith, elem-insert_text y x ys), insert_text-IsOnce x ys (ground arith) h)
      | inr e ↦ rw e (f, (g, h))
    ]

sort_texts-IsOnce : (xs : List Text) → IsOnce xs → IsOnce (sort_texts xs)
unfolding sort_texts
sort_texts-IsOnce [] h = tt
sort_texts-IsOnce (x ∷ xs) (f, h) =
    insert_text-IsOnce x (sort_texts xs) (elem-sort_texts x xs ∙ f) (sort_texts-IsOnce xs h)

less_of_le : (x y : Text) → text_le x y ≡ true → x ≢ y → text_lt x y ≡ true
less_of_le x y le apart = elim (text_trichotomy x y) [
  | inl lt ↦ lt
  | inr (inl e) ↦ elim (apart e) [ ]
  | inr (inr gt) ↦ ground arith
]

IsOnce-IsStrict : (xs : List Text) → IsSorted xs → IsOnce xs → IsStrict xs
IsOnce-IsStrict [] s o = tt
IsOnce-IsStrict (x ∷ xs) (a, s) (f, o) = (
  All-of_elem (λ y. text_lt x y ≡ true) xs
      (λ y e.
        less_of_le x y (elem-All (λ z. text_le x z ≡ true) xs y a e)
          (λ same. cc (rw (sym same) at e, f))),
  IsOnce-IsStrict xs s o,
)

sorted_once : (xs : List Text) → IsOnce xs → IsStrict (sort_texts xs)
sorted_once xs o = IsOnce-IsStrict (sort_texts xs) (sort_texts-IsSorted xs) (sort_texts-IsOnce xs o)

dedupe-IsOnce : (seen s : List Text) → IsOnce (dedupe seen s)
unfolding dedupe elem
dedupe-IsOnce seen [] = tt
dedupe-IsOnce seen (v ∷ s) = elim (Bool-cases (elem v seen)) [
  | inl e ↦ rw e (dedupe-IsOnce seen s)
  | inr e ↦
      rw e (ground (arith, elem-dedupe v (v ∷ seen) s, text_eq_iff v v), dedupe-IsOnce (v ∷ seen) s)
]

push_group-IsOnce :
    (t n : Text) (m : Groups) → IsOnce (group_keys m) → IsOnce (group_keys (push_group t n m))
unfolding push_group group_keys elem
push_group-IsOnce t n [] o = (refl, tt)
push_group-IsOnce t n ((k, group) ∷ m) (f, o) = elim (Bool-cases (text_eq k t)) [
  | inl e ↦ rw e (f, o)
  | inr e ↦ rw e (ground (arith, elem-keys-push k t n m), push_group-IsOnce t n m o)
]

group_names-IsOnce :
    (ns : List Text) (m : Groups) → IsOnce (group_keys m) → IsOnce (group_keys (group_names ns m))
unfolding group_names
group_names-IsOnce [] m o = o
group_names-IsOnce (n ∷ ns) m o =
    group_names-IsOnce ns (push_group (truncate_ident n) n m)
      (push_group-IsOnce (truncate_ident n) n m o)

abbrev pub cut_of : Text × List Text → Text
cut_of (t, group) = t

report-All :
    (P : Text → Type 0) (m : Groups) (ts : List Text)
    → All P ts
    → All P (map cut_of (report_collisions m ts))
unfolding report_collisions
report-All P m [] a = tt
report-All P m (t ∷ ts) (p, a) = elim (Bool-cases (leb 2 (length (dedupe_sorted (group_at t m))))) [
  | inl e ↦ rw e (p, report-All P m ts a)
  | inr e ↦ rw e (report-All P m ts a)
]

report-IsStrict :
    (m : Groups) (ts : List Text) → IsStrict ts → IsStrict (map cut_of (report_collisions m ts))
unfolding report_collisions
report-IsStrict m [] s = tt
report-IsStrict m (t ∷ ts) (a, s) =
    elim (Bool-cases (leb 2 (length (dedupe_sorted (group_at t m))))) [
      | inl e ↦ rw e (report-All (λ y. text_lt t y ≡ true) m ts a, report-IsStrict m ts s)
      | inr e ↦ rw e (report-IsStrict m ts s)
    ]

reported :
    (m : Groups) (t : Text) (ts : List Text)
    → leb 2 (length (dedupe_sorted (group_at t m))) ≡ true
    → report_collisions m (t ∷ ts) ≡ (t, dedupe_sorted (group_at t m)) ∷ report_collisions m ts
unfolding report_collisions
reported m t ts e = rw e refl

In-report :
    (m : Groups) (ts : List Text) (t : Text) (group : List Text)
    → In (t, group) (report_collisions m ts)
    → (group ≡ dedupe_sorted (group_at t m)) × (2 ≤ length group)
unfolding report_collisions
In-report m [] t group h = elim h [ ]
In-report m (u ∷ ts) t group h = elim (Bool-cases (leb 2 (length (dedupe_sorted (group_at u m))))) [
  | inr e ↦ In-report m ts t group (rw e at h)
  | inl e ↦ elim (subst (λ l. In (t, group) l) (reported m u ts e) h) [
    | inr later ↦ In-report m ts t group later
    | inl same ↦
        let at : t ≡ u = ap cut_of same in
        let is : group ≡ dedupe_sorted (group_at u m) = ap (λ (r : Text × List Text). r.1) same in
        (rw at is, rw is (ground arith))
  ]
]

report-In :
    (m : Groups) (ts : List Text) (t : Text)
    → elem t ts ≡ true
    → leb 2 (length (dedupe_sorted (group_at t m))) ≡ true
    → In (t, dedupe_sorted (group_at t m)) (report_collisions m ts)
unfolding report_collisions elem
report-In m [] t e two = cc
report-In m (u ∷ ts) t e two = elim (Bool-cases (text_eq t u)) [
  | inl q ↦
      let same = (text_eq_iff t u).0 q in
      subst (λ x. In (t, dedupe_sorted (group_at t m)) (report_collisions m (x ∷ ts))) same
        (subst (In (t, dedupe_sorted (group_at t m))) (sym (reported m t ts two)) (inl refl))
  | inr q ↦
      let later = report-In m ts t (rw q at e) two in
      elim (Bool-cases (leb 2 (length (dedupe_sorted (group_at u m))))) [
        | inl y ↦ rw y (inr later)
        | inr n ↦ rw n later
      ]
]

elem-dedupe_sorted : (n : Text) (g : List Text) → elem n (dedupe_sorted g) ≡ elem n g
unfolding dedupe_sorted elem
elem-dedupe_sorted n g =
    let sorted = elem-sort_texts n (dedupe [] g) in let kept = elem-dedupe n [] g in ground arith

dedupe_sorted-IsStrict : (g : List Text) → IsStrict (dedupe_sorted g)
unfolding dedupe_sorted
dedupe_sorted-IsStrict g = sorted_once (dedupe [] g) (dedupe-IsOnce [] g)

-- truncationCollisions, for all names: the report lists texts in increasing order, each once; with a
-- text it lists, in increasing order and each once, exactly the names whose first 63 bytes are that
-- text, and these are at least two; and it lists the first 63 bytes of any two different names that
-- have them in common.
pub truncation_collisions_correct :
    (names : List Text)
    → IsStrict (map cut_of (truncation_collisions names))
      × ((t : Text) (group : List Text)
          → In (t, group) (truncation_collisions names)
          → IsStrict group
            × (2 ≤ length group)
            × ((n : Text) → (elem n group ≡ true) ↔ (elem n names ≡ true) × (take 63 n ≡ t)))
      × ((a b : Text)
          → elem a names ≡ true
          → elem b names ≡ true
          → take 63 a ≡ take 63 b
          → a ≢ b
          → (group : List Text) × In (take 63 a, group) (truncation_collisions names))
unfolding truncation_collisions group_keys
truncation_collisions_correct names =
    let m = group_names names [] in
    let ts = sort_texts (group_keys m) in
    (
      report-IsStrict m ts (sorted_once (group_keys m) (group_names-IsOnce names [] tt)),
      λ t group h.
          let (is, two) = In-report m ts t group h in
          (
            subst IsStrict (sym is) (dedupe_sorted-IsStrict (group_at t m)),
            two,
            λ n.
                let own = in_own_group names n t in
                let cut = truncate_ident_lem n in
                let members : elem n group ≡ elem n (group_at t m) =
                  ap (elem n) is ∙ elem-dedupe_sorted n (group_at t m) in
                (
                  λ e. let (i, at) = own.0 (sym members ∙ e) in (i, sym cut ∙ at),
                  λ (i, at). members ∙ own.1 (i, cut ∙ at),
                ),
          ),
      λ a b e f same apart.
          let t = truncate_ident a in
          let cut = truncate_ident_lem a in
          let alike : truncate_ident b ≡ t = truncate_ident_lem b ∙ (sym same ∙ sym cut) in
          let listed : elem t ts ≡ true =
            elem-sort_texts t (group_keys m) ∙ elem-keys-group_names a names [] (inr e) in
          let two : leb 2 (length (dedupe_sorted (group_at t m))) ≡ true =
            elim (Bool-cases (leb 2 (length (dedupe_sorted (group_at t m))))) [
              | inl y ↦ y
              | inr few ↦
                  elim (apart (
                    (one_name (group_at t m)).0 few a b ((in_own_group names a t).1 (e, refl))
                      ((in_own_group names b t).1 (f, alike)))) [ ]
            ] in
          (
            dedupe_sorted (group_at t m),
            subst (λ x. In (x, dedupe_sorted (group_at t m)) (report_collisions m ts)) cut
                (report-In m ts t listed two),
          ),
    )
