-- ===== src/Chain/Manifest/Equality.antt =====
-- `Equal` decides whether two manifests hold the same id under every key.
use pgdesign.Base.{
  suc, ◌≤◌, ◌<◌, Text, [], ◌∷◌, true, false, Option, none, some, if◌then◌else◌, text_eq_iff, length,
  ◌≡◌, refl, sym, ◌∙◌, arith, ◌↔◌, Bool-cases, Option-cases, inl, inr, subst,
}
use pgdesign.Enc.Key.{Key}
use pgdesign.Chain.Manifest.{Manifest, key_eq, find, IsMap, agrees_with, equal_loop, manifest_equal}

pub key_eq_iff : (a b : Key) → (key_eq a b ≡ true) ↔ (a ≡ b)
unfolding key_eq
key_eq_iff a b = ground (
  arith,
  text_eq_iff a.kind b.kind,
  text_eq_iff a.schema b.schema,
  text_eq_iff a.name b.name,
  text_eq_iff a.arg_sig b.arg_sig,
)

pub key_eq_refl : (a : Key) → key_eq a a ≡ true
key_eq_refl a = (key_eq_iff a a).1 refl

abbrev pub SameIds : Manifest → Manifest → Type 0
SameIds m other = (k : Key) → find k m ≡ find k other

-- Every entry of `m` is one of `other`.
abbrev Includes : Manifest → Manifest → Type 0
Includes m other = (k : Key) (id : Text) → find k m ≡ some id → find k other ≡ some id

agrees_with_iff :
    (found : Option Text) (id : Text) → (agrees_with found id ≡ true) ↔ (found ≡ some id)
unfolding agrees_with
agrees_with_iff none id = (λ h. cc, λ h. cc)
agrees_with_iff (some oid) id = ground (arith, text_eq_iff oid id)

equal_loop-Includes : (m other : Manifest) → equal_loop m other ≡ true → Includes m other
unfolding equal_loop find
equal_loop-Includes [] other h k id e = cc
equal_loop-Includes ((j, v) ∷ m) other h k id e =
    let (here, rest) : (agrees_with (find j other) v ≡ true) × (equal_loop m other ≡ true) =
      ground arith in
    elim (Bool-cases (key_eq j k)) [
      | inl q ↦
          let same = (key_eq_iff j k).0 q in
          let v_id : v ≡ id = ground arith in
          subst (λ x. find x other ≡ some id) same
            (subst (λ x. find j other ≡ some x) v_id ((agrees_with_iff (find j other) v).0 here))
      | inr q ↦ equal_loop-Includes m other rest k id (rw q at e)
    ]

Includes-equal_loop : (m other : Manifest) → IsMap m → Includes m other → equal_loop m other ≡ true
unfolding equal_loop find
Includes-equal_loop [] other d h = refl
Includes-equal_loop ((j, v) ∷ m) other d h = ground (
  arith,
  (agrees_with_iff (find j other) v).1 (h j v (rw key_eq_refl)),
  Includes-equal_loop m other d.1 (λ k id e.
      h k id
        (elim (Bool-cases (key_eq j k)) [ inl q ↦ cc ((key_eq_iff j k).0 q) | inr q ↦ rw q e ])),
)

-- The map without a key.
drop_key : Key → Manifest → Manifest
drop_key k [] = []
drop_key k ((j, v) ∷ m) = if key_eq j k then m else (j, v) ∷ drop_key k m

find-drop_key : (k j : Key) (m : Manifest) → (key_eq k j ≡ false) → find j (drop_key k m) ≡ find j m
unfolding find drop_key
find-drop_key k j [] n = refl
find-drop_key k j ((i, v) ∷ m) n =
    ground (arith, find-drop_key k j m n, key_eq_iff i k, key_eq_iff i j, key_eq_iff k j)

length-drop_key :
    (k : Key) (id : Text) (m : Manifest)
    → find k m ≡ some id
    → suc (length (drop_key k m)) ≡ length m
unfolding find drop_key
length-drop_key k id [] h = cc
length-drop_key k id ((i, v) ∷ m) h = ground (arith, length-drop_key k id m)

drop_key-IsMap : (k : Key) (m : Manifest) → IsMap m → IsMap (drop_key k m)
unfolding drop_key
drop_key-IsMap k [] h = tt
drop_key-IsMap k ((i, v) ∷ m) h = elim (Bool-cases (key_eq i k)) [
  | inl q ↦ rw q h.1
  | inr q ↦ rw q (
    find-drop_key k i m (ground (arith, key_eq_iff i k, key_eq_iff k i)) ∙ h.0,
    drop_key-IsMap k m h.1,
  )
]

find-drop_key_self : (k : Key) (m : Manifest) → IsMap m → find k (drop_key k m) ≡ none
unfolding find drop_key
find-drop_key_self k [] h = refl
find-drop_key_self k ((i, v) ∷ m) h = ground (arith, key_eq_iff i k, find-drop_key_self k m h.1)

not_empty : (k : Key) (id : Text) (m : Manifest) → find k m ≡ some id → 0 < length m
unfolding find
not_empty k id [] h = cc
not_empty k id (x ∷ m) h = omega arith

-- A map that holds all entries of another and has no more keys holds nothing else.
Includes-back :
    (m other : Manifest)
    → IsMap m
    → IsMap other
    → length other ≤ length m
    → Includes m other
    → Includes other m
unfolding find
Includes-back [] other d e l h k id q = absurd (omega (arith, not_empty k id other q))
Includes-back ((j, v) ∷ m) other d e l h k id q =
    let at_j : find j other ≡ some v = h j v (rw key_eq_refl) in
    let shorter = drop_key j other in
    let rec =
      Includes-back m shorter d.1 (drop_key-IsMap j other e)
        (omega (arith, length-drop_key j v other at_j))
        (λ i w r.
          let differ : key_eq j i ≡ false = elim (Bool-cases (key_eq j i)) [
            | inl s ↦ cc ((key_eq_iff j i).0 s, d.0)
            | inr s ↦ s
          ] in
          find-drop_key j i other differ ∙ h i w (rw differ r)) in
    elim (Bool-cases (key_eq j k)) [
      | inl s ↦
          let same = (key_eq_iff j k).0 s in
          rw s (sym (subst (λ x. find x other ≡ some v) same at_j) ∙ q)
      | inr s ↦ rw s (rec k id (find-drop_key j k other s ∙ q))
    ]

same_of_Includes : (m other : Manifest) → Includes m other → Includes other m → SameIds m other
same_of_Includes m other h g k = elim (Option-cases (find k m)) [
  | inr (id, e) ↦ e ∙ sym (h k id e)
  | inl e ↦ elim (Option-cases (find k other)) [ inl f ↦ e ∙ sym f | inr (id, f) ↦ cc (g k id f) ]
]

length_le : (m other : Manifest) → IsMap m → Includes m other → length m ≤ length other
unfolding find
length_le [] other d h = omega arith
length_le ((j, v) ∷ m) other d h =
    let at_j : find j other ≡ some v = h j v (rw key_eq_refl) in
    let rec = length_le m (drop_key j other) d.1 (λ i w r.
      let differ : key_eq j i ≡ false = elim (Bool-cases (key_eq j i)) [
        | inl s ↦ cc ((key_eq_iff j i).0 s, d.0)
        | inr s ↦ s
      ] in
      find-drop_key j i other differ ∙ h i w (rw differ r)) in
    omega (arith, rec, length-drop_key j v other at_j)

-- `Equal` holds exactly when both manifests hold the same id, or none, under every key.
pub manifest_equal_correct :
    (m other : Manifest) → IsMap m → IsMap other → (manifest_equal m other ≡ true) ↔ SameIds m other
unfolding manifest_equal
manifest_equal_correct m other d e = (
  λ h.
      let (len, loop) : (length m ≡ length other) × (equal_loop m other ≡ true) = ground arith in
      let inc = equal_loop-Includes m other loop in
      same_of_Includes m other inc (Includes-back m other d e (omega arith) inc),
  λ s.
      let inc : Includes m other = λ k id q. sym (s k) ∙ q in
      let back : Includes other m = λ k id q. s k ∙ q in
      let loop = Includes-equal_loop m other d inc in
      let up = length_le m other d inc in let down = length_le other m e back in ground arith,
)
