-- ===== src/Semver/Laws.antt =====
-- internal/migrate/semver.go, compareSemver: the laws of its comparisons.
use pgdesign.Base.{
  ℕ, Text, true, false, Option, none, some, inl, inr, ◌⊎◌, ◌≡◌, refl, arith, Bool-cases, text_lt,
  text_lt_irrefl, text_lt_trans, text_trichotomy, text_le, text_le_trans, text_le_of_lt,
  text_le_refl, ltb, Signed, plus, minus, ◌≢◌, subst, sym, ◌∙◌, ap,
}
use pgdesign.Semver.{
  Version, Comparison, below, same, above, signed_lt, compare_number, compare_texts, compare_parts,
}

-- The comparison the other way round.
abbrev pub opposite : Comparison → Comparison
opposite below = above
opposite same = same
opposite above = below

number_cases : (m n : ℕ) → (ltb m n ≡ true) ⊎ (m ≡ n) ⊎ (ltb n m ≡ true)
number_cases m n = ground arith

pub signed_cases : (a b : Signed) → (signed_lt a b ≡ true) ⊎ (a ≡ b) ⊎ (signed_lt b a ≡ true)
unfolding signed_lt
signed_cases (plus m) (plus n) = elim (number_cases m n) [
  | inl lt ↦ inl lt
  | inr (inl e) ↦ inr (inl (ap plus e))
  | inr (inr gt) ↦ inr (inr gt)
]
signed_cases (plus m) (minus n) = inr (inr refl)
signed_cases (minus m) (plus n) = inl refl
signed_cases (minus m) (minus n) = elim (number_cases n m) [
  | inl lt ↦ inl lt
  | inr (inl e) ↦ inr (inl (ap minus (sym e)))
  | inr (inr gt) ↦ inr (inr gt)
]

signed_asym : (a b : Signed) → signed_lt a b ≡ true → signed_lt b a ≡ false
unfolding signed_lt
signed_asym (plus m) (plus n) h = ground arith
signed_asym (plus m) (minus n) h = cc
signed_asym (minus m) (plus n) h = refl
signed_asym (minus m) (minus n) h = ground arith

signed_trans : (a b c : Signed) → signed_lt a b ≡ true → signed_lt b c ≡ true → signed_lt a c ≡ true
unfolding signed_lt
signed_trans (plus m) (plus n) (plus k) g h = ground arith
signed_trans (plus m) (plus n) (minus k) g h = cc
signed_trans (plus m) (minus n) c g h = cc
signed_trans (minus m) (plus n) (plus k) g h = refl
signed_trans (minus m) (plus n) (minus k) g h = cc
signed_trans (minus m) (minus n) (plus k) g h = refl
signed_trans (minus m) (minus n) (minus k) g h = ground arith

pub number_below :
    (a b : Signed) (x : Comparison) → signed_lt a b ≡ true → compare_number a b x ≡ below
unfolding compare_number
number_below a b x h = rw h refl

pub number_above :
    (a b : Signed) (x : Comparison) → signed_lt b a ≡ true → compare_number a b x ≡ above
unfolding compare_number
number_above a b x h = rw (signed_asym b a h, h) refl

signed_irrefl : (a : Signed) → signed_lt a a ≡ false
signed_irrefl a = elim (Bool-cases (signed_lt a a)) [ inl h ↦ signed_asym a a h | inr f ↦ f ]

pub number_same : (a b : Signed) (x : Comparison) → a ≡ b → compare_number a b x ≡ x
unfolding compare_number
number_same a b x e = rw (e, signed_irrefl b) refl

number_opposite :
    (a b : Signed) (x y : Comparison)
    → y ≡ opposite x
    → compare_number b a y ≡ opposite (compare_number a b x)
number_opposite a b x y e = elim (signed_cases a b) [
  | inl lt ↦ number_above b a y lt ∙ sym (ap opposite (number_below a b x lt))
  | inr (inl q) ↦ number_same b a y (sym q) ∙ e ∙ sym (ap opposite (number_same a b x q))
  | inr (inr gt) ↦ number_below b a y gt ∙ sym (ap opposite (number_above a b x gt))
]

number_trans :
    (a b c : Signed) (x y z : Comparison)
    → (x ≢ above → y ≢ above → z ≢ above)
    → compare_number a b x ≢ above
    → compare_number b c y ≢ above
    → compare_number a c z ≢ above
number_trans a b c x y z next f g h = elim (signed_cases a b) [
  | inr (inr gt) ↦ f (number_above a b x gt)
  | inl lt ↦ elim (signed_cases b c) [
    | inr (inr gt) ↦ g (number_above b c y gt)
    | inl lt' ↦ cc (number_below a c z (signed_trans a b c lt lt'), h)
    | inr (inl q) ↦ cc (number_below a c z (subst (λ t. signed_lt a t ≡ true) q lt), h)
  ]
  | inr (inl p) ↦ elim (signed_cases b c) [
    | inr (inr gt) ↦ g (number_above b c y gt)
    | inl lt ↦ cc (number_below a c z (subst (λ t. signed_lt t c ≡ true) (sym p) lt), h)
    | inr (inl q) ↦
        next (λ e. f (number_same a b x p ∙ e)) (λ e. g (number_same b c y q ∙ e))
          (sym (number_same a c z (p ∙ q)) ∙ h)
  ]
]

number_equal : (a b : Signed) (x : Comparison) → compare_number a b x ≡ same → (a ≡ b) × (x ≡ same)
number_equal a b x h = elim (signed_cases a b) [
  | inl lt ↦ cc (number_below a b x lt, h)
  | inr (inl e) ↦ (e, sym (number_same a b x e) ∙ h)
  | inr (inr gt) ↦ cc (number_above a b x gt, h)
]

text_lt_asym : (a b : Text) → text_lt a b ≡ true → text_lt b a ≡ false
text_lt_asym a b h = elim (Bool-cases (text_lt b a)) [
  | inl k ↦ cc (text_lt_trans a b a h k, text_lt_irrefl a)
  | inr f ↦ f
]

texts_opposite : (a b : Text) → compare_texts b a ≡ opposite (compare_texts a b)
unfolding compare_texts
texts_opposite a b = elim (text_trichotomy a b) [
  | inl lt ↦ let back : text_lt b a ≡ false = text_lt_asym a b lt in rw (lt, back) refl
  | inr (inl e) ↦ rw (e, text_lt_irrefl b) refl
  | inr (inr gt) ↦ let back : text_lt a b ≡ false = text_lt_asym b a gt in rw (gt, back) refl
]

texts_le : (a b : Text) → compare_texts a b ≢ above → text_le a b ≡ true
unfolding compare_texts
texts_le a b f = elim (text_trichotomy a b) [
  | inl lt ↦ text_le_of_lt a b lt
  | inr (inl e) ↦ rw e (text_le_refl b)
  | inr (inr gt) ↦
      let is : compare_texts a b ≡ above = rw (text_lt_asym b a gt, gt) refl in elim (f is) [ ]
]

texts_above : (a b : Text) → compare_texts a b ≡ above → text_lt b a ≡ true
unfolding compare_texts
texts_above a b h = elim (text_trichotomy a b) [
  | inl lt ↦ cc (rw lt at h)
  | inr (inl e) ↦ cc (rw (e, text_lt_irrefl b) at h)
  | inr (inr gt) ↦ gt
]

texts_trans :
    (a b c : Text)
    → compare_texts a b ≢ above
    → compare_texts b c ≢ above
    → compare_texts a c ≢ above
unfolding compare_texts
texts_trans a b c f g h =
    let none_above = text_le_trans a b c (texts_le a b f) (texts_le b c g) in
    let above_it = texts_above a c h in ground arith

texts_same : (a b : Text) → compare_texts a b ≡ same → a ≡ b
unfolding compare_texts
texts_same a b h = elim (text_trichotomy a b) [
  | inl lt ↦ cc (rw lt at h)
  | inr (inl e) ↦ e
  | inr (inr gt) ↦ cc (rw (text_lt_asym b a gt, gt) at h)
]

pub parts_opposite :
    (a b : Text) (v w : Option Version) → compare_parts b a w v ≡ opposite (compare_parts a b v w)
unfolding compare_parts
parts_opposite a b none none = texts_opposite a b
parts_opposite a b none (some w) = refl
parts_opposite a b (some v) none = refl
parts_opposite a b (some v) (some w) =
    number_opposite v.major w.major
      (compare_number v.minor w.minor (compare_number v.patch w.patch same))
      (compare_number w.minor v.minor (compare_number w.patch v.patch same))
      (number_opposite v.minor w.minor (compare_number v.patch w.patch same)
        (compare_number w.patch v.patch same) (number_opposite v.patch w.patch same same refl))

pub parts_trans :
    (a b c : Text) (u v w : Option Version)
    → compare_parts a b u v ≢ above
    → compare_parts b c v w ≢ above
    → compare_parts a c u w ≢ above
unfolding compare_parts
parts_trans a b c none none none f g = texts_trans a b c f g
parts_trans a b c none none (some w) f g = g
parts_trans a b c none (some v) w f g = elim (f refl) [ ]
parts_trans a b c (some u) v none f g = λ e. cc
parts_trans a b c (some u) none (some w) f g = elim (g refl) [ ]
parts_trans a b c (some u) (some v) (some w) f g =
    let p = λ (s t : Version). compare_number s.patch t.patch same in
    let m = λ (s t : Version). compare_number s.minor t.minor (p s t) in
    number_trans u.major v.major w.major (m u v) (m v w) (m u w)
      (number_trans u.minor v.minor w.minor (p u v) (p v w) (p u w)
        (number_trans u.patch v.patch w.patch same same same (λ x y e. cc)))
      f g

version_eq : (v w : Version) → v.major ≡ w.major → v.minor ≡ w.minor → v.patch ≡ w.patch → v ≡ w
version_eq v w e f g = cc

pub parts_same :
    (a b : Text) (v w : Option Version)
    → compare_parts a b v w ≡ same
    → (v ≡ w) × (v ≡ none → a ≡ b)
unfolding compare_parts
parts_same a b none none h = (refl, λ e. texts_same a b h)
parts_same a b none (some w) h = cc
parts_same a b (some v) none h = cc
parts_same a b (some v) (some w) h =
    let p = compare_number v.patch w.patch same in
    let m = compare_number v.minor w.minor p in
    let (one, h1) = number_equal v.major w.major m h in
    let (two, h2) = number_equal v.minor w.minor p h1 in
    let (three, h3) = number_equal v.patch w.patch same h2 in
    (ap some (version_eq v w one two three), λ e. cc)
