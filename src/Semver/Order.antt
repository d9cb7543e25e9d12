-- ===== src/Semver/Order.antt =====
-- internal/migrate/semver.go, compareSemver: the order of the versions.
use pgdesign.Base.{
  ◌<◌, Text, ◌↔◌, true, Option, none, some, inl, inr, ◌⊎◌, ◌≡◌, refl, arith, text_lt,
  text_lt_irrefl, Signed, plus, minus, ◌≢◌, sym, ◌∙◌, ap,
}
use pgdesign.Semver.{
  Version, Comparison, below, same, above, signed_lt, compare_number, compare_texts, compare_parts,
  compare_semver, semver_parts,
}
use pgdesign.Semver.Reads.{Reads, semver_parts_lem}
use pgdesign.Semver.Laws.{
  opposite, signed_cases, number_below, number_above, number_same, parts_opposite, parts_trans,
  parts_same,
}

-- The order of the integers.
abbrev pub IsLess : Signed → Signed → Type 0
IsLess (plus m) (plus n) = m < n
IsLess (plus m) (minus n) = ⊥
IsLess (minus m) (plus n) = Unit
IsLess (minus m) (minus n) = n < m

-- Major numbers decide, then minor ones, then patch numbers.
abbrev pub IsOlder : Version → Version → Type 0
IsOlder v w =
    IsLess v.major w.major
    ⊎ (v.major ≡ w.major) × (IsLess v.minor w.minor ⊎ (v.minor ≡ w.minor) × IsLess v.patch w.patch)

-- Versions in their order, then the texts that are none in theirs.
abbrev pub IsEarlier : Text → Text → Option Version → Option Version → Type 0
IsEarlier a b none none = text_lt a b ≡ true
IsEarlier a b none (some w) = ⊥
IsEarlier a b (some v) none = Unit
IsEarlier a b (some v) (some w) = IsOlder v w

abbrev pub IsBefore : Text → Text → Type 0
IsBefore a b = IsEarlier a b (semver_parts a) (semver_parts b)

signed_lt_lem : (a b : Signed) → (signed_lt a b ≡ true) ↔ IsLess a b
unfolding signed_lt
signed_lt_lem (plus m) (plus n) = (λ h. ground arith, λ h. ground arith)
signed_lt_lem (plus m) (minus n) = (λ h. cc, λ h. elim h [ ])
signed_lt_lem (minus m) (plus n) = (λ h. tt, λ h. refl)
signed_lt_lem (minus m) (minus n) = (λ h. ground arith, λ h. ground arith)

number_below_iff :
    (a b : Signed) (x : Comparison)
    → (compare_number a b x ≡ below) ↔ IsLess a b ⊎ (a ≡ b) × (x ≡ below)
number_below_iff a b x = (
  λ h. elim (signed_cases a b) [
    | inl lt ↦ inl ((signed_lt_lem a b).0 lt)
    | inr (inl e) ↦ inr (e, sym (number_same a b x e) ∙ h)
    | inr (inr gt) ↦ cc (number_above a b x gt, h)
  ],
  λ h. elim h [
    | inl lt ↦ number_below a b x ((signed_lt_lem a b).1 lt)
    | inr (e, z) ↦ number_same a b x e ∙ z
  ],
)

texts_below_iff : (a b : Text) → (compare_texts a b ≡ below) ↔ (text_lt a b ≡ true)
unfolding compare_texts
texts_below_iff a b = (λ h. ground arith, λ h. rw h refl)

parts_below_iff :
    (a b : Text) (v w : Option Version) → (compare_parts a b v w ≡ below) ↔ IsEarlier a b v w
unfolding compare_parts
parts_below_iff a b none none = texts_below_iff a b
parts_below_iff a b none (some w) = (λ h. cc, λ h. elim h [ ])
parts_below_iff a b (some v) none = (λ h. tt, λ h. refl)
parts_below_iff a b (some v) (some w) =
    let p = compare_number v.patch w.patch same in
    let m = compare_number v.minor w.minor p in
    let major = number_below_iff v.major w.major m in
    let minor = number_below_iff v.minor w.minor p in
    let patch = number_below_iff v.patch w.patch same in
    (
      λ h. elim (major.0 h) [
        | inl lt ↦ inl lt
        | inr (e, h') ↦ inr (
          e,
          elim (minor.0 h') [
            | inl lt ↦ inl lt
            | inr (f, h'') ↦ elim (patch.0 h'') [ inl lt ↦ inr (f, lt) | inr (g, never) ↦ cc ]
          ],
        )
      ],
      λ o. elim o [
        | inl lt ↦ major.1 (inl lt)
        | inr (e, inl lt) ↦ major.1 (inr (e, minor.1 (inl lt)))
        | inr (e, inr (f, lt)) ↦ major.1 (inr (e, minor.1 (inr (f, patch.1 (inl lt)))))
      ],
    )

texts_refl : (a : Text) → compare_texts a a ≡ same
unfolding compare_texts
texts_refl a = rw (text_lt_irrefl a) refl

parts_refl :
    (a b : Text) (v w : Option Version)
    → (v ≡ w) × (v ≡ none → a ≡ b)
    → compare_parts a b v w ≡ same
unfolding compare_parts
parts_refl a b none none (e, f) = rw (f refl) (texts_refl b)
parts_refl a b none (some w) (e, f) = cc
parts_refl a b (some v) none (e, f) = cc
parts_refl a b (some v) (some w) (e, f) =
    let is : v ≡ w = cc in
    let p = compare_number v.patch w.patch same in
    number_same v.major w.major (compare_number v.minor w.minor p)
      (ap (λ (u : Version). u.major) is)
    ∙ number_same v.minor w.minor p (ap (λ (u : Version). u.minor) is)
    ∙ number_same v.patch w.patch same (ap (λ (u : Version). u.patch) is)

parts_above_iff :
    (a b : Text) (v w : Option Version) → (compare_parts a b v w ≡ above) ↔ IsEarlier b a w v
parts_above_iff a b v w =
    let turned = parts_opposite b a w v in
    let back = parts_opposite a b v w in
    (
      λ h. (parts_below_iff b a w v).0 (back ∙ ap opposite h),
      λ o. turned ∙ ap opposite ((parts_below_iff b a w v).1 o),
    )

-- compareSemver, for all texts: it answers below exactly if the first text is before the second,
-- above exactly if the second is before the first, and same exactly if both read as the same version
-- or are the same text that is no version. Before are a version with the lesser major number, or
-- with equal major and the lesser minor number, or with both equal and the lesser patch number; any
-- version before a text that is none; and of two such texts the lesser. Not being above is
-- transitive. And a text reads as a version exactly if it is three texts with dots between them, the
-- first two without a dot, after an optional v, from which Atoi reads the major, the minor and the
-- patch number.
pub compare_semver_correct :
    (a b c : Text)
    → ((compare_semver a b ≡ below) ↔ IsBefore a b)
      × ((compare_semver a b ≡ above) ↔ IsBefore b a)
      × ((compare_semver a b ≡ same)
          ↔ (semver_parts a ≡ semver_parts b) × (semver_parts a ≡ none → a ≡ b))
      × (compare_semver a b ≢ above → compare_semver b c ≢ above → compare_semver a c ≢ above)
      × ((v : Version) → (semver_parts a ≡ some v) ↔ Reads a v)
unfolding compare_semver
compare_semver_correct a b c = (
  parts_below_iff a b (semver_parts a) (semver_parts b),
  parts_above_iff a b (semver_parts a) (semver_parts b),
  (
    parts_same a b (semver_parts a) (semver_parts b),
    parts_refl a b (semver_parts a) (semver_parts b),
  ),
  parts_trans a b c (semver_parts a) (semver_parts b) (semver_parts c),
  semver_parts_lem a,
)
