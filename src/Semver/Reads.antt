-- ===== src/Semver/Reads.antt =====
-- internal/migrate/semver.go, semverParts: the texts that are versions.
use pgdesign.Base.{
  suc, Text, [], ◌∷◌, ◌++◌, true, Option, none, some, inl, inr, ◌⊎◌, ◌↔◌, ◌≡◌, ◌≢◌, refl,
  Bool-cases, Option-cases, ◌==◌, ==_iff, lacks, index_byte, index_byte-split, index_byte_at, take,
  drop, take-append, drop-append_cons, Signed, atoi, sym, ◌∙◌, ap,
}
use pgdesign.Semver.{
  Version, trim_v, cut_at, cut_dot, numbers, last_parts, first_part, semver_parts,
}

-- The text after a leading v, or the whole text where there is none.
abbrev pub IsBody : Text → Text → Type 0
IsBody v s = (v ≡ b'v' ∷ s) ⊎ (v ≡ s) × ((t : Text) → s ≢ b'v' ∷ t)

-- Three numbers with dots between them; no dot is in the first two.
abbrev pub IsParts : Text → Version → Type 0
IsParts s v =
    (x : Text) × (y : Text) × (z : Text) × (s ≡ x ++ (b'.' ∷ (y ++ (b'.' ∷ z))))
    × (lacks x b'.' ≡ true)
    × (lacks y b'.' ≡ true)
    × (atoi x ≡ some v.major)
    × (atoi y ≡ some v.minor)
    × (atoi z ≡ some v.patch)

abbrev pub Reads : Text → Version → Type 0
Reads text v = (s : Text) × IsBody text s × IsParts s v

trim_v-IsBody : (text : Text) → IsBody text (trim_v text)
unfolding trim_v
trim_v-IsBody [] = inr (refl, λ t e. cc)
trim_v-IsBody (c ∷ s) = elim (Bool-cases (c == b'v')) [
  | inl y ↦ rw y (inl (ap (λ x. x ∷ s) ((==_iff c b'v').0 y)))
  | inr n ↦ rw n (
      inr (
        refl,
        λ t e. let at : c ≡ b'v' = cc in let same : (c == b'v') ≡ true = (==_iff c b'v').1 at in cc,
      ))
]

IsBody-trim_v : (text s : Text) → IsBody text s → trim_v text ≡ s
unfolding trim_v
IsBody-trim_v text s (inl e) = rw e refl
IsBody-trim_v [] s (inr (e, n)) = e
IsBody-trim_v (c ∷ text) s (inr (e, n)) = elim (Bool-cases (c == b'v')) [
  | inl y ↦ elim (n text (sym e ∙ ap (λ x. x ∷ text) ((==_iff c b'v').0 y))) [ ]
  | inr other ↦ rw other e
]

cut_dot-to :
    (s x y : Text) → cut_dot s ≡ some (x, y) → (s ≡ x ++ (b'.' ∷ y)) × (lacks x b'.' ≡ true)
unfolding cut_dot cut_at
cut_dot-to s x y h = elim (Option-cases (index_byte s b'.')) [
  | inl e ↦ cc (rw e at h)
  | inr (i, e) ↦
      let (split, clean) = index_byte-split b'.' s i e in
      let both : some (take i s, drop (suc i) s) ≡ some (x, y) = rw e at h in
      let front : take i s ≡ x = cc in
      let back : drop (suc i) s ≡ y = cc in (rw (sym front, sym back) split, rw (sym front) clean)
]

cut_dot-from : (x y : Text) → lacks x b'.' ≡ true → cut_dot (x ++ (b'.' ∷ y)) ≡ some (x, y)
unfolding cut_dot cut_at
cut_dot-from x y clean =
    rw (index_byte_at b'.' x y clean, take-append x (b'.' ∷ y), drop-append_cons x b'.' y) refl

numbers-to :
    (a b c : Option Signed) (v : Version)
    → numbers a b c ≡ some v
    → (a ≡ some v.major) × (b ≡ some v.minor) × (c ≡ some v.patch)
unfolding numbers
numbers-to none b c v h = cc
numbers-to (some a) none c v h = cc
numbers-to (some a) (some b) none v h = cc
numbers-to (some a) (some b) (some c) v h =
    let made : Version = record { major = a; minor = b; patch = c } in
    let is : made ≡ v = cc in
    (
      ap (λ (u : Version). some u.major) is,
      ap (λ (u : Version). some u.minor) is,
      ap (λ (u : Version). some u.patch) is,
    )

numbers-from : (v : Version) → numbers (some v.major) (some v.minor) (some v.patch) ≡ some v
unfolding numbers
numbers-from v = refl

-- A text reads as a version exactly if it is three numbers with dots between them, after an optional
-- v.
pub semver_parts_lem : (text : Text) (v : Version) → (semver_parts text ≡ some v) ↔ Reads text v
unfolding semver_parts first_part last_parts
semver_parts_lem text v = (
  λ h. elim (Option-cases (cut_dot (trim_v text))) [
    | inl e ↦ cc (rw e at h)
    | inr ((x, rest), e) ↦ elim (Option-cases (cut_dot rest)) [
      | inl f ↦ cc (rw (e, f) at h)
      | inr ((y, z), f) ↦
          let (first, no_dot) = cut_dot-to (trim_v text) x rest e in
          let (second, no_dot') = cut_dot-to rest y z f in
          let (a, b, c) = numbers-to (atoi x) (atoi y) (atoi z) v (rw (e, f) at h) in
          (
            trim_v text,
            trim_v-IsBody text,
            (x, y, z, first ∙ ap (λ l. x ++ (b'.' ∷ l)) second, no_dot, no_dot', a, b, c),
          )
    ]
  ],
  λ (s, body, (x, y, z, e, no_dot, no_dot', a, b, c)).
      let is : trim_v text ≡ x ++ (b'.' ∷ (y ++ (b'.' ∷ z))) = IsBody-trim_v text s body ∙ e in
      rw (is, cut_dot-from x (y ++ (b'.' ∷ z)) no_dot, cut_dot-from y z no_dot', a, b, c)
        (numbers-from v),
)
