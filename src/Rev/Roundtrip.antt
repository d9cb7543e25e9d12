-- ===== src/Rev/Roundtrip.antt =====
-- The text form of a revision is read back to the revision, and what is read is well formed.
use pgdesign.Base.{
  ℕ, suc, ◌+◌, ◌*◌, ◌/◌, ◌%◌, ◌<◌, Text, List, [], ◌∷◌, ◌++◌, true, All, Option, none, some, length,
  take, drop, index_byte, ◌==◌, ◌≡◌, refl, sym, ap, ◌∙◌, ◌⊎◌, inl, inr, arith, Bool-cases,
  text_eq_iff, lacks, index_byte_at, take-append, drop-append_cons, subst, ◌↔◌, ◌≢◌, bytes, ok, err,
  Result,
}
use pgdesign.Rev.{
  registry_present, registry_absent, class_valid, Revision, zero_revision, hex_digit, hex_encode,
  hex_value, join_byte, hex_decode, hex_of, revision_string, RevError, cross_class, revision_equal,
  sha256_size, check_sum, split_at, split_revision, parse_revision, sums_equal,
}

-- A digest of one of the two model classes.
pub record IsValid (r : Revision) : Type 0 where
  pub class_ok : class_valid r.class ≡ true
  pub size_ok : length r.sum ≡ sha256_size
  pub bytes_ok : All (λ b. b < 256) r.sum

hex_value-hex_digit : (n : ℕ) → n < 16 → hex_value (hex_digit n) ≡ some n
unfolding hex_value hex_digit
hex_value-hex_digit n h = ground arith

pub hex_decode-hex_encode :
    (bs : List ℕ) → All (λ b. b < 256) bs → hex_decode (hex_encode bs) ≡ some bs
unfolding hex_decode hex_encode join_byte
hex_decode-hex_encode [] h = refl
hex_decode-hex_encode (b ∷ bs) h = ground (
  arith,
  hex_value-hex_digit (b / 16),
  hex_value-hex_digit (b % 16),
  hex_decode-hex_encode bs h.1,
)

class_cases : (c : Text) → class_valid c ≡ true → (c ≡ registry_present) ⊎ (c ≡ registry_absent)
unfolding class_valid
class_cases c h = ground (arith, text_eq_iff c registry_present, text_eq_iff c registry_absent)

class_lacks : (c : Text) → class_valid c ≡ true → lacks c b':' ≡ true
unfolding lacks
class_lacks c h = elim (class_cases c h) [ inl e ↦ rw e | inr e ↦ rw e ]

class_not_empty :
    (ys : Text) (c : Text) → class_valid c ≡ true → (x : ℕ) × (r : Text) × (c ++ ys ≡ x ∷ r)
class_not_empty ys c h = elim (class_cases c h) [
  | inl e ↦ rw e (b'r', bytes "egistry_present" ++ ys, refl)
  | inr e ↦ rw e (b'r', bytes "egistry_absent" ++ ys, refl)
]

check_sum_ok :
    (c : Text) (sum : List ℕ)
    → length sum ≡ sha256_size
    → check_sum c (some sum) ≡ ok (record { class = c; sum = sum })
unfolding check_sum
check_sum_ok c sum h = ground arith

split_revision-string : (r : Revision) → IsValid r → split_revision (revision_string r) ≡ ok r
unfolding split_revision revision_string split_at hex_of
split_revision-string r v =
    rw
      (
        index_byte_at b':' r.class (hex_encode r.sum) (class_lacks r.class v.class_ok),
        take-append r.class (b':' ∷ hex_encode r.sum),
        v.class_ok,
        drop-append_cons r.class b':' (hex_encode r.sum),
        hex_decode-hex_encode r.sum v.bytes_ok,
      )
      (check_sum_ok r.class r.sum v.size_ok)

parse_revision-cons : (x : ℕ) (l : Text) → parse_revision (x ∷ l) ≡ split_revision (x ∷ l)
unfolding parse_revision
parse_revision-cons x l = refl

-- `ParseRevision` reads back the text of every valid revision.
pub parse_revision-string : (r : Revision) → IsValid r → parse_revision (revision_string r) ≡ ok r
unfolding revision_string hex_of
parse_revision-string r v =
    let (x, l, e) = class_not_empty (b':' ∷ hex_encode r.sum) r.class v.class_ok in
    subst (λ s. parse_revision s ≡ ok r) (sym e)
      (parse_revision-cons x l
        ∙ subst (λ s. split_revision s ≡ ok r) e
            (unfold revision_string hex_of in split_revision-string r v))

hex_value-lt : (c v : ℕ) → hex_value c ≡ some v → v < 16
unfolding hex_value
hex_value-lt c v h = ground arith

join_byte-some :
    (h l : Option ℕ) (rest : Option (List ℕ)) (bs : List ℕ)
    → join_byte h l rest ≡ some bs
    → (a b : ℕ) × (tail : List ℕ) × (h ≡ some a)
      × (l ≡ some b)
      × (rest ≡ some tail)
      × (bs ≡ (a * 16 + b) ∷ tail)
unfolding join_byte
join_byte-some (some a) (some b) (some t) bs e = (a, b, t, refl, refl, refl, ground arith)
join_byte-some (some a) (some b) none bs e = cc
join_byte-some (some a) none rest bs e = cc
join_byte-some none l rest bs e = cc

hex_decode-bytes : (s : Text) (bs : List ℕ) → hex_decode s ≡ some bs → All (λ b. b < 256) bs
unfolding hex_decode
hex_decode-bytes [] bs h = subst (All (λ b. b < 256)) (some_eq h) tt
  where
    some_eq : some [] ≡ some bs → [] ≡ bs
    some_eq e = ground arith
hex_decode-bytes (x ∷ []) bs h = cc
hex_decode-bytes (x ∷ y ∷ rest) bs h =
    let (a, b, t, ea, eb, et, e) =
      join_byte-some (hex_value x) (hex_value y) (hex_decode rest) bs h in
    subst (All (λ b. b < 256)) (sym e)
      (omega (arith, hex_value-lt x a ea, hex_value-lt y b eb), hex_decode-bytes rest t et)

check_sum-IsValid :
    (c : Text) (o : Option (List ℕ)) (r : Revision)
    → class_valid c ≡ true
    → ((bs : List ℕ) → o ≡ some bs → All (λ b. b < 256) bs)
    → check_sum c o ≡ ok r
    → IsValid r
unfolding check_sum
check_sum-IsValid c none r v b h = cc
check_sum-IsValid c (some sum) r v b h = elim (Bool-cases (length sum == sha256_size)) [
  | inl e ↦
      let same : record { class = c; sum = sum } ≡ r = ground arith in
      subst IsValid same (record { class_ok = v; size_ok = ground arith; bytes_ok = b sum refl })
  | inr e ↦ cc (rw e at h)
]

split_at-IsValid : (s : Text) (o : Option ℕ) (r : Revision) → split_at s o ≡ ok r → IsValid r
unfolding split_at
split_at-IsValid s none r h = cc
split_at-IsValid s (some i) r h = elim (Bool-cases (class_valid (take i s))) [
  | inl e ↦
      check_sum-IsValid (take i s) (hex_decode (drop (suc i) s)) r e
        (hex_decode-bytes (drop (suc i) s)) (rw e at h)
  | inr e ↦ cc (rw e at h)
]

-- What `ParseRevision` accepts: the empty text, for the zero revision, and otherwise only texts
-- that give a known class and a digest of 32 bytes.
pub parse_revision-IsValid :
    (s : Text) (r : Revision) → parse_revision s ≡ ok r → (s ≡ []) × (r ≡ zero_revision) ⊎ IsValid r
unfolding parse_revision
parse_revision-IsValid [] r h = inl (refl, ground arith)
parse_revision-IsValid (x ∷ l) r h =
    inr (split_at-IsValid (x ∷ l) (index_byte (x ∷ l) b':') r (unfold split_revision in h))

pub revision_string-injective :
    (r o : Revision) → IsValid r → IsValid o → revision_string r ≡ revision_string o → r ≡ o
revision_string-injective r o v w e =
    ok_eq (sym (parse_revision-string r v) ∙ ap parse_revision e ∙ parse_revision-string o w)
  where
    ok_eq : ◌≡◌ {A = Result RevError Revision} (ok r) (ok o) → r ≡ o
    ok_eq h = ground arith

-- Comparing revisions is an error exactly across classes, and otherwise decides equality.
pub revision_equal_lem :
    (r o : Revision)
    → (r.class ≡ o.class → (revision_equal r o ≡ ok true) ↔ (r ≡ o))
      × (r.class ≢ o.class → revision_equal r o ≡ err (cross_class r.class o.class))
unfolding revision_equal sums_equal
revision_equal_lem r o =
    let classes = text_eq_iff r.class o.class in
    let sums = text_eq_iff r.sum o.sum in
    (λ e. ground (arith, classes, sums), λ n. ground (arith, classes))
