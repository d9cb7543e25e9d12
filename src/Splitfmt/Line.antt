-- ===== src/Splitfmt/Line.antt =====
-- internal/splitfmt/splitfmt.go: the lines that hold a number.
use pgdesign.Base.{
  ℕ, ◌≤◌, ◌+◌, ◌*◌, ◌-◌, Text, [], ◌∷◌, true, false, some, none, inl, inr, ◌⊎◌, ◌≡◌, ◌≢◌, refl, suc,
  zero, Option, negated, as_plus, subst, arith, Bool-cases, Option-cases, ◌==◌, ==_iff, lacks, atoi,
  unsigned, digits_value, is_digit, plus, max_int, leb, sym, ◌∙◌, ap,
}
use pgdesign.Splitfmt.{newline}

-- Decimal digits, and the number that they write after the digits of `acc`.
abbrev pub AllDigits : Text → Type 0
AllDigits [] = Unit
AllDigits (c ∷ s) = (48 ≤ c) × (c ≤ 57) × AllDigits s

abbrev pub written : ℕ → Text → ℕ
written acc [] = acc
written acc (c ∷ s) = written (acc * 10 + (c - 48)) s

-- At least one digit, for a number that fits a 64-bit integer.
abbrev pub IsNumber : Text → ℕ → Type 0
IsNumber s n = (s ≢ []) × AllDigits s × (written 0 s ≡ n) × (n ≤ 9223372036854775807)

-- The digits of a number, or them after a plus sign, or zero after a minus sign.
abbrev pub IsLine : Text → ℕ → Type 0
IsLine line n =
    IsNumber line n
    ⊎ ((s : Text) × (line ≡ b'+' ∷ s) × IsNumber s n)
    ⊎ ((s : Text) × (line ≡ b'-' ∷ s) × IsNumber s n × (n ≡ 0))

digits_value-to :
    (acc : ℕ) (s : Text) (n : ℕ) → digits_value acc s ≡ some n → AllDigits s × (written acc s ≡ n)
unfolding digits_value is_digit
digits_value-to acc [] n h = (tt, cc)
digits_value-to acc (c ∷ s) n h = elim (Bool-cases (is_digit c)) [
  | inr f ↦ cc (rw f at h)
  | inl d ↦
      let (all, is) = digits_value-to (acc * 10 + (c - 48)) s n (rw d at h) in
      ((ground arith, ground arith, all), is)
]

digits_value-from : (acc : ℕ) (s : Text) → AllDigits s → digits_value acc s ≡ some (written acc s)
unfolding digits_value is_digit
digits_value-from acc [] a = refl
digits_value-from acc (c ∷ s) (low, high, a) =
    let rest = digits_value-from (acc * 10 + (c - 48)) s a in
    let d : is_digit c ≡ true = ground arith in rw d rest

-- At least one digit, for a number up to the limit.
IsUpTo : ℕ → Text → ℕ → Type 0
IsUpTo limit s n = (s ≢ []) × AllDigits s × (written 0 s ≡ n) × (n ≤ limit)

unsigned-to : (limit : ℕ) (s : Text) (n : ℕ) → unsigned limit s ≡ some n → IsUpTo limit s n
unfolding unsigned IsUpTo
unsigned-to limit [] n h = cc
unsigned-to limit (c ∷ s) n h = elim (Option-cases (digits_value 0 (c ∷ s))) [
  | inl e ↦ cc (rw e at h)
  | inr (m, e) ↦
      let (all, is) = digits_value-to 0 (c ∷ s) m e in
      elim (Bool-cases (leb m limit)) [
        | inr big ↦ cc (rw (e, big) at h)
        | inl fits ↦
            let same : m ≡ n = cc (rw (e, fits) at h) in
            (λ x. cc, all, is ∙ same, rw (sym same) (ground arith))
      ]
]

unsigned-from : (limit : ℕ) (s : Text) (n : ℕ) → IsUpTo limit s n → unsigned limit s ≡ some n
unfolding unsigned IsUpTo
unsigned-from limit [] n (some_there, all, is, fits) = elim (some_there refl) [ ]
unsigned-from limit (c ∷ s) n (some_there, all, is, fits) =
    let value : digits_value 0 (c ∷ s) ≡ some n = digits_value-from 0 (c ∷ s) all ∙ ap some is in
    let small : leb n limit ≡ true = ground arith in rw value (rw small refl)

no_newline : (s : Text) → AllDigits s → lacks s newline ≡ true
unfolding lacks
no_newline [] a = refl
no_newline (c ∷ s) (low, high, a) = let rest = no_newline s a in ground arith

atoi_digits : (s : Text) (n : ℕ) → IsNumber s n → atoi s ≡ some (plus n)
unfolding atoi IsUpTo
atoi_digits [] n (some_there, all, is, fits) = elim (some_there refl) [ ]
atoi_digits (c ∷ s) n number =
    let (some_there, (low, high, all), is, fits) = number in
    let no_minus : (c == b'-') ≡ false = ground arith in
    let no_plus : (c == b'+') ≡ false = ground arith in
    let value = unsigned-from max_int (c ∷ s) n number in rw (no_minus, no_plus, value) refl

atoi_plus : (s : Text) (n : ℕ) → IsNumber s n → atoi (b'+' ∷ s) ≡ some (plus n)
unfolding atoi IsUpTo
atoi_plus s n number = rw (unsigned-from max_int s n number) refl

atoi_minus : (s : Text) → IsNumber s 0 → atoi (b'-' ∷ s) ≡ some (plus 0)
unfolding atoi IsUpTo
atoi_minus s (some_there, all, is, fits) =
    let low : 0 ≤ suc max_int = omega arith in
    rw (unsigned-from (suc max_int) s 0 (some_there, all, is, low)) refl

-- A line of the format has no newline, and Atoi reads the number from it.
pub Line-read :
    (line : Text) (n : ℕ)
    → IsLine line n
    → (lacks line newline ≡ true) × (atoi line ≡ some (plus n))
unfolding lacks
Line-read line n (inl number) = (no_newline line number.1, atoi_digits line n number)
Line-read line n (inr (inl (s, e, number))) =
    let clean = no_newline s number.1 in rw e (clean, atoi_plus s n number)
Line-read line n (inr (inr (s, e, number, z))) =
    let clean = no_newline s number.1 in
    rw (e, z) (clean, atoi_minus s (subst (IsNumber s) z number))

minus_zero : (n : ℕ) (k : Option ℕ) → negated k ≡ some (plus n) → (n ≡ 0) × (k ≡ some 0)
minus_zero n none h = cc
minus_zero n (some zero) h = (cc, refl)
minus_zero n (some (suc k)) h = cc

plus_some : (n : ℕ) (k : Option ℕ) → as_plus k ≡ some (plus n) → k ≡ some n
plus_some n none h = cc
plus_some n (some k) h = let same : k ≡ n = cc in ap some same

pub read-Line : (line : Text) (n : ℕ) → atoi line ≡ some (plus n) → IsLine line n
unfolding atoi IsUpTo
read-Line [] n h = cc
read-Line (c ∷ s) n h = elim (Bool-cases (c == b'-')) [
  | inl m ↦
      let (z, k) = minus_zero n (unsigned (suc max_int) s) (rw m at h) in
      let (some_there, all, is, fits) = unsigned-to (suc max_int) s 0 k in
      inr (
        inr (
          s,
          ap (λ x. x ∷ s) ((==_iff c b'-').0 m),
          (some_there, all, is ∙ sym z, rw z (omega arith)),
          z,
        ))
  | inr m ↦ elim (Bool-cases (c == b'+')) [
    | inl p ↦ inr (
        inl (
          s,
          ap (λ x. x ∷ s) ((==_iff c b'+').0 p),
          unsigned-to max_int s n (plus_some n (unsigned max_int s) (rw (m, p) at h)),
        ))
    | inr p ↦
        inl
          (unsigned-to max_int (c ∷ s) n (plus_some n (unsigned max_int (c ∷ s)) (rw (m, p) at h)))
  ]
]
