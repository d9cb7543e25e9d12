-- ===== src/Base/Decimal.antt =====
-- Go's strconv.Itoa and Atoi on the numbers that the program writes and reads: decimal digits, an
-- optional sign, and a value that fits a 64-bit integer. The two errors of Atoi are one here.
use Prim.Native.Nat.{ℕ, zero, suc, ◌+◌, ◌-◌, ◌*◌, ◌/◌, ◌%◌, ◌≤◌, ◌<◌}
use mathlib.Core.Path.{◌≡◌, refl, ap, ◌∙◌}
use mathlib.Core.Logic.{inl, inr}
use mathlib.Core.Bool.{Bool, true, false, ◌&&◌}
use mathlib.Core.Option.{Option, none, some}
use mathlib.Core.List.{[], ◌∷◌, ◌++◌}
use native.Mathlib.Omega.{arith}
use pgdesign.Base.Tests.{ltb, leb, ◌==◌, if◌then◌else◌, Bool-cases}
use pgdesign.Base.Texts.{Text}
use pgdesign.Base.Cut.{lacks, lacks-append}

-- The fuel is a bound on the number of digits.
unfoldable pub digits : ℕ → ℕ → Text
digits zero n = []
digits (suc f) n =
    let front = digits f (n / 10) ++ ((b'0' + n % 10) ∷ []) in
    if ltb n 10 then (b'0' + n) ∷ [] else front

-- Every number has fewer digits than it has units, plus one.
unfoldable pub itoa : ℕ → Text
unfolding digits
itoa n = digits (suc n) n

unfoldable pub is_digit : ℕ → Bool
is_digit c = leb b'0' c && leb c b'9'

-- The value of the digits, read on after `acc`.
unfoldable pub digits_value : ℕ → Text → Option ℕ
unfolding is_digit
digits_value acc [] = some acc
digits_value acc (c ∷ s) =
    let rest = digits_value (acc * 10 + (c - b'0')) s in if is_digit c then rest else none

-- An integer with its sign.
pub data Signed : Type 0 where
  plus minus : ℕ → Signed

abbrev pub max_int : ℕ
max_int = 9223372036854775807

abbrev within_limit : ℕ → Option ℕ → Option ℕ
within_limit limit none = none
within_limit limit (some n) = if leb n limit then some n else none

unfoldable pub unsigned : ℕ → Text → Option ℕ
unfolding digits_value
unsigned limit [] = none
unsigned limit (c ∷ s) = within_limit limit (digits_value 0 (c ∷ s))

abbrev pub negated : Option ℕ → Option Signed
negated none = none
negated (some zero) = some (plus zero)
negated (some (suc n)) = some (minus (suc n))

abbrev pub as_plus : Option ℕ → Option Signed
as_plus none = none
as_plus (some n) = some (plus n)

unfoldable pub atoi : Text → Option Signed
unfolding unsigned
atoi [] = none
atoi (c ∷ s) =
    if c == b'-'
    then negated (unsigned (suc max_int) s)
    else if c == b'+'
    then as_plus (unsigned max_int s)
    else as_plus (unsigned max_int (c ∷ s))

digits_value-append :
    (acc : ℕ) (s t : Text) (n : ℕ)
    → digits_value acc s ≡ some n
    → digits_value acc (s ++ t) ≡ digits_value n t
unfolding digits_value
digits_value-append acc [] t n h = let same : acc ≡ n = cc in rw same refl
digits_value-append acc (c ∷ s) t n h =
    ground (arith, digits_value-append (acc * 10 + (c - b'0')) s t n)

digits_value-digits : (f n : ℕ) → n < f → digits_value 0 (digits f n) ≡ some n
unfolding digits digits_value
digits_value-digits zero n h = elim h [ ]
digits_value-digits (suc f) n h = elim (Bool-cases (ltb n 10)) [
  | inl small ↦ rw small (ground arith)
  | inr big ↦
      let front = digits_value-digits f (n / 10) (ground arith) in
      rw big (
        digits_value-append 0 (digits f (n / 10)) ((b'0' + n % 10) ∷ []) (n / 10) front
        ∙ ground arith)
]

-- A text that begins with a digit.
Starts : Text → Type 0
Starts t = (c : ℕ) × (s : Text) × (t ≡ c ∷ s) × (is_digit c ≡ true)

digits-Starts : (f n : ℕ) → n < f → Starts (digits f n)
unfolding digits is_digit Starts
digits-Starts zero n h = elim h [ ]
digits-Starts (suc f) n h = elim (Bool-cases (ltb n 10)) [
  | inl small ↦ (b'0' + n, [], (rw small refl), ground arith)
  | inr big ↦
      let (c, s, e, d) = digits-Starts f (n / 10) (ground arith) in
      (c, s ++ ((b'0' + n % 10) ∷ []), rw (big, e) refl, d)
]

lacks-digits : (c f n : ℕ) → is_digit c ≡ false → lacks (digits f n) c ≡ true
unfolding digits lacks is_digit
lacks-digits c zero n h = refl
lacks-digits c (suc f) n h = elim (Bool-cases (ltb n 10)) [
  | inl small ↦ rw small (ground arith)
  | inr big ↦ rw big (
      lacks-append c (digits f (n / 10)) ((b'0' + n % 10) ∷ []) (lacks-digits c f (n / 10) h)
        (ground arith))
]

-- No byte but a digit is in a number's text.
pub lacks-itoa : (c n : ℕ) → is_digit c ≡ false → lacks (itoa n) c ≡ true
unfolding itoa
lacks-itoa c n h = lacks-digits c (suc n) n h

atoi_digit :
    (c : ℕ) (s : Text) → is_digit c ≡ true → atoi (c ∷ s) ≡ as_plus (unsigned max_int (c ∷ s))
unfolding atoi is_digit
atoi_digit c s h =
    let no_minus : (c == b'-') ≡ false = ground arith in
    let no_plus : (c == b'+') ≡ false = ground arith in rw (no_minus, no_plus) refl

unsigned_value :
    (limit n c : ℕ) (s : Text)
    → digits_value 0 (c ∷ s) ≡ some n
    → leb n limit ≡ true
    → unsigned limit (c ∷ s) ≡ some n
unfolding unsigned
unsigned_value limit n c s e h = ap (within_limit limit) e ∙ rw h refl

leb_of_le : (a b : ℕ) → a ≤ b → leb a b ≡ true
leb_of_le a b h = ground arith

-- A number that fits the integer type is read back from its text.
pub atoi-itoa : (n : ℕ) → n ≤ max_int → atoi (itoa n) ≡ some (plus n)
unfolding itoa Starts
atoi-itoa n h =
    let value = digits_value-digits (suc n) n (omega arith) in
    let (c, s, e, d) = digits-Starts (suc n) n (omega arith) in
    let read : digits_value 0 (c ∷ s) ≡ some n = rw e at value in
    rw e (atoi_digit c s d ∙ ap as_plus (unsigned_value max_int n c s read (leb_of_le n max_int h)))
