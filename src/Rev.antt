-- ===== src/Rev.antt =====
-- internal/rev/rev.go: the identity of a revision, its text form and its comparison, with the
-- `encoding/hex` that the form uses. Bytes are numbers below 256.
pub mod Roundtrip
mod Tests
use pgdesign.Base.{
  ℕ, zero, suc, ◌+◌, ◌-◌, ◌*◌, ◌/◌, ◌%◌, Text, bytes, List, [], ◌∷◌, ◌++◌, Bool, true, false, not,
  ◌&&◌, ◌||◌, Option, none, some, text_eq, length, take, drop, index_byte, leb, ltb, ◌==◌,
  if◌then◌else◌, Result, ok, err,
}

abbrev pub registry_present : Text
registry_present = bytes "registry_present"

abbrev pub registry_absent : Text
registry_absent = bytes "registry_absent"

-- ModelClass.valid
unfoldable pub class_valid : Text → Bool
unfolding text_eq
class_valid c = text_eq c registry_present || text_eq c registry_absent

pub record Revision : Type 0 where
  pub class : Text
  pub sum : List ℕ

abbrev pub zero_revision : Revision
zero_revision = record { class = []; sum = [] }

abbrev is_nil : Text → Bool
is_nil [] = true
is_nil (x ∷ xs) = false

unfoldable pub is_zero : Revision → Bool
is_zero r = is_nil r.class && is_nil r.sum

-- hex.EncodeToString
unfoldable pub hex_digit : ℕ → ℕ
hex_digit n = if ltb n 10 then b'0' + n else b'a' + (n - 10)

unfoldable pub hex_encode : List ℕ → Text
unfolding hex_digit
hex_encode [] = []
hex_encode (b ∷ bs) = hex_digit (b / 16) ∷ hex_digit (b % 16) ∷ hex_encode bs

-- hex.DecodeString: both cases of the letters are read; an odd number of digits is an error.
unfoldable pub hex_value : ℕ → Option ℕ
hex_value c =
    if leb b'0' c && leb c b'9'
    then some (c - b'0')
    else if leb b'a' c && leb c b'f'
    then some (c - b'a' + 10)
    else if leb b'A' c && leb c b'F'
    then some (c - b'A' + 10)
    else none

unfoldable pub join_byte : Option ℕ → Option ℕ → Option (List ℕ) → Option (List ℕ)
join_byte (some h) (some l) (some rest) = some ((h * 16 + l) ∷ rest)
join_byte _ _ _ = none

unfoldable pub hex_decode : Text → Option (List ℕ)
unfolding hex_value join_byte
hex_decode [] = some []
hex_decode (x ∷ []) = none
hex_decode (x ∷ y ∷ rest) = join_byte (hex_value x) (hex_value y) (hex_decode rest)

-- Revision.Hex and Revision.String
unfoldable pub hex_of : Revision → Text
unfolding hex_encode
hex_of r = hex_encode r.sum

unfoldable pub revision_string : Revision → Text
unfolding hex_of
revision_string r = r.class ++ (b':' ∷ hex_of r)

pub data RevError : Type 0 where
  cross_class : Text → Text → RevError
  unknown_class : Text → RevError
  invalid_hex : RevError
  wrong_size : ℕ → RevError
  malformed : RevError

unfoldable pub sums_equal : List ℕ → List ℕ → Bool
unfolding text_eq
sums_equal a b = text_eq a b

-- Revision.Equal
unfoldable pub revision_equal : Revision → Revision → Result RevError Bool
unfolding sums_equal text_eq
revision_equal r other =
    if not (text_eq r.class other.class)
    then err (cross_class r.class other.class)
    else ok (sums_equal r.sum other.sum)

-- sha256.Size
abbrev pub sha256_size : ℕ
sha256_size = 32

unfoldable pub check_sum : Text → Option (List ℕ) → Result RevError Revision
check_sum class none = err invalid_hex
check_sum class (some sum) =
    if not (length sum == sha256_size)
    then err (wrong_size (length sum))
    else ok (record { class = class; sum = sum })

-- splitRevision, from the position of the first ':'.
unfoldable pub split_at : Text → Option ℕ → Result RevError Revision
unfolding class_valid hex_decode check_sum
split_at s none = err malformed
split_at s (some i) =
    if not (class_valid (take i s))
    then err (unknown_class (take i s))
    else check_sum (take i s) (hex_decode (drop (suc i) s))

unfoldable pub split_revision : Text → Result RevError Revision
unfolding split_at index_byte
split_revision s = split_at s (index_byte s b':')

unfoldable pub parse_revision : Text → Result RevError Revision
unfolding split_revision
parse_revision s = if is_nil s then ok zero_revision else split_revision s
