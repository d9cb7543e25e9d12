-- ===== src/Splitfmt.antt =====
-- internal/splitfmt/splitfmt.go: a count, then each statement behind its length in bytes.
pub mod Roundtrip
mod Line
pub mod Grammar
mod Tests
use pgdesign.Base.{
  ℕ, zero, suc, ◌+◌, Text, List, [], ◌∷◌, ◌++◌, Bool, true, false, not, ◌||◌, Option, none, some,
  Result, ok, err, if◌then◌else◌, length, take, drop, index_byte, ltb, ◌==◌, itoa, atoi, Signed,
  plus, minus, digits_value, digits,
}

abbrev pub newline : ℕ
newline = 10

-- The loop of Encode.
unfoldable pub encode_entries : List Text → Text
encode_entries [] = []
encode_entries (s ∷ statements) =
    itoa (length s) ++ (newline ∷ (s ++ (newline ∷ encode_entries statements)))

unfoldable pub encode : List Text → Text
encode statements = itoa (length statements) ++ (newline ∷ encode_entries statements)

pub data DecodeError : Type 0 where
  missing_count_newline invalid_count : DecodeError
  negative_count : ℕ → DecodeError
  missing_length_newline invalid_length missing_separator : ℕ → DecodeError
  negative_length : ℕ → ℕ → DecodeError
  short_payload : ℕ → ℕ → ℕ → DecodeError
  trailing_bytes : ℕ → ℕ → DecodeError

abbrev starts_line : Text → Bool
starts_line [] = false
starts_line (c ∷ rest) = c == newline

-- The payload of statement `i` and what follows it.
unfoldable pub take_payload : ℕ → ℕ → Text → Result DecodeError (Text × Text)
take_payload i len rest =
    let after = drop len rest in
    if ltb (length rest) len
    then err (short_payload i len (length rest))
    else if not (starts_line after)
    then err (missing_separator i)
    else ok (take len rest, drop 1 after)

unfoldable pub sized_payload : ℕ → Option Signed → Text → Result DecodeError (Text × Text)
sized_payload i none rest = err (invalid_length i)
sized_payload i (some (minus n)) rest = err (negative_length i n)
sized_payload i (some (plus n)) rest = take_payload i n rest

-- From the position of the newline on.
unfoldable pub entry_at : ℕ → Text → Option ℕ → Result DecodeError (Text × Text)
entry_at i rest none = err (missing_length_newline i)
entry_at i rest (some idx) = sized_payload i (atoi (take idx rest)) (drop (suc idx) rest)

-- One round of the loop of Decode.
unfoldable pub decode_entry : ℕ → Text → Result DecodeError (Text × Text)
decode_entry i rest = entry_at i rest (index_byte rest newline)

unfoldable pub add_statement :
    Text → Result DecodeError (List Text) → Result DecodeError (List Text)
add_statement s (err e) = err e
add_statement s (ok ss) = ok (s ∷ ss)

unfoldable pub after_entry :
    Result DecodeError (Text × Text)
    → (Text → Result DecodeError (List Text))
    → Result DecodeError (List Text)
after_entry (err e) next = err e
after_entry (ok (s, rest)) next = add_statement s (next rest)

-- The loop, over the rounds left, and the check for trailing bytes; `count` is what was read.
unfoldable pub decode_loop : ℕ → ℕ → ℕ → Text → Result DecodeError (List Text)
decode_loop zero count i [] = ok []
decode_loop zero count i (c ∷ rest) = err (trailing_bytes (length (c ∷ rest)) count)
decode_loop (suc n) count i rest = after_entry (decode_entry i rest) (decode_loop n count (suc i))

unfoldable pub counted : Option Signed → Text → Result DecodeError (List Text)
counted none rest = err invalid_count
counted (some (minus n)) rest = err (negative_count n)
counted (some (plus n)) rest = decode_loop n n 0 rest

unfoldable pub count_at : Text → Option ℕ → Result DecodeError (List Text)
count_at rest none = err missing_count_newline
count_at rest (some idx) = counted (atoi (take idx rest)) (drop (suc idx) rest)

unfoldable pub decode : Text → Result DecodeError (List Text)
decode rest = count_at rest (index_byte rest newline)
