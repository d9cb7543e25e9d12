-- ===== src/Splitfmt/Roundtrip.antt =====
-- internal/splitfmt/splitfmt.go: Decode reads back what Encode wrote.
use pgdesign.Base.{
  ℕ, ◌≤◌, Text, List, [], ◌∷◌, ok, All, length, itoa, atoi-itoa, max_int, ◌≡◌, refl,
}
use pgdesign.Splitfmt.{encode_entries, encode, decode}
use pgdesign.Splitfmt.Grammar.{IsEntries, decode-IsFile}
use pgdesign.Splitfmt.Line.{IsLine, read-Line}

-- The length fits the integer type.
abbrev pub Fits : Text → Type 0
Fits s = length s ≤ max_int

itoa-IsLine : (n : ℕ) → n ≤ max_int → IsLine (itoa n) n
itoa-IsLine n h = read-Line (itoa n) n (atoi-itoa n h)

encode-IsEntries :
    (statements : List Text)
    → All Fits statements
    → IsEntries (encode_entries statements) statements
unfolding encode_entries
encode-IsEntries [] h = refl
encode-IsEntries (s ∷ statements) h = (
  itoa (length s),
  encode_entries statements,
  itoa-IsLine (length s) h.0,
  refl,
  encode-IsEntries statements h.1,
)

-- Decode gives back the statements that were encoded, whatever bytes they hold, when their number
-- and their lengths fit a 64-bit integer.
pub decode-encode :
    (statements : List Text)
    → length statements ≤ max_int
    → All Fits statements
    → decode (encode statements) ≡ ok statements
unfolding encode
decode-encode statements h fits = decode-IsFile (encode statements) statements (
  itoa (length statements),
  encode_entries statements,
  itoa-IsLine (length statements) h,
  refl,
  encode-IsEntries statements fits,
)
