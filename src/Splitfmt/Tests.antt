-- ===== src/Splitfmt/Tests.antt =====
-- Small files.
use pgdesign.Base.{
  Text, bytes, List, [], ◌∷◌, ◌++◌, ok, err, ◌≡◌, ◌↔◌, refl, arith, itoa, atoi, index_byte,
}
use pgdesign.Splitfmt.{
  newline, encode, encode_entries, decode, count_at, counted, decode_loop, decode_entry, entry_at,
  sized_payload, take_payload, after_entry, add_statement, short_payload,
}
use pgdesign.Splitfmt.Grammar.{IsFile, decode_correct}
use pgdesign.Splitfmt.Roundtrip.{decode-encode}

abbrev statements : List Text
statements = bytes "DROP TABLE t;" ∷ bytes "" ∷ []

abbrev file : Text
file =
    bytes "2"
    ++ (newline
        ∷ (bytes "13"
            ++ (newline
                ∷ (bytes "DROP TABLE t;" ++ (newline ∷ (bytes "0" ++ (newline ∷ newline ∷ [])))))))

encoded : encode statements ≡ file
unfolding encode encode_entries itoa
encoded = refl

short_file :
    decode (bytes "1" ++ (newline ∷ (bytes "3" ++ (newline ∷ bytes "ab"))))
    ≡ err (short_payload 0 3 2)
unfolding decode count_at counted decode_loop decode_entry entry_at sized_payload take_payload
    after_entry add_statement index_byte atoi
short_file = refl

-- A sign that the grammar in the package's comment does not have.
signed_numbers :
    decode (bytes "+1" ++ (newline ∷ (bytes "-0" ++ (newline ∷ newline ∷ [])))) ≡ ok ([] ∷ [])
unfolding decode count_at counted decode_loop decode_entry entry_at sized_payload take_payload
    after_entry add_statement index_byte atoi
signed_numbers = refl

decode-encode_example : decode (encode statements) ≡ ok statements
decode-encode_example = decode-encode statements (omega arith) (omega arith)

decode_correct_example : (decode file ≡ ok statements) ↔ IsFile file statements
decode_correct_example = decode_correct file statements
