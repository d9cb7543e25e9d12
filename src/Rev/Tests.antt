-- ===== src/Rev/Tests.antt =====
-- Revisions at concrete digests.
use pgdesign.Base.{ℕ, bytes, List, [], ◌∷◌, ◌≡◌, refl, arith, ok, err, index_byte}
use pgdesign.Rev.{
  Revision, registry_present, registry_absent, zero_revision, revision_string, parse_revision,
  malformed, unknown_class, class_valid, hex_encode,
}
use pgdesign.Rev.Roundtrip.{IsValid, parse_revision-string}

abbrev digest : List ℕ
digest =
    0 ∷ 1 ∷ 2 ∷ 3 ∷ 4 ∷ 5 ∷ 6 ∷ 7 ∷ 8 ∷ 9 ∷ 10 ∷ 11 ∷ 12 ∷ 13 ∷ 14 ∷ 15 ∷ 16 ∷ 17 ∷ 18 ∷ 19 ∷ 20
    ∷ 21 ∷ 22 ∷ 23 ∷ 24 ∷ 25 ∷ 26 ∷ 27 ∷ 28 ∷ 29 ∷ 30 ∷ 255 ∷ []

abbrev present : Revision
present = record { class = registry_present; sum = digest }

abbrev introspected : Revision
introspected = record { class = registry_absent; sum = digest }

present-IsValid : IsValid present
unfolding class_valid
present-IsValid = record { class_ok = refl; size_ok = refl; bytes_ok = omega arith }

hex_sample : hex_encode (0 ∷ 171 ∷ 255 ∷ []) ≡ bytes "00abff"
unfolding hex_encode
hex_sample = refl

malformed_sample : parse_revision (bytes "registry_present") ≡ err malformed
unfolding parse_revision index_byte
malformed_sample = refl

class_sample : parse_revision (bytes "other:00") ≡ err (unknown_class (bytes "other"))
unfolding parse_revision index_byte
class_sample = refl

parse_revision-string_example : parse_revision (revision_string present) ≡ ok present
parse_revision-string_example = parse_revision-string present present-IsValid

empty_parse : parse_revision [] ≡ ok zero_revision
unfolding parse_revision
empty_parse = refl
