-- ===== src/Semver/Tests.antt =====
-- Versions in order, and texts that are none.
use pgdesign.Base.{
  bytes, true, some, none, ◌≡◌, ◌≢◌, ◌↔◌, refl, atoi, unsigned, digits_value, is_digit, index_byte,
}
use pgdesign.Semver.{
  Version, below, same, above, compare_semver, compare_parts, compare_number, signed_lt,
  semver_parts, first_part, last_parts, numbers, cut_dot, cut_at, trim_v, in_semver_range, at_least,
  at_most,
}
use pgdesign.Semver.Reads.{Reads}
use pgdesign.Semver.Order.{IsBefore, compare_semver_correct}

numeric : compare_semver (bytes "v0.9.0") (bytes "0.10.0") ≡ below
unfolding compare_semver compare_parts compare_number signed_lt semver_parts first_part last_parts
    numbers cut_dot cut_at trim_v atoi unsigned digits_value is_digit index_byte
numeric = refl

invalid_last : compare_semver (bytes "1.2") (bytes "9.9.9") ≡ above
unfolding compare_semver compare_parts compare_number signed_lt semver_parts first_part last_parts
    numbers cut_dot cut_at trim_v atoi unsigned digits_value is_digit index_byte
invalid_last = refl

inside : in_semver_range (bytes "0.2.0") (bytes "0.1.0") (bytes "0.2.0") ≡ true
unfolding in_semver_range at_least at_most compare_semver compare_parts compare_number signed_lt
    semver_parts first_part last_parts numbers cut_dot cut_at trim_v atoi unsigned digits_value
    is_digit index_byte
inside = refl

compare_semver_correct_example :
    ((compare_semver (bytes "0.9.0") (bytes "0.10.0") ≡ below)
      ↔ IsBefore (bytes "0.9.0") (bytes "0.10.0"))
    × ((compare_semver (bytes "0.9.0") (bytes "0.10.0") ≡ above)
        ↔ IsBefore (bytes "0.10.0") (bytes "0.9.0"))
    × ((compare_semver (bytes "0.9.0") (bytes "0.10.0") ≡ same)
        ↔ (semver_parts (bytes "0.9.0") ≡ semver_parts (bytes "0.10.0"))
          × (semver_parts (bytes "0.9.0") ≡ none → bytes "0.9.0" ≡ bytes "0.10.0"))
    × (compare_semver (bytes "0.9.0") (bytes "0.10.0") ≢ above
        → compare_semver (bytes "0.10.0") (bytes "x") ≢ above
        → compare_semver (bytes "0.9.0") (bytes "x") ≢ above)
    × ((v : Version) → (semver_parts (bytes "0.9.0") ≡ some v) ↔ Reads (bytes "0.9.0") v)
compare_semver_correct_example = compare_semver_correct (bytes "0.9.0") (bytes "0.10.0") (bytes "x")
