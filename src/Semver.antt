-- ===== src/Semver.antt =====
-- internal/migrate/semver.go: the versions of migration files and their order.
mod Laws
mod Reads
pub mod Order
mod Tests
use pgdesign.Base.{
  ℕ, suc, ◌+◌, Text, List, [], ◌∷◌, ◌++◌, Bool, true, false, not, ◌||◌, Option, none, some,
  if◌then◌else◌, text_eq, text_lt, take, drop, index_byte, ltb, ◌==◌, Signed, plus, minus, atoi,
}

-- strings.TrimPrefix(v, "v")
unfoldable pub trim_v : Text → Text
trim_v [] = []
trim_v (c ∷ s) = if c == b'v' then s else c ∷ s

-- The text before the first '.' and the text after it.
unfoldable pub cut_at : Text → Option ℕ → Option (Text × Text)
cut_at s none = none
cut_at s (some i) = some (take i s, drop (suc i) s)

unfoldable pub cut_dot : Text → Option (Text × Text)
cut_dot s = cut_at s (index_byte s b'.')

pub record Version : Type 0 where
  pub major : Signed
  pub minor : Signed
  pub patch : Signed

unfoldable pub numbers : Option Signed → Option Signed → Option Signed → Option Version
numbers (some a) (some b) (some c) = some (record { major = a; minor = b; patch = c })
numbers _ _ _ = none

-- The third part keeps all further dots.
unfoldable pub last_parts : Text → Option (Text × Text) → Option Version
last_parts major none = none
last_parts major (some (minor, patch)) = numbers (atoi major) (atoi minor) (atoi patch)

unfoldable pub first_part : Option (Text × Text) → Option Version
first_part none = none
first_part (some (major, rest)) = last_parts major (cut_dot rest)

-- The errors of semverParts are one here.
unfoldable pub semver_parts : Text → Option Version
semver_parts v = first_part (cut_dot (trim_v v))

-- The results -1, 0 and 1 of a comparison.
pub data Comparison : Type 0 where
  below same above : Comparison

-- Two integers; Atoi gives no negative zero.
unfoldable pub signed_lt : Signed → Signed → Bool
signed_lt (plus m) (plus n) = ltb m n
signed_lt (plus m) (minus n) = false
signed_lt (minus m) (plus n) = true
signed_lt (minus m) (minus n) = ltb n m

-- The comparison of one number, and of the next ones where it is equal.
unfoldable pub compare_number : Signed → Signed → Comparison → Comparison
compare_number a b next = if signed_lt a b then below else if signed_lt b a then above else next

-- strings.Compare
unfoldable pub compare_texts : Text → Text → Comparison
compare_texts a b = if text_lt a b then below else if text_lt b a then above else same

unfoldable pub compare_parts : Text → Text → Option Version → Option Version → Comparison
compare_parts a b none none = compare_texts a b
compare_parts a b none (some w) = above
compare_parts a b (some v) none = below
compare_parts a b (some v) (some w) =
    compare_number v.major w.major
      (compare_number v.minor w.minor (compare_number v.patch w.patch same))

unfoldable pub compare_semver : Text → Text → Comparison
compare_semver a b = compare_parts a b (semver_parts a) (semver_parts b)

unfoldable pub at_least : Comparison → Bool
at_least below = false
at_least _ = true

unfoldable pub at_most : Comparison → Bool
at_most above = false
at_most _ = true

unfoldable pub in_semver_range : Text → Text → Text → Bool
in_semver_range version from to =
    if at_least (compare_semver version from) then at_most (compare_semver version to) else false
