-- ===== src/Base/Count.antt =====
-- How much of a list is still to be found: the measure of the loops that collect.
use Prim.Native.Nat.{ℕ, ◌+◌, ◌≤◌, ◌<◌}
use mathlib.Core.Path.{◌≡◌}
use mathlib.Core.Bool.{true, false}
use mathlib.Core.List.{List, [], ◌∷◌}
use native.Mathlib.Omega.{arith}
use pgdesign.Base.Tests.{if◌then◌else◌}
use pgdesign.Base.Lists.{length}
use pgdesign.Base.Texts.{Text, elem, text_eq_iff}

-- How many texts of `l` are not in `r`.
unfoldable pub missing : List Text → List Text → ℕ
missing [] r = 0
missing (a ∷ l) r = (if elem a r then 0 else 1) + missing l r

abbrev pub Within : List Text → List Text → Type 0
Within r r' = (a : Text) → elem a r ≡ true → elem a r' ≡ true

pub missing_le_length : (l r : List Text) → missing l r ≤ length l
unfolding missing
missing_le_length [] r = omega arith
missing_le_length (a ∷ l) r = ground (arith, missing_le_length l r)

pub missing_mono : (l r r' : List Text) → Within r r' → missing l r' ≤ missing l r
unfolding missing
missing_mono [] r r' w = omega arith
missing_mono (a ∷ l) r r' w = ground (arith, missing_mono l r r' w, w a)

pub missing_lt :
    (l r r' : List Text) (a : Text)
    → Within r r'
    → elem a l ≡ true
    → elem a r ≡ false
    → elem a r' ≡ true
    → missing l r' < missing l r
unfolding missing elem
missing_lt [] r r' a w i b e = cc
missing_lt (x ∷ l) r r' a w i b e =
    ground (arith, w x, text_eq_iff a x, missing_mono l r r' w, missing_lt l r r' a w)
