-- ===== src/Base/Texts.antt =====
-- Go strings as lists of bytes, their equality and their order (bytewise, as `<` on strings is).
use Prim.Native.Char.{code}
use Prim.Native.Nat.{ℕ}
use Prim.Native.String.{String}
use mathlib.Core.Path.{◌≡◌, refl}
use mathlib.Core.Logic.{◌↔◌, ◌⊎◌, inl, inr}
use mathlib.Core.Bool.{Bool, true, false, not, ◌&&◌, ◌||◌}
use mathlib.Core.List.{List, [], ◌∷◌}
use native.Mathlib.Omega.{arith}
use pgdesign.Base.Tests.{ltb, ◌==◌, if◌then◌else◌}

abbrev pub Text : Type 0
Text = List ℕ

-- The bytes of a literal.
abbrev pub bytes : String → Text
bytes String.[] = []
bytes (String.◌∷◌ c s) = code c ∷ bytes s

unfoldable pub text_eq : Text → Text → Bool
text_eq [] [] = true
text_eq (x ∷ xs) (y ∷ ys) = x == y && text_eq xs ys
text_eq _ _ = false

unfoldable pub text_lt : Text → Text → Bool
text_lt [] [] = false
text_lt [] (y ∷ ys) = true
text_lt (x ∷ xs) [] = false
text_lt (x ∷ xs) (y ∷ ys) = if ltb x y then true else if ltb y x then false else text_lt xs ys

abbrev pub text_le : Text → Text → Bool
text_le a b = not (text_lt b a)

pub text_eq_refl : (a : Text) → text_eq a a ≡ true
unfolding text_eq
text_eq_refl [] = refl
text_eq_refl (x ∷ xs) = ground (arith, text_eq_refl xs)

eq_of_text_eq : (a b : Text) → text_eq a b ≡ true → a ≡ b
unfolding text_eq
eq_of_text_eq [] [] h = refl
eq_of_text_eq [] (y ∷ ys) h = cc
eq_of_text_eq (x ∷ xs) [] h = cc
eq_of_text_eq (x ∷ xs) (y ∷ ys) h = ground (arith, eq_of_text_eq xs ys)

pub text_eq_iff : (a b : Text) → (text_eq a b ≡ true) ↔ (a ≡ b)
text_eq_iff a b = (eq_of_text_eq a b, λ e. ground (arith, text_eq_refl a))

pub text_lt_irrefl : (a : Text) → text_lt a a ≡ false
unfolding text_lt
text_lt_irrefl [] = refl
text_lt_irrefl (x ∷ xs) = ground (arith, text_lt_irrefl xs)

pub text_lt_trans : (a b c : Text) → text_lt a b ≡ true → text_lt b c ≡ true → text_lt a c ≡ true
unfolding text_lt
text_lt_trans [] b [] h k =
    elim b as (λ b. text_lt [] b ≡ true → text_lt b [] ≡ true → text_lt [] [] ≡ true) [
      | [] ↦ λ p q. p
      | y ∷ ys ↦ λ p q. q
    ]
      h k
text_lt_trans [] b (z ∷ zs) h k = refl
text_lt_trans (x ∷ xs) [] c h k = cc
text_lt_trans (x ∷ xs) (y ∷ ys) [] h k = cc
text_lt_trans (x ∷ xs) (y ∷ ys) (z ∷ zs) h k = ground (arith, text_lt_trans xs ys zs)

-- The order is total: one of the three holds.
pub text_trichotomy : (a b : Text) → (text_lt a b ≡ true) ⊎ (a ≡ b) ⊎ (text_lt b a ≡ true)
unfolding text_lt
text_trichotomy [] [] = inr (inl refl)
text_trichotomy [] (y ∷ ys) = inl refl
text_trichotomy (x ∷ xs) [] = inr (inr refl)
text_trichotomy (x ∷ xs) (y ∷ ys) = ground (arith, text_trichotomy xs ys)

pub text_le_refl : (a : Text) → text_le a a ≡ true
text_le_refl a = ground (arith, text_lt_irrefl a)

pub text_le_of_lt : (a b : Text) → text_lt a b ≡ true → text_le a b ≡ true
text_le_of_lt a b h = ground (arith, text_lt_trans a b a, text_lt_irrefl a)

pub text_le_trans : (a b c : Text) → text_le a b ≡ true → text_le b c ≡ true → text_le a c ≡ true
text_le_trans a b c h k =
    ground
      (arith, text_trichotomy a b, text_trichotomy b c, text_lt_trans c a b, text_lt_trans b c a)

pub text_lt_of_le_lt : (a b c : Text) → text_le a b ≡ true → text_lt b c ≡ true → text_lt a c ≡ true
text_lt_of_le_lt a b c h k = ground (arith, text_trichotomy a b, text_lt_trans a b c)

pub text_le_antisymm : (a b : Text) → text_le a b ≡ true → text_le b a ≡ true → a ≡ b
text_le_antisymm a b h k = ground (arith, text_trichotomy a b)

-- Whether a text is in a list: a lookup in a Go map used as a set, or a linear scan.
unfoldable pub elem : Text → List Text → Bool
elem a [] = false
elem a (x ∷ xs) = text_eq a x || elem a xs
