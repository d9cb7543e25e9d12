-- ===== src/Base/Cut.antt =====
-- Cutting a text at a byte: `strings.IndexByte`, and the slices before and after the position.
use Prim.Native.Nat.{ℕ, zero, suc, ◌≤◌}
use mathlib.Core.Path.{◌≡◌, refl, ap}
use mathlib.Core.Bool.{Bool, true, not, ◌&&◌}
use mathlib.Core.Option
use mathlib.Core.Option.{Option, none, some}
use mathlib.Core.List.{List, [], ◌∷◌, ◌++◌}
use native.Mathlib.Omega.{arith}
use mathlib.Core.Logic.{inl, inr}
use pgdesign.Base.Tests.{◌==◌, ==_iff, if◌then◌else◌, Bool-cases, Option-cases}
use pgdesign.Base.Lists.{length, take, drop}
use pgdesign.Base.Texts.{Text}

unfoldable pub index_byte : Text → ℕ → Option ℕ
index_byte [] c = none
index_byte (x ∷ xs) c = if x == c then some 0 else Option.map suc (index_byte xs c)

-- The byte `c` does not occur.
unfoldable pub lacks : Text → ℕ → Bool
lacks [] c = true
lacks (x ∷ xs) c = not (x == c) && lacks xs c

pub index_byte_at :
    (c : ℕ) (xs ys : Text) → lacks xs c ≡ true → index_byte (xs ++ (c ∷ ys)) c ≡ some (length xs)
unfolding index_byte lacks
index_byte_at c [] ys h = ground arith
index_byte_at c (x ∷ xs) ys h = ground (arith, index_byte_at c xs ys)

pub index_byte-lacks : (c : ℕ) (xs : Text) → lacks xs c ≡ true → index_byte xs c ≡ none
unfolding index_byte lacks
index_byte-lacks c [] h = refl
index_byte-lacks c (x ∷ xs) h = ground (arith, index_byte-lacks c xs)

pub lacks-append :
    (c : ℕ) (xs ys : Text) → lacks xs c ≡ true → lacks ys c ≡ true → lacks (xs ++ ys) c ≡ true
unfolding lacks
lacks-append c [] ys h k = k
lacks-append c (x ∷ xs) ys h k = ground (arith, lacks-append c xs ys)

module _ {ℓ} {A : Type ℓ} where
  pub take-append : (xs ys : List A) → take (length xs) (xs ++ ys) ≡ xs
  take-append [] ys = refl
  take-append (x ∷ xs) ys = ap (λ l. x ∷ l) (take-append xs ys)

  pub drop-append : (xs ys : List A) → drop (length xs) (xs ++ ys) ≡ ys
  drop-append [] ys = refl
  drop-append (x ∷ xs) ys = drop-append xs ys

  pub drop-append_cons :
      (xs : List A) (y : A) (ys : List A) → drop (suc (length xs)) (xs ++ (y ∷ ys)) ≡ ys
  drop-append_cons [] y ys = refl
  drop-append_cons (x ∷ xs) y ys = drop-append_cons xs y ys

-- The first occurrence splits the text.
pub index_byte-split :
    (c : ℕ) (s : Text) (i : ℕ)
    → index_byte s c ≡ some i
    → (s ≡ take i s ++ (c ∷ drop (suc i) s)) × (lacks (take i s) c ≡ true)
unfolding index_byte lacks
index_byte-split c [] i h = cc
index_byte-split c (x ∷ s) i h = elim (Bool-cases (x == c)) [
  | inl e ↦ let at : i ≡ 0 = ground arith in rw at (ap (λ y. y ∷ s) ((==_iff x c).0 e), refl)
  | inr n ↦ elim (Option-cases (index_byte s c)) [
    | inl f ↦ cc (rw (n, f) at h)
    | inr (j, f) ↦
        let found : some (suc j) ≡ some i = rw (n, f) at h in
        let at : i ≡ suc j = cc in
        let (split, clean) = index_byte-split c s j f in rw at (ap (λ l. x ∷ l) split, ground arith)
  ]
]

pub length-take : {A : Type 0} (n : ℕ) (s : List A) → n ≤ length s → length (take n s) ≡ n
length-take zero s h = refl
length-take (suc n) [] h = omega arith
length-take (suc n) (x ∷ s) h = omega (arith, length-take n s)

pub take-drop : {A : Type 0} (n : ℕ) (s : List A) → take n s ++ drop n s ≡ s
take-drop zero s = refl
take-drop (suc n) [] = refl
take-drop (suc n) (x ∷ s) = ap (λ l. x ∷ l) (take-drop n s)
