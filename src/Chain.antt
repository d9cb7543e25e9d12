-- ===== src/Chain.antt =====
-- internal/chain: the kernel of the migration chain. A step of a migration is known by the
-- interface `Op` of internal/chain/invert.go alone, and is a parameter here.
pub mod Invert
pub mod Edge
pub mod Manifest
mod Tests
use pgdesign.Base.{ℕ, Text, Option, Bool, true, false, none, ◌≡◌, ◌↔◌}
use pgdesign.Enc.Key.{Key}

-- `invalid` is any other value of the Go integer type.
pub data InvertibilityClass : Type 0 where
  mechanically_invertible declared_inverse non_invertible : InvertibilityClass
  invalid : ℕ → InvertibilityClass

-- InvertibilityClass.valid
unfoldable pub valid : InvertibilityClass → Bool
valid (invalid n) = false
valid _ = true

unfoldable pub is_mechanical : InvertibilityClass → Bool
is_mechanical mechanically_invertible = true
is_mechanical _ = false

pub record Ops : Type 1 where
  pub Op : Type 0
  pub kind : Op → Text
  pub target : Op → Key
  pub invertibility : Op → InvertibilityClass
  pub payload_id : Op → Text
  pub inverse : Op → Option Op

-- What the comment on Inverse asks of an implementation: there is no inverse exactly when the
-- class says so.
pub record IsLawful (o : Ops) : Type 0 where
  pub agrees : (op : o.Op) → (o.inverse op ≡ none) ↔ (o.invertibility op ≡ non_invertible)
