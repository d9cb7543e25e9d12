-- ===== src/Chain/Invert.antt =====
-- internal/chain/invert.go: the inverse of a list of steps, and the ranges whose every step is
-- mechanically invertible.
pub mod Laws
use pgdesign.Base.{
  Text, List, [], ◌∷◌, ◌++◌, Bool, true, false, not, ◌&&◌, Option, none, some, Result, ok, err,
  if◌then◌else◌,
}
use pgdesign.Chain.{InvertibilityClass, valid, is_mechanical, Ops}

pub data RangeError : Type 0 where
  invalid_class : Text → InvertibilityClass → RangeError
  not_fully_mechanical : Text → InvertibilityClass → RangeError

module _ (o : Ops) where
  open o use {Op, kind, invertibility, inverse}

  -- The loop of InverseOfList; the array is filled from its end, so `inv` grows at its front.
  unfoldable pub inverse_loop : List Op → List Op → Option (List Op)
  inverse_loop inv [] = some inv
  inverse_loop inv (op ∷ ops) = elim (inverse op) [
    | none ↦ none
    | some io ↦ inverse_loop (io ∷ inv) ops
  ]

  unfoldable pub inverse_of_list : List Op → Option (List Op)
  unfolding inverse_loop
  inverse_of_list ops = inverse_loop [] ops

  unfoldable pub all_mechanically_invertible : List Op → Bool
  unfolding is_mechanical
  all_mechanically_invertible [] = true
  all_mechanically_invertible (op ∷ ops) =
      let rest = all_mechanically_invertible ops in
      if not (is_mechanical (invertibility op)) then false else rest

  pub record MechanicalRange : Type 0 where
    pub steps : List Op

  unfoldable pub check_range : List Op → List Op → Result RangeError MechanicalRange
  unfolding valid is_mechanical
  check_range whole [] = ok (record { steps = whole })
  check_range whole (op ∷ ops) =
      let rest = check_range whole ops in
      if not (valid (invertibility op))
      then err (invalid_class (kind op) (invertibility op))
      else if not (is_mechanical (invertibility op))
      then err (not_fully_mechanical (kind op) (invertibility op))
      else rest

  -- NewMechanicalRange
  unfoldable pub new_mechanical_range : List Op → Result RangeError MechanicalRange
  unfolding check_range
  new_mechanical_range ops = check_range ops ops

  -- ManifestDiffDown; `none` is the panic.
  unfoldable pub manifest_diff_down : MechanicalRange → Option (List Op)
  unfolding inverse_of_list
  manifest_diff_down r = inverse_of_list r.steps
