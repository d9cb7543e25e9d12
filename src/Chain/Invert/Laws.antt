-- ===== src/Chain/Invert/Laws.antt =====
-- The inverse of a list is defined exactly when each step has one, turns the composition round, and
-- undoes the list; a manifest-diff down never panics.
use pgdesign.Base.{
  List, [], ◌∷◌, ◌++◌, true, false, some, ok, err, ◌≡◌, refl, sym, ap, ◌∙◌, ◌↔◌, ◌⊎◌, inl, inr,
  arith, append_assoc, append-nil, Option-cases, Bool-cases, subst, if◌then◌else◌,
}
use pgdesign.Chain.{
  InvertibilityClass, mechanically_invertible, declared_inverse, non_invertible, invalid, valid,
  is_mechanical, Ops, IsLawful,
}
use pgdesign.Chain.Invert.{
  RangeError, inverse_loop, inverse_of_list, all_mechanically_invertible, MechanicalRange,
  check_range, new_mechanical_range, manifest_diff_down,
}

module _ (o : Ops) where
  open o use {Op, kind, invertibility, inverse}

  -- `back` is the inverses of `ops`, the last step's first.
  pub data IsInverse : List Op → List Op → Type 0 where
    nothing : IsInverse [] []
    then_undo :
        {op io : Op} {ops back : List Op}
        → inverse op ≡ some io
        → IsInverse ops back
        → IsInverse (op ∷ ops) (back ++ (io ∷ []))

  inverse_loop-some :
      (acc ops inv : List Op)
      → inverse_loop o acc ops ≡ some inv
      → (back : List Op) × IsInverse ops back × (inv ≡ back ++ acc)
  unfolding inverse_loop
  inverse_loop-some acc [] inv h = ([], nothing, ground arith)
  inverse_loop-some acc (op ∷ ops) inv h = elim (Option-cases (inverse op)) [
    | inl e ↦ cc (rw (e, inverse_loop) at h)
    | inr (io, e) ↦
        let (back, i, same) = inverse_loop-some (io ∷ acc) ops inv (rw (e, inverse_loop) at h) in
        (back ++ (io ∷ []), then_undo e i, same ∙ sym (append_assoc back (io ∷ []) acc))
  ]

  inverse_loop_of :
      (acc ops back : List Op) → IsInverse ops back → inverse_loop o acc ops ≡ some (back ++ acc)
  unfolding inverse_loop
  inverse_loop_of acc ops back nothing = refl
  inverse_loop_of acc ops back (then_undo {op} {io} {ops = ops'} {back = back'} e i) =
      rw (e, inverse_loop)
        (rw (append_assoc back' (io ∷ []) acc) (inverse_loop_of (io ∷ acc) ops' back' i))

  -- A list has the inverse `back` exactly when `back` is its steps' inverses in reverse order; in
  -- particular it has one only if every step has.
  pub inverse_of_list_correct :
      (ops back : List Op) → (inverse_of_list o ops ≡ some back) ↔ IsInverse ops back
  unfolding inverse_of_list
  inverse_of_list_correct ops back = (
    λ h.
        let (b, i, e) = inverse_loop-some [] ops back h in
        subst (IsInverse ops) (sym (e ∙ append-nil b)) i,
    λ i. inverse_loop_of [] ops back i ∙ ap some (append-nil back),
  )

  IsInverse-append :
      (xs ys bx by : List Op) → IsInverse xs bx → IsInverse ys by → IsInverse (xs ++ ys) (by ++ bx)
  IsInverse-append xs ys bx by nothing j = rw append-nil j
  IsInverse-append xs ys bx by (then_undo {io} {ops} {back} e i) j =
      subst (IsInverse (xs ++ ys)) (append_assoc by back (io ∷ []))
        (then_undo e (IsInverse-append ops ys back by i j))

  -- Inversion turns composition round: (a then b) is undone by undoing b and then a.
  pub inverse_of_list-append :
      (xs ys bx by : List Op)
      → inverse_of_list o xs ≡ some bx
      → inverse_of_list o ys ≡ some by
      → inverse_of_list o (xs ++ ys) ≡ some (by ++ bx)
  inverse_of_list-append xs ys bx by h k = (inverse_of_list_correct (xs ++ ys) (by ++ bx)).1 (
      IsInverse-append xs ys bx by ((inverse_of_list_correct xs bx).0 h)
        ((inverse_of_list_correct ys by).0 k))

  -- Running steps over a state.
  module _ {S : Type 0} (apply : Op → S → S) where
    pub run : List Op → S → S
    run [] s = s
    run (op ∷ ops) s = run ops (apply op s)

    run-append : (xs ys : List Op) (s : S) → run (xs ++ ys) s ≡ run ys (run xs s)
    unfolding run
    run-append [] ys s = refl
    run-append (x ∷ xs) ys s = run-append xs ys (apply x s)

    undo :
        ((op io : Op) → inverse op ≡ some io → (s : S) → apply io (apply op s) ≡ s)
        → (ops back : List Op) → IsInverse ops back
        → (s : S) → run back (run ops s) ≡ s
    unfolding run
    undo each ops back nothing s = refl
    undo each ops back (then_undo {op} {io} {ops = ops'} {back = back'} e i) s =
        run-append back' (io ∷ []) (run ops' (apply op s))
        ∙ ap (apply io) (undo each ops' back' i (apply op s))
        ∙ each op io e s

    -- If each step's inverse undoes the step, the inverse of a list undoes the list.
    pub inverse_of_list_undoes :
        ((op io : Op) → inverse op ≡ some io → (s : S) → apply io (apply op s) ≡ s)
        → (ops back : List Op) → inverse_of_list o ops ≡ some back
        → (s : S) → run back (run ops s) ≡ s
    inverse_of_list_undoes each ops back h s =
        undo each ops back ((inverse_of_list_correct ops back).0 h) s

  mechanical_eq : (c : InvertibilityClass) → is_mechanical c ≡ true → c ≡ mechanically_invertible
  unfolding is_mechanical
  mechanical_eq mechanically_invertible h = refl
  mechanical_eq declared_inverse h = cc
  mechanical_eq non_invertible h = cc
  mechanical_eq (invalid n) h = cc

  mechanical_valid : (c : InvertibilityClass) → is_mechanical c ≡ true → valid c ≡ true
  unfolding is_mechanical valid
  mechanical_valid mechanically_invertible h = refl
  mechanical_valid declared_inverse h = cc
  mechanical_valid non_invertible h = cc
  mechanical_valid (invalid n) h = cc

  check_range_ok :
      (whole ops : List Op)
      → all_mechanically_invertible o ops ≡ true
      → check_range o whole ops ≡ ok (record { steps = whole })
  unfolding check_range all_mechanically_invertible
  check_range_ok whole [] h = refl
  check_range_ok whole (op ∷ ops) h =
      ground (arith, mechanical_valid (invertibility op), check_range_ok whole ops)

  -- The first step that is not mechanical, and the steps before it that are.
  unfoldable pub IsFirstFault : List Op → Op → Type 0
  IsFirstFault ops op =
      (b a : List Op) × (ops ≡ b ++ (op ∷ a))
      × (all_mechanically_invertible o b ≡ true)
      × (is_mechanical (invertibility op) ≡ false)

  abbrev pub fault : Op → RangeError
  fault op =
      if valid (invertibility op)
      then RangeError.not_fully_mechanical (kind op) (invertibility op)
      else RangeError.invalid_class (kind op) (invertibility op)

  check_range_err :
      (whole ops : List Op)
      → all_mechanically_invertible o ops ≡ false
      → (op : Op) × IsFirstFault ops op × (check_range o whole ops ≡ err (fault op))
  unfolding check_range all_mechanically_invertible IsFirstFault
  check_range_err whole [] h = cc
  check_range_err whole (op ∷ ops) h = elim (Bool-cases (is_mechanical (invertibility op))) [
    | inl m ↦
        let (x, (b, a, e, before, at), f) = check_range_err whole ops (rw m at h) in
        (
          x,
          (op ∷ b, a, ap (λ l. op ∷ l) e, rw (m, all_mechanically_invertible) before, at),
          rw (mechanical_valid (invertibility op) m, m) f,
        )
    | inr m ↦ (
      op,
      ([], ops, refl, refl, m),
      elim (Bool-cases (valid (invertibility op))) [ inl v ↦ rw (v, m) | inr v ↦ rw v ],
    )
  ]

  -- A range is built of a list exactly when every step is mechanically invertible; otherwise the
  -- error is about the first step that is not.
  pub new_mechanical_range_lem :
      (ops : List Op)
      → (all_mechanically_invertible o ops ≡ true)
          × (new_mechanical_range o ops ≡ ok (record { steps = ops }))
        ⊎ (op : Op) × IsFirstFault ops op × (new_mechanical_range o ops ≡ err (fault op))
  unfolding new_mechanical_range
  new_mechanical_range_lem ops = elim (Bool-cases (all_mechanically_invertible o ops)) [
    | inl m ↦ inl (m, check_range_ok ops ops m)
    | inr n ↦ inr (check_range_err ops ops n)
  ]

  IsInverse-total :
      IsLawful o
      → (ops : List Op) → all_mechanically_invertible o ops ≡ true
      → (back : List Op) × IsInverse ops back
  unfolding all_mechanically_invertible
  IsInverse-total law [] h = ([], nothing)
  IsInverse-total law (op ∷ ops) h = elim (Bool-cases (is_mechanical (invertibility op))) [
    | inl m ↦ elim (Option-cases (inverse op)) [
      | inl missing ↦ cc (mechanical_eq (invertibility op) m, (law.agrees op).0 missing)
      | inr (io, e) ↦
          let (back, i) = IsInverse-total law ops (rw m at h) in (back ++ (io ∷ []), then_undo e i)
    ]
    | inr m ↦ cc (rw m at h)
  ]

  -- For a lawful implementation the down of a mechanical range is always there: it is the steps'
  -- inverses in reverse order, and there is no panic.
  pub manifest_diff_down_total :
      IsLawful o
      → (ops : List Op) (r : MechanicalRange o) → new_mechanical_range o ops ≡ ok r
      → (down : List Op) × (manifest_diff_down o r ≡ some down) × IsInverse ops down
  unfolding manifest_diff_down
  manifest_diff_down_total law ops r h = elim (new_mechanical_range_lem ops) [
    | inl (m, e) ↦
        let (back, i) = IsInverse-total law ops m in
        let same : r ≡ record { steps = ops } = ground arith in
        (back, rw same ((inverse_of_list_correct ops back).1 i), i)
    | inr (op, f, e) ↦ cc
  ]
