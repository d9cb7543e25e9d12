-- ===== src/Squash/Down.antt =====
-- internal/migrate/squash_chain.go, classifyConsolidationDown: the form of a range's down.
use pgdesign.Base.{
  List, [], ◌∷◌, true, false, some, none, In, inl, inr, ◌≡◌, refl, Bool-cases, Option-cases, arith,
  ◌++◌,
}
use pgdesign.Chain.{non_invertible, is_mechanical, Ops, IsLawful}
use pgdesign.Chain.Invert.{inverse_loop, inverse_of_list, all_mechanically_invertible}
use pgdesign.Chain.Invert.Laws.{
  IsInverse, IsFirstFault, inverse_of_list_correct, new_mechanical_range_lem,
  manifest_diff_down_total,
}
use pgdesign.Squash.{
  DownForm, manifest_diff, composed_recorded_downs, irreversible, recorded_downs,
  classify_consolidation_down,
}

module _ (o : Ops) where
  open o use {Op, invertibility, inverse}

  inverse_loop-none :
      (acc ops : List Op)
      → inverse_loop o acc ops ≡ none
      → (op : Op) × In op ops × (inverse op ≡ none)
  unfolding inverse_loop
  inverse_loop-none acc [] h = cc
  inverse_loop-none acc (op ∷ ops) h = elim (Option-cases (inverse op)) [
    | inl missing ↦ (op, inl refl, missing)
    | inr (io, e) ↦
        let (x, m, missing) = inverse_loop-none (io ∷ acc) ops (rw (e, inverse_loop) at h) in
        (x, inr m, missing)
  ]

  -- What a form says of the steps of the range and of the down with it.
  unfoldable pub Fits : List Op → DownForm × List Op → Type 0
  Fits ops (manifest_diff, down) = (all_mechanically_invertible o ops ≡ true) × IsInverse o ops down
  Fits ops (composed_recorded_downs, down) =
      (all_mechanically_invertible o ops ≡ false) × IsInverse o ops down
  Fits ops (irreversible, down) =
      (down ≡ []) × ((op : Op) × In op ops × (invertibility op ≡ non_invertible))

  recorded-Fits :
      IsLawful o
      → (ops : List Op) → all_mechanically_invertible o ops ≡ false
      → Fits ops (recorded_downs o (inverse_of_list o ops))
  unfolding Fits recorded_downs inverse_of_list
  recorded-Fits law ops n = elim (Option-cases (inverse_of_list o ops)) [
    | inl missing ↦
        let (op, m, e) = inverse_loop-none [] ops missing in
        rw missing (refl, (op, m, (law.agrees op).0 e))
    | inr (down, e) ↦ rw e (n, (inverse_of_list_correct o ops down).0 e)
  ]

  fault-all :
      (before after : List Op) (op : Op)
      → is_mechanical (invertibility op) ≡ false
      → all_mechanically_invertible o (before ++ (op ∷ after)) ≡ false
  unfolding all_mechanically_invertible
  fault-all [] after op h = rw h refl
  fault-all (x ∷ before) after op h = ground (arith, fault-all before after op h)

  -- For lawful steps classifyConsolidationDown always answers, without the panic of
  -- ManifestDiffDown: with the manifest-diff form and the steps' inverses in reverse order when all
  -- steps are mechanically invertible, with the recorded downs and these inverses when not all are
  -- but each has one, and with the irreversible form and no down only when some step is not
  -- invertible.
  pub classify_consolidation_down_correct :
      IsLawful o
      → (ops : List Op)
      → (answer : DownForm × List Op) × (classify_consolidation_down o ops ≡ some answer)
        × Fits ops answer
  unfolding classify_consolidation_down Fits IsFirstFault
  classify_consolidation_down_correct law ops =
      elim (Bool-cases (all_mechanically_invertible o ops)) [
        | inr n ↦ (recorded_downs o (inverse_of_list o ops), rw n refl, recorded-Fits law ops n)
        | inl m ↦ elim (new_mechanical_range_lem o ops) [
          | inl (m', made) ↦
              let (down, e, i) = manifest_diff_down_total o law ops (record { steps = ops }) made in
              ((manifest_diff, down), rw (m, made, e, classify_consolidation_down) refl, (m, i))
          | inr (op, (before, after, split, clean, at), bad) ↦
              cc (rw split at m, fault-all before after op at)
        ]
      ]
