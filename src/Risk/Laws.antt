-- ===== src/Risk/Laws.antt =====
-- What every classification guarantees.
use pgdesign.Base.{ℕ, ◌≤◌, ◌<◌, true, false, ◌≡◌, ◌≢◌, refl, arith, ◌↔◌, ◌⊎◌, sym, ◌∙◌}
use pgdesign.Risk.Capability.{min_version, metadata_only_default, has-min_version}
use pgdesign.Risk.Table.{
  RiskLevel, safe, caution, dangerous, access_exclusive, OpType, create_table, add_column,
  OpContext, Classification, classify_base, classify_add_column,
}
use pgdesign.Risk.{apply_table_size_escalation, classify}

-- The levels in order.
abbrev pub rank : RiskLevel → ℕ
rank safe = 0
rank caution = 1
rank dangerous = 2

abbrev IsLossGuarded : Classification → Type 0
IsLossGuarded c = c.data_loss ≡ true → (c.risk_level ≡ dangerous) × (c.reversible ≡ false)

base-IsLossGuarded : (op : OpType) (ctx : OpContext) → IsLossGuarded (classify_base op ctx)
unfolding classify_base
base-IsLossGuarded create_table ctx h = ground arith
base-IsLossGuarded _ ctx h = ground arith

-- What the size of the table may change: the level, from caution to dangerous under a lock that
-- blocks all access on more than a million rows, and the suggestion.
escalation_lem :
    (c : Classification) (ctx : OpContext)
    → ((apply_table_size_escalation c ctx).lock_type ≡ c.lock_type)
      × ((apply_table_size_escalation c ctx).reversible ≡ c.reversible)
      × ((apply_table_size_escalation c ctx).data_loss ≡ c.data_loss)
      × ((apply_table_size_escalation c ctx).requires_dml ≡ c.requires_dml)
      × (rank c.risk_level ≤ rank (apply_table_size_escalation c ctx).risk_level)
      × (1_000_000 < ctx.estimated_rows
          → c.lock_type ≡ access_exclusive
          → (apply_table_size_escalation c ctx).risk_level ≢ caution)
unfolding apply_table_size_escalation
escalation_lem c ctx =
    (ground arith, ground arith, ground arith, ground arith, ground arith, λ h k e. ground arith)

-- A change that loses data is dangerous and cannot be reversed, whatever the context.
pub classify-data_loss :
    (op : OpType) (ctx : OpContext)
    → (classify op ctx).data_loss ≡ true
    → ((classify op ctx).risk_level ≡ dangerous) × ((classify op ctx).reversible ≡ false)
unfolding classify
classify-data_loss op ctx h =
    let c = classify_base op ctx in
    let e = escalation_lem c ctx in
    let (level, undo) = base-IsLossGuarded op ctx (sym e.2 ∙ h) in
    (ground (arith, e.4, level), e.1 ∙ undo)

-- The size of the table changes no more of a verdict than the level, upwards, and the suggestion;
-- and on more than a million rows a change that takes the AccessExclusive lock is never left at
-- caution.
pub classify_lem :
    (op : OpType) (ctx : OpContext)
    → ((classify op ctx).lock_type ≡ (classify_base op ctx).lock_type)
      × ((classify op ctx).reversible ≡ (classify_base op ctx).reversible)
      × ((classify op ctx).data_loss ≡ (classify_base op ctx).data_loss)
      × ((classify op ctx).requires_dml ≡ (classify_base op ctx).requires_dml)
      × (rank (classify_base op ctx).risk_level ≤ rank (classify op ctx).risk_level)
      × (1_000_000 < ctx.estimated_rows
          → (classify_base op ctx).lock_type ≡ access_exclusive
          → (classify op ctx).risk_level ≢ caution)
unfolding classify
classify_lem op ctx = escalation_lem (classify_base op ctx) ctx

abbrev pub with_rows : ℕ → OpContext → OpContext
with_rows n ctx = record ctx { estimated_rows = n }

base-with_rows :
    (op : OpType) (n : ℕ) (ctx : OpContext)
    → classify_base op (with_rows n ctx) ≡ classify_base op ctx
unfolding classify_base
base-with_rows create_table n ctx = refl
base-with_rows _ n ctx = refl

escalation_mono :
    (c : Classification) (ctx : OpContext) (n m : ℕ)
    → n ≤ m
    → rank (apply_table_size_escalation c (with_rows n ctx)).risk_level
      ≤ rank (apply_table_size_escalation c (with_rows m ctx)).risk_level
unfolding apply_table_size_escalation
escalation_mono c ctx n m h = ground arith

-- More rows never lower the risk of a change.
pub classify_mono :
    (op : OpType) (ctx : OpContext) (n m : ℕ)
    → n ≤ m
    → rank (classify op (with_rows n ctx)).risk_level
      ≤ rank (classify op (with_rows m ctx)).risk_level
unfolding classify
classify_mono op ctx n m h =
    rw (base-with_rows op n ctx, base-with_rows op m ctx)
      (escalation_mono (classify_base op ctx) ctx n m h)

-- Adding a column is safe exactly when it may be null, or has a default and the server is known
-- and at least the one that fills defaults without a rewrite; it is never merely cautioned about.
pub classify-add_column :
    (ctx : OpContext)
    → ((classify add_column ctx).risk_level ≡ safe
        ↔ (ctx.is_nullable ≡ true)
          ⊎ (ctx.has_default ≡ true) × (min_version metadata_only_default ≤ ctx.pg_version))
      × ((classify add_column ctx).risk_level ≢ caution)
unfolding classify classify_base classify_add_column apply_table_size_escalation
classify-add_column ctx =
    let server = (has-min_version ctx.pg_version ctx.pg_version metadata_only_default).0 in
    ((λ h. ground (arith, server), λ h. ground (arith, server)), λ h. ground arith)
