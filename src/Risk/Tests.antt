-- ===== src/Risk/Tests.antt =====
-- Verdicts at concrete contexts.
use pgdesign.Base.{bytes, true, false, ◌≡◌, refl}
use pgdesign.Risk.Table.{dangerous, drop_table, set_not_null, OpContext, classify_base, op_text}
use pgdesign.Risk.{classify}
use pgdesign.Risk.Laws.{classify-data_loss, with_rows}

abbrev small : OpContext
small = record {
  estimated_rows = 100;
  pg_version = 16;
  has_default = true;
  is_nullable = false;
  is_widening = false;
}

drop_text : op_text drop_table ≡ bytes "drop_table"
unfolding op_text
drop_text = refl

escalated : (classify set_not_null (with_rows 2_000_000 small)).risk_level ≡ dangerous
unfolding classify classify_base
escalated = refl

lost : (classify drop_table small).data_loss ≡ true
unfolding classify classify_base
lost = refl

classify-data_loss_example :
    ((classify drop_table small).risk_level ≡ dangerous)
    × ((classify drop_table small).reversible ≡ false)
classify-data_loss_example = classify-data_loss drop_table small lost
