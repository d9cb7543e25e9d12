-- ===== src/Risk.antt =====
-- internal/risk/risk.go: the risk of a schema change, from the table and the size of the table.
pub mod Capability
pub mod Table
pub mod Laws
mod Tests
use pgdesign.Base.{ℕ, Text, bytes, List, [], ◌∷◌, ◌++◌, Bool, true, false, ◌&&◌, if◌then◌else◌, ltb}
use Table.{
  RiskLevel, safe, caution, dangerous, LockType, access_exclusive, OpType, OpContext,
  Classification, classify_base,
}

unfoldable pub is_caution : RiskLevel → Bool
is_caution caution = true
is_caution _ = false

unfoldable pub is_access_exclusive : LockType → Bool
is_access_exclusive access_exclusive = true
is_access_exclusive _ = false

abbrev pub big_table : Text
big_table = bytes "Table has >1M rows; AccessExclusive lock will block all access"

abbrev pub timeout : Text
timeout = bytes "Consider using SET lock_timeout to avoid long waits on a table with >10M rows"

-- A suggestion that is only set where there is none.
unfoldable pub or_else : Text → Text → Text
or_else [] t = t
or_else (x ∷ xs) t = x ∷ xs

-- The first test of applyTableSizeEscalation.
unfoldable pub escalate_lock : Classification → OpContext → Classification
unfolding is_caution is_access_exclusive
escalate_lock c ctx =
    if ltb 1_000_000 ctx.estimated_rows
      && (is_access_exclusive c.lock_type && is_caution c.risk_level)
    then record c { risk_level = dangerous; suggestion = or_else c.suggestion big_table }
    else c

unfoldable pub add_timeout : Text → Text
add_timeout [] = timeout
add_timeout (x ∷ xs) = (x ∷ xs) ++ (bytes "; " ++ timeout)

unfoldable pub suggest_timeout : Classification → OpContext → Classification
suggest_timeout c ctx =
    if ltb 10_000_000 ctx.estimated_rows
    then record c { suggestion = add_timeout c.suggestion }
    else c

unfoldable pub apply_table_size_escalation : Classification → OpContext → Classification
unfolding escalate_lock suggest_timeout
apply_table_size_escalation c ctx = suggest_timeout (escalate_lock c ctx) ctx

unfoldable pub classify : OpType → OpContext → Classification
unfolding apply_table_size_escalation
classify op ctx = apply_table_size_escalation (classify_base op ctx) ctx
