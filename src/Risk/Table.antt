-- ===== src/Risk/Table.antt =====
-- The table of internal/risk/risk.go: one verdict for each schema change, before the table's size
-- is looked at. An `OpType` is a Go string; any other than the constants is `unknown_op`.
use pgdesign.Base.{ℕ, Text, bytes, Bool, true, false, ◌&&◌, if◌then◌else◌, String}
use pgdesign.Risk.Capability.{has, metadata_only_default}

pub data RiskLevel : Type 0 where
  safe caution dangerous : RiskLevel

pub data LockType : Type 0 where
  lock_none share_lock share_row_exclusive share_update_exclusive access_exclusive : LockType

pub data OpType : Type 0 where
  create_table drop_table add_column drop_column alter_column_type set_not_null drop_not_null :
      OpType
  add_fk add_fk_not_valid validate_constraint create_index create_index_concurrently drop_index :
      OpType
  drop_index_concurrently rename_table rename_column alter_enum_add_value add_unique drop_unique :
      OpType
  add_check drop_check add_exclusion drop_exclusion alter_index_set create_view drop_view : OpType
  create_or_replace_view create_materialized_view drop_materialized_view : OpType
  refresh_materialized_view create_sequence drop_sequence alter_sequence create_enum : OpType
  create_composite_type drop_composite_type create_domain drop_domain alter_domain : OpType
  create_function drop_function create_or_replace_function create_trigger drop_trigger : OpType
  create_policy drop_policy alter_policy enable_rls disable_rls force_rls no_force_rls : OpType
  create_partman_parent update_partman_retention update_partman_premake : OpType
  unknown_op : Text → OpType

unfoldable pub op_text : OpType → Text
op_text create_table = bytes "create_table"
op_text drop_table = bytes "drop_table"
op_text add_column = bytes "add_column"
op_text drop_column = bytes "drop_column"
op_text alter_column_type = bytes "alter_column_type"
op_text set_not_null = bytes "set_not_null"
op_text drop_not_null = bytes "drop_not_null"
op_text add_fk = bytes "add_fk"
op_text add_fk_not_valid = bytes "add_fk_not_valid"
op_text validate_constraint = bytes "validate_constraint"
op_text create_index = bytes "create_index"
op_text create_index_concurrently = bytes "create_index_concurrently"
op_text drop_index = bytes "drop_index"
op_text drop_index_concurrently = bytes "drop_index_concurrently"
op_text rename_table = bytes "rename_table"
op_text rename_column = bytes "rename_column"
op_text alter_enum_add_value = bytes "alter_enum_add_value"
op_text add_unique = bytes "add_unique"
op_text drop_unique = bytes "drop_unique"
op_text add_check = bytes "add_check"
op_text drop_check = bytes "drop_check"
op_text add_exclusion = bytes "add_exclusion"
op_text drop_exclusion = bytes "drop_exclusion"
op_text alter_index_set = bytes "alter_index_set"
op_text create_view = bytes "create_view"
op_text drop_view = bytes "drop_view"
op_text create_or_replace_view = bytes "create_or_replace_view"
op_text create_materialized_view = bytes "create_materialized_view"
op_text drop_materialized_view = bytes "drop_materialized_view"
op_text refresh_materialized_view = bytes "refresh_materialized_view"
op_text create_sequence = bytes "create_sequence"
op_text drop_sequence = bytes "drop_sequence"
op_text alter_sequence = bytes "alter_sequence"
op_text create_enum = bytes "create_enum"
op_text create_composite_type = bytes "create_composite_type"
op_text drop_composite_type = bytes "drop_composite_type"
op_text create_domain = bytes "create_domain"
op_text drop_domain = bytes "drop_domain"
op_text alter_domain = bytes "alter_domain"
op_text create_function = bytes "create_function"
op_text drop_function = bytes "drop_function"
op_text create_or_replace_function = bytes "create_or_replace_function"
op_text create_trigger = bytes "create_trigger"
op_text drop_trigger = bytes "drop_trigger"
op_text create_policy = bytes "create_policy"
op_text drop_policy = bytes "drop_policy"
op_text alter_policy = bytes "alter_policy"
op_text enable_rls = bytes "enable_rls"
op_text disable_rls = bytes "disable_rls"
op_text force_rls = bytes "force_rls"
op_text no_force_rls = bytes "no_force_rls"
op_text create_partman_parent = bytes "create_partman_parent"
op_text update_partman_retention = bytes "update_partman_retention"
op_text update_partman_premake = bytes "update_partman_premake"
op_text (unknown_op name) = name

-- `estimated_rows` and `pg_version` are Go integers; a negative one is tested like 0 for the rows.
pub record OpContext : Type 0 where
  pub estimated_rows : ℕ
  pub pg_version : ℕ
  pub has_default : Bool
  pub is_nullable : Bool
  pub is_widening : Bool

pub record Classification : Type 0 where
  pub risk_level : RiskLevel
  pub lock_type : LockType
  pub reversible : Bool
  pub data_loss : Bool
  pub requires_dml : Bool
  pub suggestion : Text

-- A classification from its fields, in the source's order.
abbrev pub verdict : RiskLevel → LockType → Bool → Bool → Bool → String → Classification
verdict level lock undo loss dml text = record {
  risk_level = level;
  lock_type = lock;
  reversible = undo;
  data_loss = loss;
  requires_dml = dml;
  suggestion = bytes text;
}

unfoldable pub classify_add_column : OpContext → Classification
unfolding has
classify_add_column ctx =
    if ctx.is_nullable
    then verdict safe access_exclusive true false false ""
    else if ctx.has_default && has ctx.pg_version metadata_only_default
    then verdict safe access_exclusive true false false ""
    else if ctx.has_default
    then verdict dangerous access_exclusive true false true
        "Add as nullable, backfill, then SET NOT NULL"
    else verdict dangerous access_exclusive true false false
        "Add as nullable, backfill, then SET NOT NULL"

-- The cases of the switch on types, functions, triggers, policies and partitions, and its default.
unfoldable pub classify_type_or_code : OpType → Classification
classify_type_or_code create_enum = verdict safe lock_none true false false ""
classify_type_or_code create_composite_type = verdict safe lock_none true false false ""
classify_type_or_code drop_composite_type =
    verdict dangerous access_exclusive false true false
      "Dropping a composite type with CASCADE affects all columns using this type"
classify_type_or_code create_domain = verdict safe lock_none true false false ""
classify_type_or_code drop_domain =
    verdict dangerous access_exclusive false true false
      "Dropping a domain with CASCADE affects all columns using this type"
classify_type_or_code alter_domain = verdict caution access_exclusive true false false ""
classify_type_or_code create_function = verdict safe lock_none true false false ""
classify_type_or_code drop_function =
    verdict caution lock_none false false false
      "Dependents (triggers, views, other functions) may break"
classify_type_or_code create_or_replace_function = verdict safe lock_none true false false ""
classify_type_or_code create_trigger = verdict safe share_row_exclusive true false false ""
classify_type_or_code drop_trigger = verdict caution share_row_exclusive false false false ""
classify_type_or_code create_policy = verdict safe lock_none true false false ""
classify_type_or_code drop_policy =
    verdict caution lock_none false false false
      "Dropping a policy may expose rows that were previously hidden"
classify_type_or_code alter_policy = verdict safe lock_none true false false ""
classify_type_or_code enable_rls =
    verdict caution access_exclusive true false false
      "Enabling RLS restricts access; ensure policies are in place first"
classify_type_or_code disable_rls =
    verdict caution access_exclusive true false false
      "Disabling RLS removes all row-level restrictions"
classify_type_or_code force_rls =
    verdict caution access_exclusive true false false
      "Force RLS applies policies even to table owner"
classify_type_or_code no_force_rls =
    verdict caution access_exclusive true false false
      "Removing forced RLS exempts the table owner from policies"
classify_type_or_code create_partman_parent = verdict safe lock_none true false false ""
classify_type_or_code update_partman_retention = verdict safe lock_none true false false ""
classify_type_or_code update_partman_premake = verdict safe lock_none true false false ""
classify_type_or_code _ =
    verdict dangerous access_exclusive false false false "Unknown operation type"

-- The cases on enum values, constraints, views and sequences, and those that follow.
unfoldable pub classify_constraint_or_view : OpType → Classification
unfolding classify_type_or_code
classify_constraint_or_view alter_enum_add_value = verdict safe lock_none false false false ""
classify_constraint_or_view add_unique = verdict caution share_lock true false false ""
classify_constraint_or_view drop_unique = verdict caution access_exclusive false false false ""
classify_constraint_or_view add_check = verdict caution share_row_exclusive true false false ""
classify_constraint_or_view drop_check = verdict safe access_exclusive false false false ""
classify_constraint_or_view add_exclusion =
    verdict caution share_lock true false false
      "EXCLUDE constraint may fail if existing data violates the constraint"
classify_constraint_or_view drop_exclusion = verdict safe access_exclusive false false false ""
classify_constraint_or_view alter_index_set =
    verdict safe share_update_exclusive true false false ""
classify_constraint_or_view create_view = verdict safe lock_none true false false ""
classify_constraint_or_view drop_view =
    verdict caution access_exclusive false false false
      "Dependents (other views, functions) may break"
classify_constraint_or_view create_or_replace_view =
    verdict safe access_exclusive true false false ""
classify_constraint_or_view create_materialized_view =
    verdict caution lock_none true false false
      "Initial data population may be slow on large datasets"
classify_constraint_or_view drop_materialized_view =
    verdict dangerous access_exclusive false true false "Materialized view data will be lost"
classify_constraint_or_view refresh_materialized_view =
    verdict caution access_exclusive false false false
      "REFRESH locks the materialized view; consider CONCURRENTLY"
classify_constraint_or_view create_sequence = verdict safe lock_none true false false ""
classify_constraint_or_view drop_sequence =
    verdict caution access_exclusive false false false
      "Dependents (columns using nextval) may break"
classify_constraint_or_view alter_sequence = verdict safe lock_none true false false ""
classify_constraint_or_view op = classify_type_or_code op

-- The switch, from its cases on tables, columns and indexes on.
unfoldable pub classify_base : OpType → OpContext → Classification
unfolding classify_add_column classify_constraint_or_view
classify_base create_table ctx = verdict safe lock_none true false false ""
classify_base drop_table ctx =
    verdict dangerous access_exclusive false true false
      "Consider marking as deprecated first; data will be lost"
classify_base add_column ctx = classify_add_column ctx
classify_base drop_column ctx =
    verdict dangerous access_exclusive false true false
      "Consider marking as deprecated first; data will be lost"
classify_base alter_column_type ctx =
    if ctx.is_widening
    then verdict caution access_exclusive true false false ""
    else verdict dangerous access_exclusive false true false ""
classify_base set_not_null ctx = verdict caution access_exclusive true false false ""
classify_base drop_not_null ctx = verdict safe access_exclusive true false false ""
classify_base add_fk ctx =
    verdict caution share_row_exclusive true false false
      "Add with NOT VALID, then VALIDATE CONSTRAINT separately"
classify_base add_fk_not_valid ctx = verdict safe share_row_exclusive true false false ""
classify_base validate_constraint ctx = verdict safe share_update_exclusive false false false ""
classify_base create_index ctx =
    verdict caution share_lock true false false "Use CONCURRENTLY to avoid blocking writes"
classify_base create_index_concurrently ctx =
    verdict safe share_update_exclusive true false false ""
classify_base drop_index ctx = verdict caution access_exclusive false false false ""
classify_base drop_index_concurrently ctx = verdict safe share_update_exclusive false false false ""
classify_base rename_table ctx =
    verdict caution access_exclusive true false false
      "Renaming breaks existing client queries referencing the old name"
classify_base rename_column ctx =
    verdict caution access_exclusive true false false
      "Renaming breaks existing client queries referencing the old name"
classify_base op ctx = classify_constraint_or_view op
