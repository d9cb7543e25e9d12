-- ===== src/Risk/Capability.antt =====
-- internal/pgcap/pgcap.go: which server version brought which capability.
use pgdesign.Base.{ℕ, ◌≤◌, Bool, true, false, ◌==◌, leb, if◌then◌else◌, ◌≡◌, arith, ◌↔◌}

pub data Capability : Type 0 where
  identity_columns restrictive_rls sequence_if_not_exists metadata_only_default : Capability
  att_generated_column transactional_enum_add drop_db_force : Capability
  create_or_replace_trigger create_or_replace_policy virtual_generated_cols : Capability

-- The registry's MinVersion column, which MinVersion reads.
unfoldable pub min_version : Capability → ℕ
min_version identity_columns = 10
min_version restrictive_rls = 10
min_version sequence_if_not_exists = 10
min_version metadata_only_default = 11
min_version att_generated_column = 12
min_version transactional_enum_add = 12
min_version drop_db_force = 13
min_version create_or_replace_trigger = 14
min_version create_or_replace_policy = 15
min_version virtual_generated_cols = 18

-- Has; version 0 is unknown.
unfoldable pub has : ℕ → Capability → Bool
unfolding min_version
has pg_version cap = if pg_version == 0 then false else leb (min_version cap) pg_version

min_version_pos : (c : Capability) → 1 ≤ min_version c
unfolding min_version
min_version_pos identity_columns = omega arith
min_version_pos _ = omega arith

-- A server has a capability exactly when its version is at least the one that brought it, so the
-- test for an unknown version excludes nothing else; a later server keeps it.
pub has-min_version :
    (v w : ℕ) (c : Capability)
    → ((has v c ≡ true) ↔ (min_version c ≤ v)) × (v ≤ w → has v c ≡ true → has w c ≡ true)
unfolding has
has-min_version v w c =
    let pos = min_version_pos c in ((λ h. ground arith, λ h. ground arith), λ l h. ground arith)
