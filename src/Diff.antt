-- ===== src/Diff.antt =====
-- internal/diff: the comparison of a desired and an actual schema.
pub mod Match
