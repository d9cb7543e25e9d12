-- ===== src/Fd.antt =====
-- internal/fd/fd.go: functional dependencies.
pub mod Sets
pub mod Closure
pub mod Cover
pub mod Design
mod Tests
use pgdesign.Base.{Text, List}

-- X -> Y, with where the dependency comes from.
pub record FuncDep : Type 0 where
  pub determinant : List Text
  pub dependent : List Text
  pub source : Text
