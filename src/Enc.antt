-- ===== src/Enc.antt =====
-- internal/enc: the kind-qualified keys of a revision manifest. The encoders of the model's objects
-- are not modelled.
pub mod Key
