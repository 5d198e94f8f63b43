-- ===== src/Uir.antt =====
-- internal/uir: the Unified Intermediate Representation, its types, graph and conversion records.
pub mod Types
pub mod Presence
pub mod TypeExpr
pub mod Node
pub mod Coerce
pub mod Project
pub mod Schema
pub mod Plan
