-- ===== src/Core/Effects.antt =====
-- crates/cordis-core/src/effect.rs beyond the journal: who drives committed work to its end.
pub mod Owner
pub mod Obligations
