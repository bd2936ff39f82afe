-- ===== src/Loader.antt =====
-- crates/cordis-loader/src: the Loader, which builds a plan of declarations and executes it.
pub mod Plan
pub mod Order
pub mod Resolver
pub mod Load
