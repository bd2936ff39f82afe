-- ===== src/Core.antt =====
-- crates/cordis-core/src: the Runtime.
pub mod Attribution
pub mod Context
pub mod Deadlines
pub mod Deps
pub mod Events
pub mod Gated
pub mod Inertia
pub mod Registry
pub mod Services
pub mod Settle
pub mod Update
pub mod Creation
pub mod Effects
