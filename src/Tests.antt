-- ===== src/Tests.antt =====
-- The properties at concrete inputs: a plan with a group, a disabled plugin and its child, and a
-- plugin that isolates two services; a view, its realms and layers; and the listeners of an Event.
pub mod Loader
pub mod Core
pub mod Fiber
pub mod Services
pub mod Dispatch
pub mod Lifecycle
pub mod Timer
