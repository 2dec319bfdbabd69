-- ===== src/Query.antt =====
pub mod Urn
pub mod Scope
pub mod Mission
pub mod Converge
pub mod Diagnostic
