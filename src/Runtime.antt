-- ===== src/Runtime.antt =====
-- telemetry-processor/src/packages/validation/smpp-runtime-semantics.ts: what a runtime record
-- claims about its task, and the authority that each claim needs.
-- Checks: the helpers that throw. Semantic: the result. Recovery,
-- Observation and Closure: the blocks that fill it. Inspect: their composition.
-- The parameter `date_parse` is `Date.parse`, `hash` is the record hash.
pub mod Checks
pub mod Semantic
pub mod Recovery
pub mod Observation
pub mod Closure
pub mod Inspect
pub mod Restore
pub mod Sound
