-- ===== src/Tests.antt =====
-- Runs at concrete inputs: each theorem with hypotheses is applied where they hold.
mod Times
mod Objects
mod Wires
mod States
mod Providers
mod Leases
mod Logs
mod Segments
mod Readers
mod Records
