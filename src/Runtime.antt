-- ===== src/Runtime.antt =====
-- The live runtime: ver9/runtime.
pub mod Session
pub mod Reconciliation
pub mod Recovery
pub mod Market
pub mod Events
pub mod Supervision
pub mod Exchanges
pub mod Orchestrator
