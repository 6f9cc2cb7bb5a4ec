-- ===== src/Execution.antt =====
-- Order execution: ver9/execution, without its simulator.
pub mod Order
pub mod Fills
pub mod Retry
pub mod Engine
pub mod Simulator
pub mod Paper
mod Tests
