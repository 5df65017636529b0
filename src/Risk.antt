-- ===== src/Risk.antt =====
-- The hard risk gate (aegis/risk/checks.py) over its policy (aegis/contracts/risk.py).
pub mod Policy
pub mod Clamps
pub mod Checks
pub mod Evaluate
pub mod Exposure
pub mod Envelope
pub mod Guarantees
pub mod LongOnly
pub mod Bounds
pub mod Approval
pub mod FailClosed
mod Tests
