-- ===== src/Experiments.antt =====
-- The experiment ledger of aegis/research_lab/experiments.py: records and the chain of
-- commitments that seals them.
pub mod Records
pub mod Ledger
pub mod Chain
pub mod Append
pub mod Seal
mod Tests
