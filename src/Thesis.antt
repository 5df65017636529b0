-- ===== src/Thesis.antt =====
-- The thesis ledger of aegis/fundamentals/thesis.py: the rows of its table, its methods, and
-- the chain of versions that it keeps for each ticker.
pub mod Records
pub mod Ledger
pub mod Rows
pub mod Chain
pub mod Append
pub mod History
pub mod Integrity
mod Tests
