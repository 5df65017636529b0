-- ===== src/Runs.antt =====
-- The run ledger of aegis/fund/ledger.py.
pub mod Ledger
pub mod Laws
mod Tests
