-- ===== src/Pit.antt =====
-- Point-in-time data: aegis/pit_data/ledger.py and aegis/pit_data/models.py.
pub mod Records
pub mod Ledger
pub mod Causality
mod Tests
