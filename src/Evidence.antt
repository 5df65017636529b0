-- ===== src/Evidence.antt =====
-- Evidence: the contracts of aegis/contracts/evidence.py and aegis/contracts/claims.py, and the
-- audit and the ledger of aegis/evidence.
pub mod Calculations
pub mod Records
pub mod Claims
pub mod Audit
pub mod Traces
pub mod Approval
pub mod Ledger
pub mod Custody
pub mod Tests
