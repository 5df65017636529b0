-- ===== src/Budgets.antt =====
-- The budgets of aegis/harness/budgets.py.
pub mod Charges
pub mod Within
mod Tests
