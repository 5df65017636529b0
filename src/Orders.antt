-- ===== src/Orders.antt =====
-- From target weights to orders (aegis/fund/execution.py).
pub mod Build
pub mod Targets
mod Tests
