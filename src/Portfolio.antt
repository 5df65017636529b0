-- ===== src/Portfolio.antt =====
-- Portfolio construction: aegis/quant/portfolio.py.
pub mod Build
pub mod Eligible
mod Tests
