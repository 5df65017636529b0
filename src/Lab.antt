-- ===== src/Lab.antt =====
-- The research lab: the ledger of outcomes of aegis/research_lab/outcomes.py and the validation of
-- promotions of aegis/research_lab/promotion.py.
pub mod Outcomes
pub mod Maturity
pub mod Boundaries
pub mod Scope
pub mod Promotion
pub mod Authority
mod Tests
