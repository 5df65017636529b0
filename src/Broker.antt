-- ===== src/Broker.antt =====
-- The simulated broker (aegis/brokers/simulated.py) and the records that it exchanges
-- (aegis/contracts/execution.py).
pub mod Records
pub mod Sim
pub mod Marks
pub mod Laws
pub mod Step
pub mod Batches
pub mod LongOnly
pub mod Pricing
pub mod Fixed
mod Tests
pub mod Short
