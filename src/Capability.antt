-- ===== src/Capability.antt =====
-- The capability broker of aegis/harness/capability_broker.py.
pub mod Broker
pub mod Grants
mod Tests
