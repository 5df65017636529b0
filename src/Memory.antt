-- ===== src/Memory.antt =====
-- Governed memory: the relation store of aegis/memory/relations.py and the backend of
-- aegis/memory/local_backend.py.
pub mod Relations
pub mod Records
pub mod Backend
pub mod Governance
pub mod Versions
pub mod Retrieval
pub mod Answers
pub mod Eligible
pub mod Ranking
mod Tests
