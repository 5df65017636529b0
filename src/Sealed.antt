-- ===== src/Sealed.antt =====
-- The tables of sealed records that aegis/memory/relations.py, aegis/research_lab/outcomes.py and
-- aegis/evidence/ledger.py keep in SQLite: a record under its ID, as text with the text's hash.
pub mod Table
pub mod Laws
pub mod Views
pub mod Reads
pub mod Plain
