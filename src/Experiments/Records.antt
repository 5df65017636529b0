-- ===== src/Experiments/Records.antt =====
-- `ExperimentRecord` as the ledger sees it, and the two tables of
-- aegis/research_lab/experiments.py.
use aegis_quant.Common.{ℕ, Bool, true, Option, some, List, ◌≡◌, ◌↔◌, Dict}

-- `content` stands for the fields that the ledger stores and does not look at.
pub record ExperimentRecord : Type 0 where
  pub experiment_id : ℕ
  pub content : ℕ

-- `canonical_json`, `canonical_sha256`, `ExperimentRecord.model_validate_json` and
-- `_commitment_hash`, whose hash of a dict is a parameter, with the type of the texts and the
-- test of SQLite's answers for equality; `genesis` is `_GENESIS`.
pub record Codec : Type 1 where
  pub Json : Type 0
  pub same_json : Json → Json → Bool
  pub canonical_json : ExperimentRecord → Json
  pub canonical_sha256 : ExperimentRecord → ℕ
  pub model_validate_json : Json → Option ExperimentRecord
  pub commitment_hash : ℕ → ℕ → ℕ → ℕ → ℕ
  pub genesis : ℕ

-- Texts are compared exactly, and a record is read back from its text.
pub record CodecLaws (co : Codec) : Type 0 where
  pub same_json_iff : (a b : co.Json) → (co.same_json a b ≡ true) ↔ (a ≡ b)
  pub round_trip : (r : ExperimentRecord) → co.model_validate_json (co.canonical_json r) ≡ some r

-- A row of `experiment_commitments`.
pub record Commitment : Type 0 where
  pub sequence : ℕ
  pub experiment_id : ℕ
  pub record_hash : ℕ
  pub previous_commitment_hash : ℕ
  pub commitment_hash : ℕ

module _ (co : Codec) where
  -- A row of `experiments` under its primary key.
  pub record StoredRecord : Type 0 where
    pub record_json : co.Json
    pub record_hash : ℕ

  -- The commitments stand in the order of their primary key, the sequence.
  pub record Store : Type 0 where
    pub experiments : Dict StoredRecord
    pub commitments : List Commitment

-- The messages of `ExperimentIntegrityError`, the `KeyError` of `get`, and the exceptions of
-- pydantic and of SQLite.
pub data LedgerError : Type 0 where
  sequence_mismatch hash_mismatch missing_or_replaced not_reconciled : LedgerError
  different_content integrity_failure : LedgerError
  key_error : ℕ → LedgerError
  invalid_json integrity_error : LedgerError
