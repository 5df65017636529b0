-- ===== src/Runs/Ledger.antt =====
-- `SQLiteRunLedger` (aegis/fund/ledger.py), method by method. The table is a dict under its
-- primary key, in the order of its rows.
use aegis_quant.Common.{
  ℕ, Bool, true, ◌&&◌, Option, none, some, List, any, ◌==◌, if◌then◌else◌, ◌≡◌, ◌↔◌, Dict, lookup,
  insert, keys, values, Call, returned, raised,
}

-- `content` stands for the fields of the record other than its run ID.
pub record CycleRecord : Type 0 where
  pub run_id : ℕ
  pub content : ℕ

-- `CycleRecord.canonical`, `CycleRecord.digest` and `CycleRecord.model_validate_json`, with the
-- type of the texts and the test of SQLite's answers for equality.
pub record Codec : Type 1 where
  pub Json : Type 0
  pub same_json : Json → Json → Bool
  pub canonical : CycleRecord → Json
  pub digest : CycleRecord → ℕ
  pub model_validate_json : Json → Option CycleRecord

-- Texts are compared exactly, and a record is read back from its text.
pub record CodecLaws (co : Codec) : Type 0 where
  pub same_json_iff : (a b : co.Json) → (co.same_json a b ≡ true) ↔ (a ≡ b)
  pub round_trip : (r : CycleRecord) → co.model_validate_json (co.canonical r) ≡ some r

-- `LedgerIntegrityError` by its message, the `KeyError` of `get`, and SQLite's exception.
pub data RunLedgerError : Type 0 where
  run_id_conflict invalid_cycle_json cycle_hash_mismatch : ℕ → RunLedgerError
  unknown_run : ℕ → RunLedgerError
  integrity_error : RunLedgerError

module _ (co : Codec) where
  pub record Cycle : Type 0 where
    pub record_hash : ℕ
    pub record_json : co.Json

  unfoldable pub cycle_of : CycleRecord → Cycle
  cycle_of r = record { record_hash = co.digest r; record_json = co.canonical r }

  -- `append` returns the digest, and leaves the table that comes with it.
  unfoldable pub append : CycleRecord → Dict Cycle → Call RunLedgerError (ℕ × Dict Cycle)
  append r cycles = elim (lookup r.run_id cycles) [
    | some x ↦
        if x.record_hash == co.digest r && co.same_json x.record_json (co.canonical r)
        then returned (co.digest r, cycles)
        else raised (run_id_conflict r.run_id)
    | none ↦
        if any (λ (x : Cycle). co.digest r == x.record_hash) (values cycles)
        then raised integrity_error
        else returned (co.digest r, insert r.run_id (cycle_of r) cycles)
  ]

  unfoldable pub get : ℕ → Dict Cycle → Call RunLedgerError CycleRecord
  get i cycles = elim (lookup i cycles) [
    | none ↦ raised (unknown_run i)
    | some x ↦ elim (co.model_validate_json x.record_json) [
      | none ↦ raised (invalid_cycle_json i)
      | some r ↦ if co.digest r == x.record_hash then returned r else raised (cycle_hash_mismatch i)
    ]
  ]

  unfoldable pub list_run_ids : Dict Cycle → List ℕ
  list_run_ids cycles = keys cycles
