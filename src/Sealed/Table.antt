-- ===== src/Sealed/Table.antt =====
-- A table of sealed records and the two queries of it: `OutcomeLedger._append`
-- (aegis/research_lab/outcomes.py), and the loop that reads all rows in the order of their IDs.
use aegis_quant.Common.{
  ℕ, Bool, true, ◌&&◌, Option, none, some, List, [], ◌∷◌, ◌==◌, if◌then◌else◌, ◌≡◌, ◌↔◌, Dict,
  lookup, insert, Call, returned, raised, ◌>>=◌,
}
use aegis_quant.Common.Sort.{sort_items}

-- `canonical_json`, `canonical_sha256` and `model_validate_json` of a kind of record, with the
-- type of the texts and the test of SQLite's answers for equality.
pub record Codec (R : Type 0) : Type 1 where
  pub Json : Type 0
  pub same_json : Json → Json → Bool
  pub canonical_json : R → Json
  pub canonical_sha256 : R → ℕ
  pub model_validate_json : Json → Option R

-- Texts are compared exactly, and a record is read back from its text.
pub record CodecLaws {R : Type 0} (co : Codec R) : Type 0 where
  pub same_json_iff : (a b : co.Json) → (co.same_json a b ≡ true) ↔ (a ≡ b)
  pub round_trip : (r : R) → co.model_validate_json (co.canonical_json r) ≡ some r

-- The ledgers' own errors, pydantic's, and the `KeyError` of a missing ID.
pub data SealedError : Type 0 where
  identity_conflict : ℕ → SealedError
  tampering_detected invalid_json : SealedError
  unknown_id : ℕ → SealedError

module _ {R : Type 0} (co : Codec R) where
  pub record Row : Type 0 where
    pub payload : co.Json
    pub record_hash : ℕ

  unfoldable pub row_of : R → Row
  row_of r = record { payload = co.canonical_json r; record_hash = co.canonical_sha256 r }

  -- `row == (payload, digest)`
  unfoldable pub same_row : Row → R → Bool
  same_row x r =
      co.same_json x.payload (co.canonical_json r) && x.record_hash == co.canonical_sha256 r

  unfoldable pub keep : ℕ → R → Dict Row → Call SealedError (Dict Row)
  keep key r table = elim (lookup key table) [
    | none ↦ returned (insert key (row_of r) table)
    | some x ↦ if same_row x r then returned table else raised (identity_conflict key)
  ]

  -- One row, read and checked.
  unfoldable pub read_row : Row → Call SealedError R
  read_row x = elim (co.model_validate_json x.payload) [
    | none ↦ raised invalid_json
    | some r ↦
        if co.canonical_sha256 r == x.record_hash then returned r else raised tampering_detected
  ]

  unfoldable pub read_rows : Dict Row → Call SealedError (List R)
  read_rows [] = returned []
  read_rows (x ∷ rows) = do r ← read_row x.1; rest ← read_rows rows; returned (r ∷ rest)

  -- `SELECT ... ORDER BY id`, and the loop over its rows
  unfoldable pub read_all : Dict Row → Call SealedError (List R)
  read_all table = read_rows (sort_items table)

  -- `SELECT ... WHERE id = ?`, and the check of the row
  unfoldable pub read_one : ℕ → Dict Row → Call SealedError R
  read_one key table = elim (lookup key table) [
    | none ↦ raised (unknown_id key)
    | some x ↦ read_row x
  ]
