-- ===== src/Thesis/Records.antt =====
-- `InvestmentThesis` (aegis/contracts/fundamentals.py) and the table `thesis_versions`.
use aegis_quant.Common.{ℕ, Bool, true, Option, ◌≡◌, ◌↔◌, some}

pub data Status : Type 0 where
  draft active strengthened weakened invalidated resolved archived : Status

-- A time with its zone: the instant it names, and its isoformat text as a number in text order.
pub record Moment : Type 0 where
  pub instant : ℕ
  pub isoformat : ℕ

-- `content` stands for the claims, catalysts, risks and the other fields that the ledger stores
-- and does not look at.
pub record InvestmentThesis : Type 0 where
  pub thesis_id : ℕ
  pub ticker : ℕ
  pub version : ℕ
  pub as_of : Moment
  pub supersedes_thesis_id : Option ℕ
  pub status : Status
  pub content : ℕ

-- `canonical_json`, `canonical_sha256` and `InvestmentThesis.model_validate_json`, with the type
-- of the texts and the test of SQLite's answers for equality.
pub record Codec : Type 1 where
  pub Json : Type 0
  pub same_json : Json → Json → Bool
  pub canonical_json : InvestmentThesis → Json
  pub canonical_sha256 : InvestmentThesis → ℕ
  pub model_validate_json : Json → Option InvestmentThesis

-- What the ledger relies on: texts are compared exactly, and a thesis is read back from its text.
pub record CodecLaws (co : Codec) : Type 0 where
  pub same_json_iff : (a b : co.Json) → (co.same_json a b ≡ true) ↔ (a ≡ b)
  pub round_trip : (t : InvestmentThesis) → co.model_validate_json (co.canonical_json t) ≡ some t

module _ (co : Codec) where
  pub record Row : Type 0 where
    pub thesis_id : ℕ
    pub ticker : ℕ
    pub version : ℕ
    pub as_of : ℕ
    pub thesis_json : co.Json
    pub record_hash : ℕ

pub data ThesisLedgerError : Type 0 where
  identity_conflict not_version_one not_next_version not_superseding : ThesisLedgerError
  not_advancing illegal_transition tampering_detected : ThesisLedgerError
  -- the exceptions of pydantic and of SQLite
  invalid_json integrity_error : ThesisLedgerError
