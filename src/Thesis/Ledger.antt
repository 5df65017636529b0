-- ===== src/Thesis/Ledger.antt =====
-- `ThesisLedger` (aegis/fundamentals/thesis.py), method by method. The table is the list of its
-- rows, the last one inserted first.
use aegis_quant.Common.{
  ℕ, ◌+◌, Bool, true, false, not, ◌&&◌, ◌||◌, Option, none, some, List, [], ◌∷◌, ltb, leb, ◌==◌,
  if◌then◌else◌, any, select, Call, returned, raised, ◌>>=◌,
}
use aegis_quant.Thesis.Records.{
  Status, draft, active, strengthened, weakened, invalidated, resolved, archived, Moment,
  InvestmentThesis, Codec, Row, ThesisLedgerError, identity_conflict, not_version_one,
  not_next_version, not_superseding, not_advancing, illegal_transition, tampering_detected,
  invalid_json, integrity_error,
}

-- The statuses that may follow an open thesis.
unfoldable pub follows_open : Status → Bool
follows_open draft = false
follows_open _ = true

-- `_ALLOWED_STATUS_TRANSITIONS`: the second status is in the set of the first.
unfoldable pub allowed_transition : Status → Status → Bool
unfolding follows_open
allowed_transition draft draft = true
allowed_transition draft active = true
allowed_transition draft archived = true
allowed_transition draft _ = false
allowed_transition active s = follows_open s
allowed_transition strengthened s = follows_open s
allowed_transition weakened s = follows_open s
allowed_transition invalidated archived = true
allowed_transition invalidated _ = false
allowed_transition resolved archived = true
allowed_transition resolved _ = false
allowed_transition archived _ = false

-- `a == b` of two IDs that may be None
unfoldable pub same_id : Option ℕ → Option ℕ → Bool
same_id none none = true
same_id (some a) (some b) = a == b
same_id _ _ = false

-- The checks against the latest version.
unfoldable pub check_update :
    InvestmentThesis → InvestmentThesis → Call ThesisLedgerError (Unit {0})
check_update t latest =
    if not (t.version == latest.version + 1)
    then raised not_next_version
    else if not (same_id t.supersedes_thesis_id (some latest.thesis_id))
    then raised not_superseding
    else if leb t.as_of.instant latest.as_of.instant
    then raised not_advancing
    else if not (allowed_transition latest.status t.status)
    then raised illegal_transition
    else returned tt

-- `values[-1] if values else None`
unfoldable pub last : List InvestmentThesis → Option InvestmentThesis
last [] = none
last (t ∷ []) = some t
last (_ ∷ t ∷ ts) = last (t ∷ ts)

module _ (co : Codec) where
  abbrev pub Table : Type 0
  Table = List (Row co)

  -- `... WHERE thesis_id = ?`, fetchone
  unfoldable pub row_with_id : ℕ → Table → Option (Row co)
  row_with_id i [] = none
  row_with_id i (r ∷ rows) = if i == r.thesis_id then some r else row_with_id i rows

  -- `... WHERE ticker = ?`
  unfoldable pub rows_of : ℕ → Table → Table
  rows_of ticker rows = select (λ r. ticker == r.ticker) rows

  -- `ORDER BY version DESC LIMIT 1`
  unfoldable pub highest : Table → Option (Row co)
  highest [] = none
  highest (r ∷ rows) = elim (highest rows) [
    | none ↦ some r
    | some h ↦ if ltb h.version r.version then some r else some h
  ]

  -- The row that `append` inserts.
  unfoldable pub row_of : InvestmentThesis → Row co
  row_of t = record {
    thesis_id = t.thesis_id;
    ticker = t.ticker;
    version = t.version;
    as_of = t.as_of.isoformat;
    thesis_json = co.canonical_json t;
    record_hash = co.canonical_sha256 t;
  }

  -- The guards of `append` for an ID that is new, given the row of the latest version.
  unfoldable pub check_next : InvestmentThesis → Option (Row co) → Call ThesisLedgerError (Unit {0})
  check_next t none =
      if t.version == 1 && same_id t.supersedes_thesis_id none
      then returned tt
      else raised not_version_one
  check_next t (some r) = elim (co.model_validate_json r.thesis_json) [
    | none ↦ raised invalid_json
    | some latest ↦ check_update t latest
  ]

  -- The table's PRIMARY KEY and UNIQUE(ticker, version).
  unfoldable pub collides : Row co → Row co → Bool
  collides r x = r.thesis_id == x.thesis_id || r.ticker == x.ticker && r.version == x.version

  -- `INSERT INTO thesis_versions`
  unfoldable pub insert_row : Row co → Table → Call ThesisLedgerError Table
  insert_row r rows = if any (collides r) rows then raised integrity_error else returned (r ∷ rows)

  unfoldable pub append : InvestmentThesis → Table → Call ThesisLedgerError Table
  append t rows = elim (row_with_id t.thesis_id rows) [
    | none ↦ check_next t (highest (rows_of t.ticker rows)) >>= λ _. insert_row (row_of t) rows
    | some r ↦
        if co.same_json r.thesis_json (co.canonical_json t)
          && r.record_hash == co.canonical_sha256 t
        then returned rows
        else raised identity_conflict
  ]

  -- `ORDER BY version`
  unfoldable pub place : Row co → Table → Table
  place r [] = r ∷ []
  place r (x ∷ rows) = if leb r.version x.version then r ∷ x ∷ rows else x ∷ place r rows

  unfoldable pub order_by_version : Table → Table
  order_by_version [] = []
  order_by_version (r ∷ rows) = place r (order_by_version rows)

  -- One row of the loop of `history`.
  unfoldable pub read_row : Row co → Call ThesisLedgerError InvestmentThesis
  read_row r = elim (co.model_validate_json r.thesis_json) [
    | none ↦ raised invalid_json
    | some t ↦
        if co.canonical_sha256 t == r.record_hash then returned t else raised tampering_detected
  ]

  unfoldable pub read_rows : Table → Call ThesisLedgerError (List InvestmentThesis)
  read_rows [] = returned []
  read_rows (r ∷ rows) = do t ← read_row r; rest ← read_rows rows; returned (t ∷ rest)

  -- `AND as_of <= ?`, a comparison of texts
  unfoldable pub known_by : Option Moment → Row co → Bool
  known_by none r = true
  known_by (some m) r = leb r.as_of m.isoformat

  unfoldable pub history :
      ℕ → Option Moment → Table → Call ThesisLedgerError (List InvestmentThesis)
  history ticker as_of rows =
      read_rows (order_by_version (select (known_by as_of) (rows_of ticker rows)))

  unfoldable pub latest :
      ℕ → Option Moment → Table → Call ThesisLedgerError (Option InvestmentThesis)
  latest ticker as_of rows = do ts ← history ticker as_of rows; returned (last ts)
