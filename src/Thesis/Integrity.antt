-- ===== src/Thesis/Integrity.antt =====
-- The hash test of `ThesisLedger.history` (aegis/fundamentals/thesis.py) on any table.
use aegis_quant.Common.{
  ℕ, Option, some, List, [], ◌∷◌, ◌≡◌, inl, inr, Bool-cases, Option-cases, leb, ◌==◌, ==_iff,
  select, All, returned, >>=-returned,
}
use aegis_quant.Thesis.Records.{Moment, InvestmentThesis, Codec, Row}
use aegis_quant.Thesis.Ledger.{
  Table, rows_of, place, order_by_version, read_row, read_rows, known_by, history,
}

module _ {co : Codec} where
  -- The text of the row is a thesis with the hash of the row.
  abbrev pub IsIntact : Row co → Type 0
  IsIntact r =
      (t : InvestmentThesis) × (co.model_validate_json r.thesis_json ≡ some t)
      × (co.canonical_sha256 t ≡ r.record_hash)

  read_row-IsIntact : (r : Row co) (t : InvestmentThesis) → read_row co r ≡ returned t → IsIntact r
  unfolding read_row
  read_row-IsIntact r t e = elim (Option-cases (co.model_validate_json r.thesis_json)) [
    | inl bad ↦ absurd (cc (rw (bad, read_row) at e))
    | inr (u, good) ↦ elim (Bool-cases (co.canonical_sha256 u == r.record_hash)) [
      | inl hit ↦ (u, good, (==_iff (co.canonical_sha256 u) r.record_hash).0 hit)
      | inr miss ↦ absurd (cc (rw (good, miss, read_row) at e))
    ]
  ]

  read_rows-IsIntact :
      (rows : Table co) (ts : List InvestmentThesis)
      → read_rows co rows ≡ returned ts
      → All IsIntact rows
  unfolding read_rows
  read_rows-IsIntact [] ts e = tt
  read_rows-IsIntact (r ∷ rows) ts e =
      let (t, head, e') = >>=-returned (read_row co r) _ e in
      let (us, tail, _) = >>=-returned (read_rows co rows) _ e' in
      (read_row-IsIntact r t head, read_rows-IsIntact rows us tail)

  module _ (P : Row co → Type 0) where
    All-place : (r : Row co) (rows : Table co) → All P (place co r rows) → P r × All P rows
    unfolding place
    All-place r [] h = h
    All-place r (x ∷ rows) h = elim (Bool-cases (leb r.version x.version)) [
      | inl hit ↦ rw hit at h
      | inr miss ↦
          let h' : P x × All P (place co r rows) = rw miss at h in
          let (p, rest) = All-place r rows h'.1 in (p, (h'.0, rest))
    ]

    All-order_by_version : (rows : Table co) → All P (order_by_version co rows) → All P rows
    unfolding order_by_version
    All-order_by_version [] h = tt
    All-order_by_version (r ∷ rows) h =
        let (p, rest) = All-place r (order_by_version co rows) h in
        (p, All-order_by_version rows rest)

  -- Whatever the table holds, a history that is returned has read only rows whose stored text is
  -- a thesis with the stored hash: a row that was selected and altered raises.
  pub history-IsIntact :
      (ticker : ℕ) (as_of : Option Moment) (rows : Table co) (ts : List InvestmentThesis)
      → history co ticker as_of rows ≡ returned ts
      → All IsIntact (select (known_by co as_of) (rows_of co ticker rows))
  unfolding history
  history-IsIntact ticker as_of rows ts e =
      All-order_by_version IsIntact (select (known_by co as_of) (rows_of co ticker rows)) (
        read_rows-IsIntact
          (order_by_version co (select (known_by co as_of) (rows_of co ticker rows))) ts e)
