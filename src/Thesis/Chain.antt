-- ===== src/Thesis/Chain.antt =====
-- The chain of versions that `ThesisLedger.append` (aegis/fundamentals/thesis.py) keeps.
use aegis_quant.Common.{
  ℕ, ◌+◌, ◌<◌, true, false, Option, none, some, [], ◌∷◌, ◌≡◌, ◌↔◌, refl, subst, ap, inl, inr,
  Bool-cases, Option-cases, ◌==◌, any, All, returned, arith,
}
use aegis_quant.Thesis.Records.{InvestmentThesis, Codec, CodecLaws, Row}
use aegis_quant.Thesis.Ledger.{
  allowed_transition, same_id, check_update, Table, row_with_id, rows_of, highest, row_of, collides,
}
use aegis_quant.Thesis.Rows.{select-All, highest-none, highest-All, highest-bound, All-lt_of_le}

-- What a version has to satisfy after the latest one, or after none.
abbrev pub Follows : InvestmentThesis → Option InvestmentThesis → Type 0
Follows t none = (t.version ≡ 1) × (t.supersedes_thesis_id ≡ none)
Follows t (some p) =
    (t.version ≡ p.version + 1)
    × (t.supersedes_thesis_id ≡ some p.thesis_id)
    × (p.as_of.instant < t.as_of.instant)
    × (allowed_transition p.status t.status ≡ true)

same_id-some : (o : Option ℕ) (i : ℕ) → (same_id o (some i) ≡ true) ↔ (o ≡ some i)
unfolding same_id
same_id-some none i = ground arith
same_id-some (some j) i = ground arith

pub same_id-none : (o : Option ℕ) → (same_id o none ≡ true) ↔ (o ≡ none)
unfolding same_id
same_id-none none = ground arith
same_id-none (some j) = ground arith

pub check_update_iff :
    (t p : InvestmentThesis) → (check_update t p ≡ returned tt) ↔ Follows t (some p)
unfolding check_update
check_update_iff t p = ground (arith, same_id-some t.supersedes_thesis_id p.thesis_id)

module _ {co : Codec} where
  -- The latest version of a ticker, read from its row.
  abbrev pub decoded : Option (Row co) → Option InvestmentThesis
  decoded none = none
  decoded (some r) = co.model_validate_json r.thesis_json

  abbrev pub newest : ℕ → Table co → Option InvestmentThesis
  newest ticker rows = decoded (highest co (rows_of co ticker rows))

  -- Each row is that of a thesis which was new and followed the latest version of its ticker.
  abbrev pub IsLedger : Table co → Type 0
  IsLedger [] = Unit
  IsLedger (r ∷ rows) =
      ((t : InvestmentThesis) × (r ≡ row_of co t)
        × (row_with_id co t.thesis_id rows ≡ none)
        × Follows t (newest t.ticker rows))
      × IsLedger rows

  -- The row of some thesis.
  abbrev pub IsRow : Row co → Type 0
  IsRow r = (t : InvestmentThesis) × (r ≡ row_of co t)

  pub IsLedger-rows : (rows : Table co) → IsLedger rows → All IsRow rows
  IsLedger-rows [] h = tt
  IsLedger-rows (r ∷ rows) ((t, e, _, _), h) = ((t, e), IsLedger-rows rows h)

module _ {co : Codec} (laws : CodecLaws co) where
  -- The row of the latest version is that of the thesis read from it.
  pub newest-row :
      (ticker : ℕ) (rows : Table co) (x : Row co)
      → IsLedger rows
      → highest co (rows_of co ticker rows) ≡ some x
      → (p : InvestmentThesis) × (x ≡ row_of co p) × (newest ticker rows ≡ some p)
  unfolding rows_of row_of
  newest-row ticker rows x h e =
      let (p, same) =
        highest-All IsRow (rows_of co ticker rows) x
          (select-All IsRow (λ r. ticker == r.ticker) rows (IsLedger-rows rows h)) e in
      (p, same, rw (e, same) (laws.round_trip p))

  -- The next version of a ticker is above all its rows.
  pub versions_below :
      (t : InvestmentThesis) (ticker : ℕ) (rows : Table co)
      → IsLedger rows
      → Follows t (newest ticker rows)
      → All (λ r. r.version < t.version) (rows_of co ticker rows)
  unfolding row_of
  versions_below t ticker rows h f = elim (Option-cases (highest co (rows_of co ticker rows))) [
    | inl e ↦ rw (highest-none (rows_of co ticker rows) e) tt
    | inr (x, e) ↦
        let (p, same, latest) = newest-row ticker rows x h e in
        let next : Follows t (some p) = subst (λ o. Follows t o) latest f in
        let version : x.version ≡ p.version = ap (λ (r : Row co). r.version) same in
        All-lt_of_le x.version t.version (rows_of co ticker rows) (omega (arith, next.0, version))
          (highest-bound (rows_of co ticker rows) x e)
  ]

  pub free :
      (r : Row co) (rows : Table co)
      → row_with_id co r.thesis_id rows ≡ none
      → All (λ x. x.version < r.version) (rows_of co r.ticker rows)
      → any (collides co r) rows ≡ false
  unfolding row_with_id rows_of collides
  free r [] e h = refl
  free r (x ∷ rows) e h = elim (Bool-cases (r.ticker == x.ticker)) [
    | inl hit ↦
        let h' : All (λ x. x.version < r.version) (x ∷ rows_of co r.ticker rows) = rw hit at h in
        ground (arith, free r rows, h'.0, h'.1)
    | inr miss ↦
        let h' : All (λ x. x.version < r.version) (rows_of co r.ticker rows) = rw miss at h in
        ground (arith, free r rows, h')
  ]
