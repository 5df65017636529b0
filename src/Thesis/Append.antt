-- ===== src/Thesis/Append.antt =====
-- `ThesisLedger.append` (aegis/fundamentals/thesis.py) accepts exactly the next version.
use aegis_quant.Common.{
  false, none, some, ◌∷◌, ◌≡◌, ◌↔◌, ◌≢◌, refl, subst, ◌⊎◌, inl, inr, Bool-cases, Option-cases, ◌==◌,
  any, returned, ◌>>=◌, >>=-returned, arith, ◌&&◌,
}
use aegis_quant.Thesis.Records.{archived, InvestmentThesis, Codec, CodecLaws}
use aegis_quant.Thesis.Ledger.{
  allowed_transition, Table, row_with_id, rows_of, highest, row_of, check_next, collides,
  insert_row, append,
}
use aegis_quant.Thesis.Chain.{
  Follows, same_id-none, check_update_iff, newest, IsLedger, newest-row, versions_below, free,
}

module _ {co : Codec} (laws : CodecLaws co) where
  -- The guards of a new version.
  check_next_iff :
      (t : InvestmentThesis) (rows : Table co)
      → IsLedger rows
      → (check_next co t (highest co (rows_of co t.ticker rows)) ≡ returned tt)
        ↔ Follows t (newest t.ticker rows)
  unfolding check_next row_of
  check_next_iff t rows h = elim (Option-cases (highest co (rows_of co t.ticker rows))) [
    | inl e ↦ rw e (ground (arith, same_id-none t.supersedes_thesis_id))
    | inr (x, e) ↦
        let (p, same, latest) = newest-row laws t.ticker rows x h e in
        let read : co.model_validate_json x.thesis_json ≡ some p = rw same (laws.round_trip p) in
        rw (e, read, check_next) (check_update_iff t p)
  ]

  accepted :
      (t : InvestmentThesis) (rows : Table co)
      → IsLedger rows
      → row_with_id co t.thesis_id rows ≡ none
      → Follows t (newest t.ticker rows)
      → append co t rows ≡ returned (row_of co t ∷ rows)
  unfolding append insert_row row_of
  accepted t rows h new f =
      let checked = (check_next_iff t rows h).1 f in
      let room : any (collides co (row_of co t)) rows ≡ false =
        free laws (row_of co t) rows new (versions_below laws t t.ticker rows h f) in
      rw (new, append) (rw (checked, room, insert_row) refl)

  -- A new thesis that was appended followed the latest version, and its row was added.
  inserted :
      (t : InvestmentThesis) (rows rows' : Table co)
      → IsLedger rows
      → row_with_id co t.thesis_id rows ≡ none
      → append co t rows ≡ returned rows'
      → Follows t (newest t.ticker rows)
  unfolding append
  inserted t rows rows' h new e =
      let e' : (check_next co t (highest co (rows_of co t.ticker rows)) >>= λ _.
      insert_row co (row_of co t) rows)
          ≡ returned rows' =
        rw (new, append) at e in
      let (u, checked, _) =
        >>=-returned (check_next co t (highest co (rows_of co t.ticker rows))) _ e' in
      (check_next_iff t rows h).0 checked

  pub followed :
      (t : InvestmentThesis) (rows rows' : Table co)
      → IsLedger rows
      → row_with_id co t.thesis_id rows ≡ none
      → append co t rows ≡ returned rows'
      → Follows t (newest t.ticker rows) × ((row_of co t ∷ rows) ≡ rows')
  followed t rows rows' h new e =
      let f = inserted t rows rows' h new e in
      let done = accepted t rows h new f in (f, cc (done, e))

  -- On a ledger, a thesis with a new ID is appended exactly if it follows the latest version of
  -- its ticker: version 1 that supersedes nothing where there is none, and otherwise the next
  -- number, superseding the latest ID, at a later instant, with an allowed status. No exception
  -- of the table's constraints and none of reading the latest row can come before that.
  pub append_iff :
      (t : InvestmentThesis) (rows : Table co)
      → IsLedger rows
      → row_with_id co t.thesis_id rows ≡ none
      → (append co t rows ≡ returned (row_of co t ∷ rows)) ↔ Follows t (newest t.ticker rows)
  append_iff t rows h new = (inserted t rows (row_of co t ∷ rows) h new, accepted t rows h new)

  -- What `append` returns is the table it had, or that with the new row.
  pub appended :
      (t : InvestmentThesis) (rows rows' : Table co)
      → IsLedger rows
      → append co t rows ≡ returned rows'
      → (rows ≡ rows')
        ⊎ ((row_with_id co t.thesis_id rows ≡ none)
            × Follows t (newest t.ticker rows)
            × ((row_of co t ∷ rows) ≡ rows'))
  unfolding append
  appended t rows rows' h e = elim (Option-cases (row_with_id co t.thesis_id rows)) [
    | inl new ↦
        let f = inserted t rows rows' h new e in
        let done = accepted t rows h new f in inr (new, f, cc (done, e))
    | inr (r, known) ↦
        elim (Bool-cases (
          co.same_json r.thesis_json (co.canonical_json t)
          && r.record_hash == co.canonical_sha256 t)) [
            | inl hit ↦ inl (cc (rw (known, hit, append) at e))
            | inr miss ↦ absurd (cc (rw (known, miss, append) at e))
          ]
  ]

  -- An append that returns keeps the table a ledger: for each ticker a chain of versions, each
  -- with a new ID and following the one before it.
  pub append-IsLedger :
      (t : InvestmentThesis) (rows rows' : Table co)
      → IsLedger rows
      → append co t rows ≡ returned rows'
      → IsLedger rows'
  append-IsLedger t rows rows' h e = elim (appended t rows rows' h e) [
    | inl same ↦ subst IsLedger same h
    | inr (new, f, same) ↦ subst IsLedger same ((t, refl, new, f), h)
  ]

  -- Once the latest version of a ticker is archived, no new thesis of that ticker is appended.
  pub archived_is_final :
      (t p : InvestmentThesis) (rows rows' : Table co)
      → IsLedger rows
      → row_with_id co t.thesis_id rows ≡ none
      → newest t.ticker rows ≡ some p
      → p.status ≡ archived
      → append co t rows ≢ returned rows'
  unfolding allowed_transition
  archived_is_final t p rows rows' h new latest closed e =
      let next : Follows t (some p) =
        subst (λ o. Follows t o) latest (inserted t rows rows' h new e) in
      cc (rw closed at next.3)
