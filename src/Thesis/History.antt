-- ===== src/Thesis/History.antt =====
-- `ThesisLedger.history` and `latest` (aegis/fundamentals/thesis.py) read the chain back.
use aegis_quant.Common.{
  ℕ, ◌<◌, true, false, Option, none, some, List, [], ◌∷◌, ◌++◌, ◌≡◌, refl, subst, sym, ap, ◌∙◌, inl,
  inr, Bool-cases, ◌==◌, ==_iff, ==_refl, select, if◌then◌else◌, returned,
}
use aegis_quant.Thesis.Records.{InvestmentThesis, Codec, CodecLaws, Row}
use aegis_quant.Thesis.Ledger.{
  last, Table, rows_of, row_with_id, highest, row_of, append, order_by_version, read_row, read_rows,
  known_by, history, latest,
}
use aegis_quant.Thesis.Rows.{
  highest-above, place-above, order_by_version-All, read_rows-snoc, last-snoc,
}
use aegis_quant.Thesis.Chain.{Follows, newest, IsLedger, versions_below}
use aegis_quant.Thesis.Append.{followed}

-- Each thesis of the list follows the one before it, the first one `previous`.
abbrev pub IsChain : Option InvestmentThesis → List InvestmentThesis → Type 0
IsChain previous [] = Unit
IsChain previous (t ∷ ts) = Follows t previous × IsChain (some t) ts

abbrev end_of : Option InvestmentThesis → List InvestmentThesis → Option InvestmentThesis
end_of previous [] = previous
end_of previous (t ∷ ts) = end_of (some t) ts

last-end_of :
    (t : InvestmentThesis) (ts : List InvestmentThesis) → last (t ∷ ts) ≡ end_of (some t) ts
unfolding last
last-end_of t [] = refl
last-end_of t (a ∷ ts) = last-end_of a ts

last_is_end : (ts : List InvestmentThesis) → last ts ≡ end_of none ts
unfolding last
last_is_end [] = refl
last_is_end (t ∷ ts) = last-end_of t ts

IsChain-snoc :
    (previous : Option InvestmentThesis) (ts : List InvestmentThesis) (t : InvestmentThesis)
    → IsChain previous ts
    → Follows t (end_of previous ts)
    → IsChain previous (ts ++ (t ∷ []))
IsChain-snoc previous [] t h f = (f, tt)
IsChain-snoc previous (a ∷ ts) t h f = (h.0, IsChain-snoc (some a) ts t h.1 f)

module _ {co : Codec} where
  select-known_by : (rows : Table co) → select (known_by co none) rows ≡ rows
  unfolding known_by
  select-known_by [] = refl
  select-known_by (r ∷ rows) = ap (λ rest. r ∷ rest) (select-known_by rows)

  -- A history without a date reads all rows of the ticker in the order of their versions.
  history-none :
      (ticker : ℕ) (rows : Table co)
      → history co ticker none rows ≡ read_rows co (order_by_version co (rows_of co ticker rows))
  unfolding history
  history-none ticker rows =
      ap (λ rs. read_rows co (order_by_version co rs)) (select-known_by (rows_of co ticker rows))

  rows_of-other :
      (ticker : ℕ) (r : Row co) (rows : Table co)
      → (ticker == r.ticker) ≡ false
      → rows_of co ticker (r ∷ rows) ≡ rows_of co ticker rows
  unfolding rows_of
  rows_of-other ticker r rows miss = rw miss refl

  rows_of-same :
      (ticker : ℕ) (r : Row co) (rows : Table co)
      → (ticker == r.ticker) ≡ true
      → rows_of co ticker (r ∷ rows) ≡ r ∷ rows_of co ticker rows
  unfolding rows_of
  rows_of-same ticker r rows hit = rw hit refl

module _ {co : Codec} (laws : CodecLaws co) where
  read_row-row_of : (t : InvestmentThesis) → read_row co (row_of co t) ≡ returned t
  unfolding read_row row_of
  read_row-row_of t = rw (laws.round_trip t, ==_refl (co.canonical_sha256 t), read_row) refl

  -- The history after a row that follows the latest version.
  read_next :
      (t : InvestmentThesis) (rows : Table co) (ts : List InvestmentThesis)
      → IsLedger rows
      → Follows t (newest t.ticker rows)
      → read_rows co (order_by_version co (rows_of co t.ticker rows)) ≡ returned ts
      → read_rows co (order_by_version co (row_of co t ∷ rows_of co t.ticker rows))
        ≡ returned (ts ++ (t ∷ []))
  unfolding order_by_version row_of
  read_next t rows ts h f e =
      let mine = rows_of co t.ticker rows in
      let below = versions_below laws t t.ticker rows h f in
      rw
        (place-above (row_of co t) (order_by_version co mine)
          (order_by_version-All (λ r. r.version < t.version) mine below))
        (read_rows-snoc (order_by_version co mine) (row_of co t) ts t e (read_row-row_of t))

  newest_next :
      (t : InvestmentThesis) (rows : Table co)
      → IsLedger rows
      → Follows t (newest t.ticker rows)
      → newest t.ticker (row_of co t ∷ rows) ≡ some t
  unfolding row_of
  newest_next t rows h f =
      rw
        (
          rows_of-same t.ticker (row_of co t) rows (==_refl t.ticker),
          highest-above (row_of co t) (rows_of co t.ticker rows)
              (versions_below laws t t.ticker rows h f),
        )
        (laws.round_trip t)

  -- What a ledger answers for one ticker.
  abbrev Answer : ℕ → Table co → Type 0
  Answer ticker rows =
      (ts : List InvestmentThesis) × (read_rows co (order_by_version co (rows_of co ticker rows))
        ≡ returned ts)
      × IsChain none ts
      × (end_of none ts ≡ newest ticker rows)

  Answer-next :
      (t : InvestmentThesis) (rows : Table co)
      → IsLedger rows
      → Follows t (newest t.ticker rows)
      → Answer t.ticker rows
      → Answer t.ticker (row_of co t ∷ rows)
  unfolding row_of
  Answer-next t rows h f (ts, e, chain, ends) = (
    ts ++ (t ∷ []),
    rw (rows_of-same t.ticker (row_of co t) rows (==_refl t.ticker)) (read_next t rows ts h f e),
    IsChain-snoc none ts t chain (subst (λ o. Follows t o) (sym ends) f),
    sym (last_is_end (ts ++ (t ∷ []))) ∙ last-snoc ts t ∙ sym (newest_next t rows h f),
  )

  Answer-other :
      (ticker : ℕ) (t : InvestmentThesis) (rows : Table co)
      → (ticker == t.ticker) ≡ false
      → Answer ticker rows
      → Answer ticker (row_of co t ∷ rows)
  unfolding row_of
  Answer-other ticker t rows miss (ts, e, chain, ends) =
      let same = rows_of-other ticker (row_of co t) rows miss in
      (ts, rw same e, chain, rw same ends)

  answer : (ticker : ℕ) (rows : Table co) → IsLedger rows → Answer ticker rows
  unfolding rows_of order_by_version read_rows highest
  answer ticker [] h = ([], refl, tt, refl)
  answer ticker (r ∷ rows) ((t, is_row, new, f), h) =
      subst (λ x. Answer ticker (x ∷ rows)) (sym is_row)
        (elim (Bool-cases (ticker == t.ticker)) [
          | inl hit ↦
              let same : ticker ≡ t.ticker = (==_iff ticker t.ticker).0 hit in
              subst (λ u. Answer u (row_of co t ∷ rows)) (sym same)
                (Answer-next t rows h f (answer t.ticker rows h))
          | inr miss ↦ Answer-other ticker t rows miss (answer ticker rows h)
        ])

  -- On a ledger, the history of a ticker is read without an exception: it is the chain of its
  -- versions from version 1 on, each following the one before it, and `latest` returns its end,
  -- the version that the next append is checked against.
  pub history-IsChain :
      (ticker : ℕ) (rows : Table co)
      → IsLedger rows
      → (ts : List InvestmentThesis) × (history co ticker none rows ≡ returned ts)
        × IsChain none ts
        × (latest co ticker none rows ≡ returned (newest ticker rows))
  unfolding latest
  history-IsChain ticker rows h =
      let (ts, e, chain, ends) = answer ticker rows h in
      let read = history-none ticker rows ∙ e in
      (ts, read, chain, rw read (ap (λ o. returned o) (last_is_end ts ∙ ends)))

  history-next :
      (ticker : ℕ) (t : InvestmentThesis) (rows : Table co) (ts : List InvestmentThesis)
      → IsLedger rows
      → Follows t (newest t.ticker rows)
      → history co ticker none rows ≡ returned ts
      → history co ticker none (row_of co t ∷ rows)
        ≡ returned (if ticker == t.ticker then ts ++ (t ∷ []) else ts)
  unfolding row_of
  history-next ticker t rows ts h f e = elim (Bool-cases (ticker == t.ticker)) [
    | inl hit ↦
        let same : ticker ≡ t.ticker = (==_iff ticker t.ticker).0 hit in
        rw hit (
          history-none ticker (row_of co t ∷ rows)
          ∙ rw (rows_of-same ticker (row_of co t) rows hit, same)
              (read_next t rows ts h f (rw same at (sym (history-none ticker rows) ∙ e))))
    | inr miss ↦ rw miss (
        history-none ticker (row_of co t ∷ rows)
        ∙ rw (rows_of-other ticker (row_of co t) rows miss) (sym (history-none ticker rows) ∙ e))
  ]

  -- An append of a thesis with a new ID that returns adds the thesis at the end of its ticker's
  -- history and leaves the history of every other ticker as it was.
  pub history-append :
      (ticker : ℕ) (t : InvestmentThesis) (rows rows' : Table co) (ts : List InvestmentThesis)
      → IsLedger rows
      → row_with_id co t.thesis_id rows ≡ none
      → append co t rows ≡ returned rows'
      → history co ticker none rows ≡ returned ts
      → history co ticker none rows' ≡ returned (if ticker == t.ticker then ts ++ (t ∷ []) else ts)
  history-append ticker t rows rows' ts h new e read =
      let (f, same) = followed laws t rows rows' h new e in
      subst
        (λ rs.
          history co ticker none rs ≡ returned (if ticker == t.ticker then ts ++ (t ∷ []) else ts))
        same (history-next ticker t rows ts h f read)
