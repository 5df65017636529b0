-- ===== src/Thesis/Tests.antt =====
-- Two versions of a thesis run through the ledger, and the theorems applied to them.
use aegis_quant.Common.{
  ℕ, ◌*◌, Bool, true, false, Option, none, some, List, [], ◌∷◌, ◌++◌, ◌≡◌, ◌≢◌, ◌↔◌, refl, ◌==◌,
  ◌&&◌, if◌then◌else◌, All, select, returned, arith,
}
use aegis_quant.Thesis.Records.{
  Status, draft, active, strengthened, weakened, invalidated, resolved, archived, InvestmentThesis,
  Codec, CodecLaws,
}
use aegis_quant.Thesis.Ledger.{
  follows_open, allowed_transition, same_id, check_update, Table, row_with_id, rows_of, highest,
  row_of, check_next, collides, insert_row, append, place, order_by_version, read_row, read_rows,
  known_by, history, latest,
}
use aegis_quant.Thesis.Chain.{Follows, newest, IsLedger}
use aegis_quant.Thesis.Append.{append_iff, append-IsLedger, archived_is_final}
use aegis_quant.Thesis.History.{IsChain, history-IsChain, history-append}
use aegis_quant.Thesis.Integrity.{IsIntact, history-IsIntact}

abbrev status_number : Status → ℕ
status_number draft = 0
status_number active = 1
status_number strengthened = 2
status_number weakened = 3
status_number invalidated = 4
status_number resolved = 5
status_number archived = 6

abbrev status_at : ℕ → Status
status_at n =
    if n == 0
    then draft
    else if n == 1
    then active
    else if n == 2
    then strengthened
    else if n == 3
    then weakened
    else if n == 4
    then invalidated
    else if n == 5
    then resolved
    else archived

abbrev id_numbers : Option ℕ → List ℕ
id_numbers none = []
id_numbers (some i) = i ∷ []

abbrev id_at : List ℕ → Option ℕ
id_at [] = none
id_at (i ∷ _) = some i

abbrev same_numbers : List ℕ → List ℕ → Bool
same_numbers [] [] = true
same_numbers (a ∷ xs) (b ∷ ys) = a == b && same_numbers xs ys
same_numbers _ _ = false

same_numbers_iff : (xs ys : List ℕ) → (same_numbers xs ys ≡ true) ↔ (xs ≡ ys)
same_numbers_iff [] [] = ground arith
same_numbers_iff [] (b ∷ ys) = ground arith
same_numbers_iff (a ∷ xs) [] = ground arith
same_numbers_iff (a ∷ xs) (b ∷ ys) = ground (arith, same_numbers_iff xs ys)

-- A thesis as the list of the numbers of its fields.
abbrev numbers : InvestmentThesis → List ℕ
numbers t =
    t.thesis_id
    ∷ t.ticker
    ∷ t.version
    ∷ t.as_of.instant
    ∷ t.as_of.isoformat
    ∷ status_number t.status
    ∷ t.content
    ∷ id_numbers t.supersedes_thesis_id

abbrev read_numbers : List ℕ → Option InvestmentThesis
read_numbers (i ∷ k ∷ v ∷ instant ∷ isoformat ∷ s ∷ c ∷ previous) = some (record {
  thesis_id = i;
  ticker = k;
  version = v;
  as_of = record { instant = instant; isoformat = isoformat };
  supersedes_thesis_id = id_at previous;
  status = status_at s;
  content = c;
})
read_numbers _ = none

abbrev plain : Codec
plain = record {
  Json = List ℕ;
  same_json = same_numbers;
  canonical_json = numbers;
  canonical_sha256 = λ t. t.version;
  model_validate_json = read_numbers;
}

id_round_trip : (o : Option ℕ) → id_at (id_numbers o) ≡ o
id_round_trip none = refl
id_round_trip (some i) = refl

status_round_trip : (s : Status) → status_at (status_number s) ≡ s
status_round_trip draft = refl
status_round_trip active = refl
status_round_trip strengthened = refl
status_round_trip weakened = refl
status_round_trip invalidated = refl
status_round_trip resolved = refl
status_round_trip archived = refl

plain-CodecLaws : CodecLaws plain
plain-CodecLaws = record {
  same_json_iff = same_numbers_iff;
  round_trip = λ t. cc (id_round_trip t.supersedes_thesis_id, status_round_trip t.status);
}

abbrev version_at : ℕ → ℕ → Option ℕ → Status → InvestmentThesis
version_at i v previous s = record {
  thesis_id = i;
  ticker = 5;
  version = v;
  as_of = record { instant = v * 10; isoformat = v * 10 };
  supersedes_thesis_id = previous;
  status = s;
  content = 0;
}

abbrev first : InvestmentThesis
first = version_at 100 1 none active

abbrev second : InvestmentThesis
second = version_at 101 2 (some 100) archived

abbrev third : InvestmentThesis
third = version_at 102 3 (some 101) active

abbrev one_row : Table plain
one_row = row_of plain first ∷ []

abbrev two_rows : Table plain
two_rows = row_of plain second ∷ row_of plain first ∷ []

one_row-IsLedger : IsLedger one_row
unfolding row_with_id rows_of highest row_of
one_row-IsLedger = ((first, refl, refl, (refl, refl)), tt)

second-new : row_with_id plain 101 one_row ≡ none
unfolding row_with_id row_of
second-new = refl

second-appended : append plain second one_row ≡ returned two_rows
unfolding append row_with_id row_of check_next highest rows_of check_update same_id
    allowed_transition follows_open insert_row collides
second-appended = refl

third-new : row_with_id plain 102 two_rows ≡ none
unfolding row_with_id row_of
third-new = refl

second-newest : newest 5 two_rows ≡ some second
unfolding row_of highest rows_of
second-newest = refl

first-history : history plain 5 none one_row ≡ returned (first ∷ [])
unfolding history order_by_version place read_rows read_row rows_of row_of known_by
first-history = refl

both-history : history plain 5 none two_rows ≡ returned (first ∷ second ∷ [])
unfolding history order_by_version place read_rows read_row rows_of row_of known_by
both-history = refl

append_iff_example :
    (append plain second one_row ≡ returned two_rows) ↔ Follows second (newest 5 one_row)
append_iff_example = append_iff plain-CodecLaws second one_row one_row-IsLedger second-new

append-IsLedger_example : IsLedger two_rows
append-IsLedger_example =
    append-IsLedger plain-CodecLaws second one_row two_rows one_row-IsLedger second-appended

two_rows-IsLedger : IsLedger two_rows
unfolding row_with_id rows_of highest row_of allowed_transition follows_open
two_rows-IsLedger = ((second, refl, refl, (refl, refl, omega arith, refl)), one_row-IsLedger)

archived_is_final_example : append plain third two_rows ≢ returned (row_of plain third ∷ two_rows)
archived_is_final_example =
    archived_is_final plain-CodecLaws third second two_rows (row_of plain third ∷ two_rows)
      two_rows-IsLedger third-new second-newest refl

history-IsChain_example :
    (ts : List InvestmentThesis) × (history plain 5 none two_rows ≡ returned ts)
    × IsChain none ts
    × (latest plain 5 none two_rows ≡ returned (newest 5 two_rows))
history-IsChain_example = history-IsChain plain-CodecLaws 5 two_rows two_rows-IsLedger

history-append_example :
    history plain 5 none two_rows
    ≡ returned (if 5 == 5 then (first ∷ []) ++ (second ∷ []) else first ∷ [])
history-append_example =
    history-append plain-CodecLaws 5 second one_row two_rows (first ∷ []) one_row-IsLedger
      second-new second-appended first-history

history-IsIntact_example : All IsIntact (select (known_by plain none) (rows_of plain 5 two_rows))
history-IsIntact_example = history-IsIntact 5 none two_rows (first ∷ second ∷ []) both-history
