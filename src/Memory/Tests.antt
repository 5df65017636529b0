-- ===== src/Memory/Tests.antt =====
-- A candidate that is approved, then searched for, and the theorems applied to these.
use native.Mathlib.Decide.{ℕ_discrete}
use mathlib.Core.Int.{ℤ_discrete}
use aegis_quant.Common.{
  ℕ, ◌+◌, ◌*◌, ◌/◌, ◌≤◌, true, false, some, List, [], ◌∷◌, length, contains, codes, In, ◌≡◌, ◌↔◌,
  ◌⊎◌, refl, subst, Dict, lookup, returned, arith,
}
use aegis_quant.Common.Int.{pos, ◌+ℤ◌}
use aegis_quant.Common.Sort.{IsRanked}
use aegis_quant.Num.Fixed.{unit, fixed, fixed-FloatLaws}
use aegis_quant.Sealed.Table.{Codec, CodecLaws, Row, row_of, keep, read_row}
use aegis_quant.Sealed.Reads.{IsSealed}
use aegis_quant.Sealed.Plain.{plain, plain-CodecLaws}
use aegis_quant.Evidence.Ledger.{EvidenceCase}
use aegis_quant.Evidence.Custody.{IsLedger, Vouches}
use aegis_quant.Evidence.Tests.{
  numbers, ledger, of_case, of_case-CodecLaws, ledger-IsLedger, answered,
}
use aegis_quant.Memory.Relations.{approved, TypedRelation, IsMatch, append, search_iff, is_approved}
use aegis_quant.Memory.Records.{
  approve, MemoryCandidate, MemoryGovernanceDecision, MemoryItem, MemoryQuery,
}
use aegis_quant.Memory.Backend.{
  is_approve, Backend, find_candidate, check_evidence, check_approval, last_version, item_of,
  new_item, record_decision, is_decided, decide,
}
use aegis_quant.Memory.Governance.{IsIndependent, Recorded, decide-IsIndependent}
use aegis_quant.Memory.Retrieval.{
  Scores, MemoryHit, MemorySnapshotEntry, is_current, is_eligible, score_of, hit_of, place_row,
  sort_rows, read_items, items, search, snapshot,
}
use aegis_quant.Memory.Answers.{decide-search}
use aegis_quant.Memory.Eligible.{IsAdmitted}
use aegis_quant.Memory.Ranking.{RanksAhead, search-IsComplete}

relation_discrete : Discrete TypedRelation
relation_discrete = hlevel (ℕ_discrete)

abbrev of_relation : Codec TypedRelation
of_relation = plain relation_discrete (λ (r : TypedRelation). r.content)

of_relation-CodecLaws : CodecLaws of_relation
of_relation-CodecLaws = plain-CodecLaws relation_discrete (λ (r : TypedRelation). r.content)

abbrev supplies : TypedRelation
supplies = record {
  relation_id = 4;
  source_id = 1;
  target_id = 2;
  available_at = 10;
  status = approved;
  content = 77;
}

abbrev one_relation : Dict (Row of_relation)
one_relation = (4, record { payload = supplies; record_hash = 77 }) ∷ []

appended : append of_relation supplies [] ≡ returned one_relation
unfolding append keep row_of
appended = refl

search_iff_example :
    IsSealed one_relation
    × ((rs : List TypedRelation) × (aegis_quant.Memory.Relations.search of_relation 2 15
            one_relation
          ≡ returned rs)
        × ((q : TypedRelation)
            → In q rs ↔ (
                ((k : ℕ) × (lookup k one_relation ≡ some (row_of of_relation q)))
                × IsMatch of_relation-CodecLaws 2 15 q)))
search_iff_example =
    search_iff of_relation-CodecLaws supplies [] one_relation 2 15 (tt, tt) appended

candidate_discrete : Discrete (MemoryCandidate fixed)
candidate_discrete = hlevel (ℕ_discrete, ℤ_discrete)

item_discrete : Discrete (MemoryItem fixed)
item_discrete = hlevel (ℕ_discrete, ℤ_discrete)

abbrev of_candidate : Codec (MemoryCandidate fixed)
of_candidate = plain candidate_discrete (λ (c : MemoryCandidate fixed). c.content_hash)

abbrev of_item : Codec (MemoryItem fixed)
of_item = plain item_discrete (λ (m : MemoryItem fixed). m.memory_id * 100 + m.version)

of_item-CodecLaws : CodecLaws of_item
of_item-CodecLaws =
    plain-CodecLaws item_discrete (λ (m : MemoryItem fixed). m.memory_id * 100 + m.version)

abbrev lesson : MemoryCandidate fixed
lesson = record {
  candidate_id = 8;
  memory_id = 6;
  proposer_id = 1;
  memory_type = 2;
  wording = codes "Margins MSFT lead";
  evidence_ids = 11 ∷ [];
  source_case_ids = 5 ∷ [];
  entity_ids = 3 ∷ [];
  strategy_ids = [];
  regime_ids = [];
  utility_score = pos 500_000_000_000_000;
  created_at = 91;
  expires_at = 200;
  review_by = 99;
  contradicted_by = [];
  content = 0;
  content_hash = 88;
}

abbrev verdict : MemoryGovernanceDecision
verdict = record {
  decision_id = 9;
  candidate_id = 8;
  candidate_hash = 88;
  evaluator_id = 2;
  decision = approve;
  decided_at = 95;
  content_hash = 99;
}

abbrev staged : Backend numbers of_candidate of_item of_case
staged = record {
  evidence_ledger = some ledger;
  candidates = (8, record { candidate_json = lesson; content_hash = 88 }) ∷ [];
  decisions = [];
  items = [];
}

abbrev learnt : MemoryItem fixed
learnt = record {
  memory_id = 6;
  memory_type = 2;
  wording = codes "Margins MSFT lead";
  evidence_ids = 11 ∷ [];
  source_case_ids = 5 ∷ [];
  entity_ids = 3 ∷ [];
  strategy_ids = [];
  regime_ids = [];
  utility_score = pos 500_000_000_000_000;
  available_at = 95;
  expires_at = some 200;
  contradicted_by = [];
  content = 0;
  status = approved;
  version = 1;
}

abbrev decided : Backend numbers of_candidate of_item of_case
decided = record {
  evidence_ledger = some ledger;
  candidates = (8, record { candidate_json = lesson; content_hash = 88 }) ∷ [];
  decisions = verdict ∷ [];
  items =
      record { memory_id = 6; version = 1; row = record { payload = learnt; record_hash = 601 } }
      ∷ [];
}

verdict-decided :
    decide numbers of_candidate of_item of_case verdict staged ≡ returned (some learnt, decided)
unfolding decide find_candidate is_approve check_approval is_decided new_item item_of last_version
    record_decision row_of check_evidence
verdict-decided = rw answered refl

decide-IsIndependent_example :
    (c : MemoryCandidate fixed) × (find_candidate numbers of_candidate of_item of_case 8 staged
      ≡ returned c)
    × IsIndependent verdict c
    × (95 ≤ c.review_by)
    × (is_decided numbers of_candidate of_item of_case c.candidate_id staged ≡ false)
    × ((i : ℕ)
        → contains i c.evidence_ids ≡ true
        → (cases : Dict (Row of_case)) × (k : ℕ) × (x : EvidenceCase numbers)
          × (staged.evidence_ledger ≡ some cases)
          × (contains k c.source_case_ids ≡ true)
          × (lookup k cases ≡ some (row_of of_case x))
          × Vouches of_case-CodecLaws 95 i x)
    × Recorded verdict
        (some (
          item_of numbers of_candidate of_item of_case verdict c approved
            (last_version numbers of_candidate of_item of_case c.memory_id [] + 1)))
        staged
        (some learnt, decided)
decide-IsIndependent_example =
    decide-IsIndependent of_case-CodecLaws verdict staged (some learnt, decided)
      (λ cases e.
        let same : ledger ≡ cases = cc (e) in
        subst (IsLedger of_case-CodecLaws) same ledger-IsLedger)
      refl verdict-decided

abbrev scores : Scores fixed
scores = record {
  ratio = λ a b. pos (a * unit / b);
  quarter = pos 250_000_000_000_000;
  tenth = pos 100_000_000_000_000;
}

abbrev question : ℕ → MemoryQuery
question as_of = record {
  text = codes "msft margins";
  as_of = as_of;
  entity_ids = 3 ∷ [];
  strategy_ids = [];
  regime_ids = [];
  memory_types = [];
  top_k = 5;
}

abbrev digest : ℕ → List MemorySnapshotEntry → ℕ
digest as_of entries = as_of + length entries

decide-search_example :
    (search scores (question 94) decided ≡ search scores (question 94) staged)
    × (snapshot digest 94 decided ≡ snapshot digest 94 staged)
decide-search_example =
    decide-search of_item-CodecLaws verdict staged (some learnt, decided) scores (question 94)
      digest verdict-decided (omega arith)

abbrev hits : List (MemoryHit fixed)
hits = record { item = learnt; score = pos 1_300_000_000_000_000; contradictions = [] } ∷ []

found : search scores (question 96) decided ≡ returned hits
unfolding search items sort_rows place_row read_items read_row is_eligible is_current is_approved
    hit_of score_of ◌+ℤ◌
found = refl

search-IsComplete_example :
    (ms : List (MemoryItem fixed)) × (items decided ≡ returned ms)
    × (length hits ≤ 5)
    × ((h : MemoryHit fixed)
        → In h hits
        → (m : MemoryItem fixed) × In m ms
          × (h ≡ hit_of scores (question 96) m)
          × IsAdmitted (question 96) m)
    × ((m : MemoryItem fixed)
        → In m ms
        → IsAdmitted (question 96) m
        → In (hit_of scores (question 96) m) hits ⊎ (length hits ≡ 5))
    × IsRanked (RanksAhead {fl = fixed}) hits
search-IsComplete_example =
    search-IsComplete fixed-FloatLaws scores (question 96) decided hits found
