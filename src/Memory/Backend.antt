-- ===== src/Memory/Backend.antt =====
-- `LocalMemoryBackend` (aegis/memory/local_backend.py): the tables and the methods that write.
use aegis_quant.Common.{
  ℕ, ◌+◌, Bool, true, false, not, ◌||◌, Option, none, some, List, [], ◌∷◌, any, ltb, leb, ◌==◌,
  if◌then◌else◌, check_all, Dict, lookup, insert, Call, returned, raised, ◌>>=◌,
}
use aegis_quant.Evidence.Records.{Numbers}
use aegis_quant.Evidence.Audit.{is_subset}
use aegis_quant.Evidence.Ledger.{EvidenceCase, approved_ids_for_cases}
use aegis_quant.Memory.Relations.{MemoryStatus, approved, quarantined}
use aegis_quant.Memory.Records.{
  Verdict, approve, quarantine, reject, MemoryCandidate, MemoryGovernanceDecision, MemoryItem,
}
use aegis_quant.Sealed.Table.{
  Codec, SealedError, identity_conflict, tampering_detected, invalid_json, unknown_id, Row, row_of,
}

-- The messages of `MemoryGovernanceError`, and the exceptions that pass through.
pub data GovernanceError : Type 0 where
  candidate_conflict unknown_candidate candidate_hash_mismatch invalid_candidate : GovernanceError
  not_bound self_approved predates_candidate expired overdue no_evidence_ledger : GovernanceError
  unknown_source_case unapproved_evidence already_decided integrity_error : GovernanceError
  of_evidence : SealedError → GovernanceError

unfoldable pub is_approve : Verdict → Bool
is_approve approve = true
is_approve _ = false

-- The ID of a decision is a primary key of `memory_decisions`, and its candidate is unique.
unfoldable pub is_taken : MemoryGovernanceDecision → MemoryGovernanceDecision → Bool
is_taken d x = d.decision_id == x.decision_id || d.candidate_id == x.candidate_id

module _ (nu : Numbers) where
  abbrev pub Candidate : Type 0
  Candidate = MemoryCandidate nu.fl

  abbrev pub Item : Type 0
  Item = MemoryItem nu.fl

  module _ (cc' : Codec (MemoryCandidate nu.fl)) (ic : Codec (MemoryItem nu.fl))
      (ec : Codec (EvidenceCase nu)) where
    -- A row of `memory_candidates`: the text, and the candidate's own content hash.
    pub record CandidateRow : Type 0 where
      pub candidate_json : cc'.Json
      pub content_hash : ℕ

    -- A row of `memory_items`.
    pub record ItemRow : Type 0 where
      pub memory_id : ℕ
      pub version : ℕ
      pub row : Row ic

    -- The tables, those of decisions and items with the last row first; the evidence ledger is
    -- optional, as in the constructor.
    pub record Backend : Type 0 where
      pub evidence_ledger : Option (Dict (Row ec))
      pub candidates : Dict CandidateRow
      pub decisions : List MemoryGovernanceDecision
      pub items : List ItemRow

    unfoldable pub stage : Candidate → Backend → Call GovernanceError Backend
    stage c b = elim (lookup c.candidate_id b.candidates) [
      | none ↦ returned (record b {
        candidates =
            insert c.candidate_id
              (record { candidate_json = cc'.canonical_json c; content_hash = c.content_hash })
              b.candidates;
      })
      | some x ↦
          if cc'.same_json x.candidate_json (cc'.canonical_json c)
          then returned b
          else raised candidate_conflict
    ]

    -- `_candidate`
    unfoldable pub find_candidate : ℕ → Backend → Call GovernanceError Candidate
    find_candidate i b = elim (lookup i b.candidates) [
      | none ↦ raised unknown_candidate
      | some x ↦ elim (cc'.model_validate_json x.candidate_json) [
        | none ↦ raised invalid_candidate
        | some c ↦
            if c.content_hash == x.content_hash then returned c else raised candidate_hash_mismatch
      ]
    ]

    -- The tests of `decide` on every decision.
    abbrev pub decision_guards :
        MemoryGovernanceDecision → Candidate → List (Bool × GovernanceError)
    decision_guards d c =
        (not (c.content_hash == d.candidate_hash), not_bound)
        ∷ (c.proposer_id == d.evaluator_id, self_approved)
        ∷ (ltb d.decided_at c.created_at, predates_candidate)
        ∷ (leb c.expires_at d.decided_at, expired)
        ∷ []

    -- `except KeyError`
    abbrev pub source_error : SealedError → GovernanceError
    source_error (unknown_id i) = unknown_source_case
    source_error (identity_conflict i) = of_evidence (identity_conflict i)
    source_error tampering_detected = of_evidence tampering_detected
    source_error invalid_json = of_evidence invalid_json

    unfoldable pub check_evidence :
        Candidate → Call SealedError (List ℕ) → Call GovernanceError (Unit {0})
    check_evidence c (raised why) = raised (source_error why)
    check_evidence c (returned ids) =
        if is_subset c.evidence_ids ids then returned tt else raised unapproved_evidence

    -- The tests of an approval.
    unfoldable pub check_approval :
        MemoryGovernanceDecision → Candidate → Backend → Call GovernanceError (Unit {0})
    check_approval d c b =
        if ltb c.review_by d.decided_at then raised overdue else elim b.evidence_ledger [
          | none ↦ raised no_evidence_ledger
          | some cases ↦
              check_evidence c (approved_ids_for_cases nu ec d.decided_at c.source_case_ids cases)
        ]

    -- `SELECT MAX(version) ... WHERE memory_id = ?`, 0 for none
    unfoldable pub last_version : ℕ → List ItemRow → ℕ
    last_version i [] = 0
    last_version i (x ∷ xs) =
        let rest = last_version i xs in
        if i == x.memory_id then (if ltb rest x.version then x.version else rest) else rest

    unfoldable pub item_of : MemoryGovernanceDecision → Candidate → MemoryStatus → ℕ → Item
    item_of d c status version = record {
      memory_id = c.memory_id;
      memory_type = c.memory_type;
      wording = c.wording;
      evidence_ids = c.evidence_ids;
      source_case_ids = c.source_case_ids;
      entity_ids = c.entity_ids;
      strategy_ids = c.strategy_ids;
      regime_ids = c.regime_ids;
      utility_score = c.utility_score;
      available_at = d.decided_at;
      expires_at = some c.expires_at;
      contradicted_by = c.contradicted_by;
      content = c.content;
      status = status;
      version = version;
    }

    -- The item that a verdict makes.
    unfoldable pub new_item : MemoryGovernanceDecision → Candidate → Backend → Option Item
    new_item d c b =
        let version = last_version c.memory_id b.items + 1 in
        elim d.decision [
          | approve ↦ some (item_of d c approved version)
          | quarantine ↦ some (item_of d c quarantined version)
          | reject ↦ none
        ]

    -- The rows of the item and of the decision, in one transaction.
    unfoldable pub record_decision :
        MemoryGovernanceDecision
        → Option Item
        → Backend
        → Call GovernanceError (Option Item × Backend)
    record_decision d item b =
        if any (is_taken d) b.decisions
        then raised integrity_error
        else returned (
          item,
          record b {
            decisions = d ∷ b.decisions;
            items = elim item [
              | none ↦ b.items
              | some m ↦
                  record { memory_id = m.memory_id; version = m.version; row = row_of ic m }
                  ∷ b.items
            ];
          },
        )

    unfoldable pub is_decided : ℕ → Backend → Bool
    is_decided i b = any (λ (x : MemoryGovernanceDecision). i == x.candidate_id) b.decisions

    unfoldable pub decide :
        MemoryGovernanceDecision → Backend → Call GovernanceError (Option Item × Backend)
    decide d b = do
      c ← find_candidate d.candidate_id b
      _ ← check_all (decision_guards d c)
      _ ← if is_approve d.decision then check_approval d c b else returned tt
      _ ← check_all ((is_decided c.candidate_id b, already_decided) ∷ [])
      record_decision d (new_item d c b) b
