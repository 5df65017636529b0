-- ===== src/Evidence/Audit.antt =====
-- `audit_evidence` (aegis/evidence/audit.py).
use aegis_quant.Common.{
  ℕ, Bool, true, false, not, ◌&&◌, Option, none, some, List, [], ◌∷◌, ◌++◌, all, select, map, ◌==◌,
  contains, is_empty, same_text, has_text, if◌then◌else◌,
}
use aegis_quant.Common.Sort.{sort_set}
use aegis_quant.Evidence.Calculations.{
  registered_calculation_identity, resolve_registered_calculation,
}
use aegis_quant.Evidence.Records.{
  Numbers, NodeKind, evidence_node, ClaimRelation, supports, ClaimEdge, Claim, EvidenceRecord,
  EvidenceBundle, evidence_ids_of, NumericClaim, ClaimGraphSnapshot, EvidenceAuditPolicy, Severity,
  warning, blocker, FindingCode, AuditFinding, unknown_claim_evidence, low_extraction_confidence,
  injection_flags_found, stale_evidence, material_claim_support_mismatch, numeric_provenance,
  EvidenceAuditResult,
}

-- `set(xs) <= set(ys)` and `set(xs) == set(ys)`
abbrev pub is_subset : List ℕ → List ℕ → Bool
is_subset xs ys = all (λ x. contains x ys) xs

abbrev pub same_set : List ℕ → List ℕ → Bool
same_set xs ys = is_subset xs ys && is_subset ys xs

-- A finding that blocks.
abbrev pub block : FindingCode → List ℕ → List ℕ → AuditFinding
block code evidence claims = record {
  code = code;
  severity = blocker;
  evidence_ids = evidence;
  claim_ids = claims;
}

-- `if test: findings.append(finding)`
unfoldable pub finding_if : Bool → AuditFinding → List AuditFinding
finding_if test f = if test then f ∷ [] else []

-- The findings of a loop over a list.
unfoldable pub collect : {A : Type 0} → (A → List AuditFinding) → List A → List AuditFinding
collect f [] = []
collect f (x ∷ xs) = f x ++ collect f xs

unfoldable pub is_blocker : Severity → Bool
is_blocker blocker = true
is_blocker warning = false

unfoldable pub is_support : ClaimEdge → Bool
is_support e = is_evidence e.source_kind && is_supports e.relation
  where
    is_evidence : NodeKind → Bool
    is_evidence evidence_node = true
    is_evidence _ = false

    is_supports : ClaimRelation → Bool
    is_supports supports = true
    is_supports _ = false

-- `supported.get(claim_id, set())`
unfoldable pub supporters : ℕ → List ClaimEdge → List ℕ
supporters claim_id es =
    map (λ (e : ClaimEdge). e.source_id)
      (select (λ (e : ClaimEdge). is_support e && claim_id == e.target_id) es)

unfoldable pub find_claim : ℕ → List Claim → Option Claim
find_claim i [] = none
find_claim i (c ∷ cs) =
    let later = find_claim i cs in
    elim later [ none ↦ if i == c.claim_id then some c else none | some d ↦ some d ]

-- The evidence IDs that a claim cites outside the bundle.
unfoldable pub unknown_ids : List ℕ → Claim → List ℕ
unknown_ids known c = sort_set (select (λ i. not (contains i known)) c.evidence_ids)

unfoldable pub audit_citation : List ℕ → Claim → List AuditFinding
audit_citation known c =
    finding_if (not (is_empty (unknown_ids known c)))
      (block unknown_claim_evidence (unknown_ids known c) (c.claim_id ∷ []))

unfoldable pub audit_support : List ClaimEdge → Claim → List AuditFinding
audit_support es c =
    finding_if (c.material && not (same_set (supporters c.claim_id es) c.evidence_ids))
      (block material_claim_support_mismatch [] (c.claim_id ∷ []))

module _ (nu : Numbers) where
  unfoldable pub is_stale : EvidenceAuditPolicy nu → ℕ → EvidenceRecord nu → Bool
  is_stale p as_of r = elim p.maximum_age_days [
    | none ↦ false
    | some days ↦ nu.fl.lt (nu.of_days days) (nu.age_days as_of r.available_at)
  ]

  unfoldable pub audit_record : EvidenceAuditPolicy nu → ℕ → EvidenceRecord nu → List AuditFinding
  audit_record p as_of r =
      finding_if (nu.fl.lt r.extraction_confidence p.minimum_extraction_confidence)
        (block low_extraction_confidence (r.evidence_id ∷ []) [])
      ++ (finding_if (p.block_injection_flags && not (is_empty r.injection_flags))
            (block injection_flags_found (r.evidence_id ∷ []) [])
          ++ finding_if (is_stale p as_of r) (block stale_evidence (r.evidence_id ∷ []) []))

  -- The record of an ID: of two with the same ID the last, as in a dict comprehension.
  unfoldable pub find_record : ℕ → List (EvidenceRecord nu) → Option (EvidenceRecord nu)
  find_record i [] = none
  find_record i (r ∷ rs) =
      let later = find_record i rs in
      elim later [ none ↦ if i == r.evidence_id then some r else none | some q ↦ some q ]

  -- The calculation of a numeric claim is registered under the claim's name, for an entity of the
  -- evidence, and resolves to the claim's value.
  unfoldable pub is_registered : EvidenceRecord nu → NumericClaim nu → ℕ → Bool
  is_registered r n calculation = elim (registered_calculation_identity (nu.text_of calculation)) [
    | none ↦ false
    | some identity ↦
        same_text identity.1 n.name
        && has_text identity.0 r.entity_ids
        && elim (resolve_registered_calculation (nu.text_of calculation)) [
          | none ↦ false
          | some value ↦ nu.same_decimal (nu.decimal value) n.value
        ]
  ]

  unfoldable pub is_traced : EvidenceBundle nu → List Claim → NumericClaim nu → Bool
  is_traced b cs n = elim (find_record n.evidence_id b.records) [
    | none ↦ false
    | some r ↦ elim (find_claim n.claim_id cs) [
      | none ↦ false
      | some parent ↦ elim n.calculation_id [
        | none ↦ false
        | some calculation ↦
            contains n.evidence_id parent.evidence_ids
            && not (is_empty n.coordinates)
            && is_registered r n calculation
      ]
    ]
  ]

  unfoldable pub audit_number : EvidenceBundle nu → List Claim → NumericClaim nu → List AuditFinding
  audit_number b cs n =
      finding_if (not (is_traced b cs n))
        (block numeric_provenance (n.evidence_id ∷ []) (n.claim_id ∷ []))

  unfoldable pub findings_of :
      EvidenceBundle nu → ClaimGraphSnapshot nu → EvidenceAuditPolicy nu → List AuditFinding
  findings_of b g p =
      collect (audit_citation (evidence_ids_of nu b)) g.claims
      ++ (collect (audit_record p b.as_of) b.records
          ++ (collect (audit_support g.edges) g.claims
              ++ collect (audit_number b g.claims) g.numeric_claims))

  unfoldable pub audit_evidence :
      EvidenceBundle nu → ClaimGraphSnapshot nu → EvidenceAuditPolicy nu → EvidenceAuditResult
  audit_evidence b g p =
      let fs = findings_of b g p in
      let clear = is_empty (select (λ (f : AuditFinding). is_blocker f.severity) fs) in
      record {
        case_id = b.case_id;
        approved = clear;
        approved_evidence_ids = if clear then sort_set (evidence_ids_of nu b) else [];
        approved_claim_ids =
            if clear then sort_set (map (λ (c : Claim). c.claim_id) g.claims) else [];
        findings = fs;
      }
