-- ===== src/Evidence/Ledger.antt =====
-- `EvidenceLedger` (aegis/evidence/ledger.py), a sealed table of cases: the three texts of a row are
-- one text of the case.
use aegis_quant.Common.{
  ℕ, Bool, true, false, not, ◌&&◌, ◌||◌, List, [], ◌∷◌, ◌++◌, select, map, leb, ◌==◌, contains,
  same_text, if◌then◌else◌, Dict, Call, returned, raised, ◌>>=◌,
}
use aegis_quant.Evidence.Records.{
  Numbers, EvidenceRecord, EvidenceBundle, ClaimGraphSnapshot, default_policy, Severity, warning,
  blocker, FindingCode, unknown_claim_evidence, low_extraction_confidence, injection_flags_found,
  stale_evidence, material_claim_support_mismatch, numeric_provenance, AuditFinding,
  EvidenceAuditResult,
}
use aegis_quant.Evidence.Audit.{audit_evidence}
use aegis_quant.Sealed.Table.{Codec, SealedError, Row, keep, read_one}

pub data EvidenceLedgerError : Type 0 where
  case_ids_differ audit_differs : EvidenceLedgerError
  of_table : SealedError → EvidenceLedgerError

-- Equality of findings and of audits, `==` of their models.
unfoldable pub code_number : FindingCode → ℕ
code_number unknown_claim_evidence = 0
code_number low_extraction_confidence = 1
code_number injection_flags_found = 2
code_number stale_evidence = 3
code_number material_claim_support_mismatch = 4
code_number numeric_provenance = 5

unfoldable pub severity_number : Severity → ℕ
severity_number warning = 0
severity_number blocker = 1

unfoldable pub same_bool : Bool → Bool → Bool
same_bool true b = b
same_bool false b = not b

unfoldable pub same_finding : AuditFinding → AuditFinding → Bool
same_finding f g =
    code_number f.code == code_number g.code
    && severity_number f.severity == severity_number g.severity
    && same_text f.evidence_ids g.evidence_ids
    && same_text f.claim_ids g.claim_ids

unfoldable pub same_findings : List AuditFinding → List AuditFinding → Bool
same_findings [] [] = true
same_findings (f ∷ fs) (g ∷ gs) = same_finding f g && same_findings fs gs
same_findings _ _ = false

unfoldable pub same_audit : EvidenceAuditResult → EvidenceAuditResult → Bool
same_audit a b =
    a.case_id == b.case_id
    && same_bool a.approved b.approved
    && same_text a.approved_evidence_ids b.approved_evidence_ids
    && same_text a.approved_claim_ids b.approved_claim_ids
    && same_findings a.findings b.findings

module _ (nu : Numbers) where
  -- The payload of a case.
  pub record EvidenceCase : Type 0 where
    pub bundle : EvidenceBundle nu
    pub graph : ClaimGraphSnapshot nu
    pub audit : EvidenceAuditResult

  -- The recomputation that `append` compares with.
  abbrev pub recomputed : EvidenceCase → EvidenceAuditResult
  recomputed c = audit_evidence nu c.bundle c.graph (default_policy nu)

  module _ (co : Codec EvidenceCase) where
    -- The table after `append`, whose result is the digest of the case.
    unfoldable pub append :
        EvidenceCase → Dict (Row co) → Call EvidenceLedgerError (ℕ × Dict (Row co))
    append c cases =
        if not (c.bundle.case_id == c.graph.case_id) || not (c.bundle.case_id == c.audit.case_id)
        then raised case_ids_differ
        else if not (same_audit c.audit (recomputed c))
        then raised audit_differs
        else elim (keep co c.bundle.case_id c cases) [
          | raised why ↦ raised (of_table why)
          | returned cases' ↦ returned (co.canonical_sha256 c, cases')
        ]

    unfoldable pub get : ℕ → Dict (Row co) → Call SealedError EvidenceCase
    get case_id cases = read_one co case_id cases

    -- The approved evidence IDs of one case, of records available by a time.
    unfoldable pub approved_ids_of : ℕ → EvidenceCase → List ℕ
    approved_ids_of as_of c =
        if not c.audit.approved
        then []
        else select (λ i. contains i c.audit.approved_evidence_ids)
            (map (λ (r : EvidenceRecord nu). r.evidence_id)
              (select (λ (r : EvidenceRecord nu). leb r.available_at as_of) c.bundle.records))

    -- The set as a list.
    unfoldable pub approved_ids_for_cases : ℕ → List ℕ → Dict (Row co) → Call SealedError (List ℕ)
    approved_ids_for_cases as_of [] cases = returned []
    approved_ids_for_cases as_of (i ∷ is) cases = do
      c ← get i cases
      rest ← approved_ids_for_cases as_of is cases
      returned (approved_ids_of as_of c ++ rest)
