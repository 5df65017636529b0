-- ===== src/Evidence/Records.antt =====
-- The contracts of aegis/contracts/evidence.py and aegis/contracts/claims.py, with the validators
-- that compare the fields of one record.
use aegis_quant.Common.{
  ℕ, Bool, true, false, not, ◌&&◌, Option, none, some, List, [], ◌∷◌, any, map, ltb, all_distinct,
  is_empty, Text, check_all, Call,
}
use aegis_quant.Num.{FloatOps}

-- Numbers that the audit compares: floats, `Decimal` with its reading of a text and its equality,
-- the age of a record in days, and the text that an ID stands for.
pub record Numbers : Type 1 where
  pub fl : FloatOps
  -- the float 0.7
  pub seven_tenths : fl.F
  pub D : Type 0
  pub decimal : Text → D
  pub same_decimal : D → D → Bool
  pub age_days : ℕ → ℕ → fl.F
  pub of_days : ℕ → fl.F
  pub text_of : ℕ → Text

pub data BundleMode : Type 0 where
  replay historical live_research : BundleMode

pub data ClaimType : Type 0 where
  factual numeric causal opinion forecast : ClaimType

pub data NodeKind : Type 0 where
  evidence_node claim_node calculation_node artifact_node forecast_node : NodeKind
  decision_node outcome_node : NodeKind

pub data ClaimRelation : Type 0 where
  supports contradicts derived_by used_in led_to : ClaimRelation

-- An edge of the claim graph.
pub record ClaimEdge : Type 0 where
  pub edge_id : ℕ
  pub source_kind : NodeKind
  pub source_id : ℕ
  pub relation : ClaimRelation
  pub target_kind : NodeKind
  pub target_id : ℕ

-- `_ALLOWED_EDGE_TYPES`
unfoldable pub legal_edge_type : NodeKind → ClaimRelation → NodeKind → Bool
legal_edge_type evidence_node supports claim_node = true
legal_edge_type evidence_node contradicts claim_node = true
legal_edge_type claim_node derived_by calculation_node = true
legal_edge_type claim_node used_in artifact_node = true
legal_edge_type artifact_node used_in forecast_node = true
legal_edge_type forecast_node led_to decision_node = true
legal_edge_type decision_node led_to outcome_node = true
legal_edge_type _ _ _ = false

pub record Claim : Type 0 where
  pub claim_id : ℕ
  pub case_id : ℕ
  pub claim_type : ClaimType
  pub material : Bool
  pub evidence_ids : List ℕ
  pub content : ℕ

-- `material_claims_require_provenance`
unfoldable pub has_provenance : Claim → Bool
has_provenance c = not (c.material && is_empty c.evidence_ids)

module _ (nu : Numbers) where
  pub record EvidenceRecord : Type 0 where
    pub evidence_id : ℕ
    pub entity_ids : List Text
    pub published_at : Option ℕ
    pub available_at : ℕ
    pub retrieved_at : ℕ
    pub extraction_confidence : nu.fl.F
    pub historical_safe : Bool
    pub injection_flags : List ℕ
    pub content : ℕ

  -- `timestamps_are_causal`
  unfoldable pub timestamps_are_causal : EvidenceRecord → Bool
  timestamps_are_causal r = elim r.published_at [
    | none ↦ not (ltb r.retrieved_at r.available_at)
    | some p ↦ not (ltb r.available_at p) && not (ltb r.retrieved_at r.available_at)
  ]

  pub record EvidenceBundle : Type 0 where
    pub case_id : ℕ
    pub as_of : ℕ
    pub records : List EvidenceRecord
    pub mode : BundleMode

  pub data BundleError : Type 0 where
    ids_not_unique not_point_in_time historically_unsafe : BundleError

  unfoldable pub needs_safe_records : BundleMode → Bool
  needs_safe_records replay = true
  needs_safe_records historical = true
  needs_safe_records live_research = false

  abbrev pub evidence_ids_of : EvidenceBundle → List ℕ
  evidence_ids_of b = map (λ (r : EvidenceRecord). r.evidence_id) b.records

  abbrev pub bundle_guards : EvidenceBundle → List (Bool × BundleError)
  bundle_guards b =
      (not (all_distinct (evidence_ids_of b)), ids_not_unique)
      ∷ (any (λ (r : EvidenceRecord). ltb b.as_of r.available_at) b.records, not_point_in_time)
      ∷ (
        needs_safe_records b.mode && any (λ (r : EvidenceRecord). not r.historical_safe) b.records,
        historically_unsafe,
      )
      ∷ []

  -- `ids_are_unique_and_point_in_time_safe`
  unfoldable pub validate_bundle : EvidenceBundle → Call BundleError (Unit {0})
  validate_bundle b = check_all (bundle_guards b)

  pub record NumericClaim : Type 0 where
    pub claim_id : ℕ
    pub name : Text
    pub value : nu.D
    pub evidence_id : ℕ
    pub coordinates : Text
    pub calculation_id : Option ℕ

  pub record ClaimGraphSnapshot : Type 0 where
    pub case_id : ℕ
    pub claims : List Claim
    pub numeric_claims : List NumericClaim
    pub edges : List ClaimEdge

  pub record EvidenceAuditPolicy : Type 0 where
    pub minimum_extraction_confidence : nu.fl.F
    pub maximum_age_days : Option ℕ
    pub block_injection_flags : Bool

  -- `EvidenceAuditPolicy()`
  unfoldable pub default_policy : EvidenceAuditPolicy
  default_policy = record {
    minimum_extraction_confidence = nu.seven_tenths;
    maximum_age_days = none;
    block_injection_flags = true;
  }

pub data Severity : Type 0 where
  warning blocker : Severity

-- The codes of the findings that the audit makes.
pub data FindingCode : Type 0 where
  unknown_claim_evidence low_extraction_confidence injection_flags_found : FindingCode
  stale_evidence material_claim_support_mismatch numeric_provenance : FindingCode

pub record AuditFinding : Type 0 where
  pub code : FindingCode
  pub severity : Severity
  pub evidence_ids : List ℕ
  pub claim_ids : List ℕ

-- `audited_input_hash` is left out.
pub record EvidenceAuditResult : Type 0 where
  pub case_id : ℕ
  pub approved : Bool
  pub approved_evidence_ids : List ℕ
  pub approved_claim_ids : List ℕ
  pub findings : List AuditFinding
