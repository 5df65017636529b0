-- ===== src/Evidence/Tests.antt =====
-- A case with one record, one material claim and one number, and the theorems applied to it.
use native.Mathlib.Decide.{ℕ_discrete}
use mathlib.Core.Int.{ℤ_discrete}
use aegis_quant.Common.{
  ℕ, ◌*◌, ◌-◌, ◌==◌, true, ◌&&◌, none, some, [], ◌∷◌, contains, Text, codes, ◌++◌, same_text,
  if◌then◌else◌, ◌≡◌, ◌↔◌, refl, Dict, lookup, returned,
}
use aegis_quant.Common.Int.{pos}
use aegis_quant.Num.Fixed.{unit, fixed}
use aegis_quant.Sealed.Table.{Codec, CodecLaws, Row, row_of, read_row, read_one}
use aegis_quant.Sealed.Plain.{plain, plain-CodecLaws}
use aegis_quant.Evidence.Calculations.{
  prefix, calibration, find_text, calibrated, identity_of, forecast_calculation_id,
  registered_calculation_identity, resolve_registered_calculation, forecast_calculation_id-resolve,
}
use aegis_quant.Evidence.Records.{
  Numbers, live_research, numeric, evidence_node, claim_node, calculation_node, supports,
  derived_by, EvidenceBundle, evidence_ids_of, ClaimGraphSnapshot, default_policy,
}
use aegis_quant.Evidence.Audit.{
  audit_evidence, finding_if, collect, is_blocker, is_support, supporters, find_claim, unknown_ids,
  audit_citation, audit_support, is_stale, audit_record, find_record, is_registered, is_traced,
  audit_number, findings_of,
}
use aegis_quant.Evidence.Approval.{IsSound, approved_iff}
use aegis_quant.Evidence.Ledger.{EvidenceCase, get, approved_ids_of, approved_ids_for_cases}
use aegis_quant.Evidence.Custody.{IsLedger, Vouches, approved_ids-Vouches}

listed : calibrated (codes "MSFT") (codes "confidence") ≡ some (codes "0.84")
unfolding calibrated calibration find_text
listed = refl

forecast_calculation_id-resolve_example :
    (registered_calculation_identity (forecast_calculation_id (codes "MSFT") (codes "confidence"))
      ≡ some (codes "MSFT", codes "confidence"))
    × (resolve_registered_calculation (forecast_calculation_id (codes "MSFT") (codes "confidence"))
        ≡ some (codes "0.84"))
forecast_calculation_id-resolve_example =
    forecast_calculation_id-resolve (codes "MSFT") (codes "confidence") (codes "0.84") listed

abbrev pub numbers : Numbers
numbers = record {
  fl = fixed;
  seven_tenths = pos 700_000_000_000_000;
  D = Text;
  decimal = λ t. t;
  same_decimal = same_text;
  age_days = λ a b. pos ((a - b) * unit);
  of_days = λ n. pos (n * unit);
  text_of = λ i. if i == 1 then prefix ++ codes "MSFT:confidence" else [];
}

abbrev pub bundle : EvidenceBundle numbers
bundle = record {
  case_id = 5;
  as_of = 100;
  records =
      record {
        evidence_id = 11;
        entity_ids = codes "MSFT" ∷ [];
        published_at = none;
        available_at = 90;
        retrieved_at = 95;
        extraction_confidence = pos 900_000_000_000_000;
        historical_safe = true;
        injection_flags = [];
        content = 0;
      }
      ∷ [];
  mode = live_research;
}

abbrev pub graph : ClaimGraphSnapshot numbers
graph = record {
  case_id = 5;
  claims =
      record {
        claim_id = 21;
        case_id = 5;
        claim_type = numeric;
        material = true;
        evidence_ids = 11 ∷ [];
        content = 0;
      }
      ∷ [];
  numeric_claims =
      record {
        claim_id = 21;
        name = codes "confidence";
        value = codes "0.84";
        evidence_id = 11;
        coordinates = codes "p1";
        calculation_id = some 1;
      }
      ∷ [];
  edges =
      record {
        edge_id = 31;
        source_kind = evidence_node;
        source_id = 11;
        relation = supports;
        target_kind = claim_node;
        target_id = 21;
      }
      ∷ record {
        edge_id = 32;
        source_kind = claim_node;
        source_id = 21;
        relation = derived_by;
        target_kind = calculation_node;
        target_id = 1;
      }
      ∷ [];
}

approved_iff_example :
    (((audit_evidence numbers bundle graph (default_policy numbers)).approved ≡ true)
      ↔ IsSound bundle graph (default_policy numbers))
    × ((i : ℕ)
        → contains i
            (audit_evidence numbers bundle graph (default_policy numbers)).approved_evidence_ids
          ≡ ((audit_evidence numbers bundle graph (default_policy numbers)).approved
              && contains i (evidence_ids_of numbers bundle)))
approved_iff_example = approved_iff bundle graph (default_policy numbers)

pub case_discrete : Discrete (EvidenceCase numbers)
case_discrete = hlevel (ℕ_discrete, ℤ_discrete)

abbrev pub of_case : Codec (EvidenceCase numbers)
of_case = plain case_discrete (λ (c : EvidenceCase numbers). c.bundle.case_id)

pub of_case-CodecLaws : CodecLaws of_case
of_case-CodecLaws = plain-CodecLaws case_discrete (λ (c : EvidenceCase numbers). c.bundle.case_id)

abbrev pub a_case : EvidenceCase numbers
a_case = record {
  bundle = bundle;
  graph = graph;
  audit = audit_evidence numbers bundle graph (default_policy numbers);
}

abbrev pub ledger : Dict (Row of_case)
ledger = (5, record { payload = a_case; record_hash = 5 }) ∷ []

pub ledger-IsLedger : IsLedger of_case-CodecLaws ledger
unfolding row_of
ledger-IsLedger = ((refl, tt), ((a_case, refl, refl), tt))

pub answered : approved_ids_for_cases numbers of_case 95 (5 ∷ []) ledger ≡ returned (11 ∷ [])
unfolding approved_ids_for_cases get read_one read_row approved_ids_of audit_evidence findings_of
    audit_citation audit_record audit_support audit_number finding_if collect is_blocker is_support
    supporters find_claim unknown_ids is_stale find_record is_registered is_traced identity_of
    registered_calculation_identity resolve_registered_calculation calibrated calibration find_text
    default_policy
answered = refl

approved_ids-Vouches_example :
    (k : ℕ) × (c : EvidenceCase numbers) × (contains k (5 ∷ []) ≡ true)
    × (lookup k ledger ≡ some (row_of of_case c))
    × Vouches of_case-CodecLaws 95 11 c
approved_ids-Vouches_example =
    approved_ids-Vouches of_case-CodecLaws 95 11 (5 ∷ []) ledger (11 ∷ []) ledger-IsLedger answered
      refl
