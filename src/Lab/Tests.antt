-- ===== src/Lab/Tests.antt =====
-- Outcomes, a patch and a promotion, and the theorems applied to them.
use native.Mathlib.Decide.{ℕ_discrete}
use mathlib.Core.Int.{ℤ_discrete}
use aegis_quant.Common.{
  ℕ, ◌+◌, ◌*◌, ◌≤◌, true, false, some, List, [], ◌∷◌, In, All, Text, codes, contains_text,
  splitlines, ◌≡◌, refl, returned,
}
use aegis_quant.Common.Int.{ℤ, pos}
use aegis_quant.Num.Fixed.{unit, fixed}
use aegis_quant.Sealed.Table.{Codec, CodecLaws}
use aegis_quant.Sealed.Plain.{plain, plain-CodecLaws}
use aegis_quant.Lab.Outcomes.{OutcomeRecord, PostmortemReport, outcomes}
use aegis_quant.Lab.Maturity.{Append, an_outcome, run_all, empty, outcomes-IsMature}
use aegis_quant.Lab.Boundaries.{
  Paths, validate_patch_scope, read_lines, read_line, header_of, path_of, is_undeclared, is_foreign,
  validate_candidate_target,
}
use aegis_quant.Lab.Scope.{IsConfined, validate_patch_scope-IsConfined}
use aegis_quant.Lab.Promotion.{
  shadow, LearningCandidate, CandidatePatchMetadata, HoldoutUnlock, ValidationReport, ShadowResult,
  promote, PromotionDecision, Hashing, is_passed, passed_stages, is_unlock, is_shadow, is_bound,
  is_promote, authorize_promotion,
}
use aegis_quant.Lab.Authority.{IsCurrent, IsEvaluated, IsDecided, authorize_promotion-IsDecided}

outcome_discrete : Discrete (OutcomeRecord fixed)
outcome_discrete = hlevel (ℕ_discrete, ℤ_discrete)

report_discrete : Discrete (PostmortemReport fixed)
report_discrete = hlevel (ℕ_discrete, ℤ_discrete)

abbrev of_outcome : Codec (OutcomeRecord fixed)
of_outcome = plain outcome_discrete (λ (o : OutcomeRecord fixed). o.content)

of_outcome-CodecLaws : CodecLaws of_outcome
of_outcome-CodecLaws = plain-CodecLaws outcome_discrete (λ (o : OutcomeRecord fixed). o.content)

abbrev of_report : Codec (PostmortemReport fixed)
of_report = plain report_discrete (λ (r : PostmortemReport fixed). r.produced_at)

abbrev outcome : ℕ → ℕ → OutcomeRecord fixed
outcome i at = record {
  outcome_id = i;
  horizon_end = 50;
  realized_excess_return = pos 10;
  forecast_error = pos 4;
  costs = pos 1;
  available_at = at;
  content = i;
}

abbrev given : List (Append of_outcome of_report)
given = an_outcome (outcome 1 60) ∷ an_outcome (outcome 2 40) ∷ an_outcome (outcome 3 50) ∷ []

outcomes-IsMature_example :
    (os : List (OutcomeRecord fixed)) × (outcomes fixed of_outcome of_report
        (run_all of_outcome of_report given (empty of_outcome of_report))
      ≡ returned os)
    × ((o : OutcomeRecord fixed) → In o os → o.horizon_end ≤ o.available_at)
outcomes-IsMature_example = outcomes-IsMature of_outcome-CodecLaws of_report given

abbrev of_length : ℕ → ℤ
of_length n = pos (n * unit)

abbrev paths : Paths
paths = record {
  is_absolute_or_up = λ t. false;
  is_within_project = λ t. true;
  relative = λ t. t;
  has_symlink_parent = λ t. false;
  as_posix = λ t. t;
}

abbrev target : Text
target = codes "skills/candidates/x"

abbrev patch : Text
patch =
    codes
      "diff --git a/skills/candidates/x b/skills/candidates/x\n--- /dev/null\n+++ b/skills/candidates/x\n+new\n"

patch-accepted : validate_patch_scope paths patch target ≡ returned tt
unfolding validate_patch_scope read_lines read_line header_of path_of is_undeclared is_foreign
patch-accepted = refl

validate_patch_scope-IsConfined_example :
    (contains_text (0 ∷ []) patch ≡ false)
    × (contains_text (codes "GIT binary patch") patch ≡ false)
    × All (IsConfined target) (splitlines patch)
validate_patch_scope-IsConfined_example =
    validate_patch_scope-IsConfined paths patch target patch-accepted

abbrev candidate : LearningCandidate
candidate = record {
  candidate_id = 1;
  proposed_patch = patch;
  evaluation_suite_id = 2;
  proposer_id = 3;
  status = shadow;
  content = 0;
}

abbrev metadata : CandidatePatchMetadata
metadata = record {
  candidate_id = 1;
  target_path = target;
  base_revision = 10;
  base_tree_hash = 11;
  patch_hash = 12;
  candidate_tree_hash = 23;
}

abbrev unlock : HoldoutUnlock
unlock = record {
  unlock_id = 4;
  suite_id = 2;
  human_approver_id = 5;
  unlocked_at = 20;
  content_hash = 40;
}

abbrev report : ValidationReport
report = record {
  report_id = 6;
  candidate_id = 1;
  candidate_hash = 1;
  evaluator_id = 7;
  stages = 0 ∷ 1 ∷ 2 ∷ 3 ∷ 4 ∷ 5 ∷ 6 ∷ 7 ∷ [];
  stage_passes =
      (0, true)
      ∷ (1, true)
      ∷ (2, true)
      ∷ (3, true)
      ∷ (4, true)
      ∷ (5, true)
      ∷ (6, true)
      ∷ (7, true)
      ∷ [];
  holdout_unlock_id = some 4;
  passed = true;
  evaluated_at = 30;
  content_hash = 60;
}

abbrev run : ShadowResult
run = record {
  shadow_id = 8;
  candidate_id = 1;
  passed = true;
  completed_at = 25;
  content_hash = 80;
}

abbrev decision : PromotionDecision
decision = record {
  candidate_id = 1;
  candidate_hash = 1;
  validation_report_id = 6;
  validation_report_hash = 60;
  patch_metadata_hash = 11;
  holdout_unlock_id = 4;
  holdout_unlock_hash = 40;
  shadow_result_id = 8;
  shadow_result_hash = 80;
  evaluator_id = 7;
  human_approver_id = 9;
  decision = promote;
  decided_at = 31;
}

abbrev hashing : Hashing
hashing = record {
  of_candidate = λ c. c.candidate_id;
  of_text = λ t. 12;
  of_patch = λ p. p.base_tree_hash;
  overlay = λ base hash path. base + hash;
  revision = 10;
  tree_hash = 11;
}

authorized :
    authorize_promotion hashing paths candidate report decision metadata unlock run ≡ returned true
unfolding authorize_promotion validate_candidate_target is_passed passed_stages is_unlock is_shadow
    is_bound is_promote
authorized = rw patch-accepted refl

authorize_promotion-IsDecided_example :
    IsCurrent hashing paths candidate metadata
    × IsEvaluated hashing candidate report unlock run
    × IsDecided hashing candidate report decision metadata unlock run
    × (true ≡ is_promote promote)
authorize_promotion-IsDecided_example =
    authorize_promotion-IsDecided hashing paths candidate report decision metadata unlock run true
      authorized
