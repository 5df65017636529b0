-- ===== src/Lab/Promotion.antt =====
-- `authorize_promotion` (aegis/research_lab/promotion.py), on the contracts of
-- aegis/contracts/lab.py and `LearningCandidate` (aegis/contracts/learning.py).
use aegis_quant.Common.{
  ℕ, Bool, true, false, not, ◌&&◌, ◌||◌, Option, none, some, List, [], ◌∷◌, all, select, ltb, leb,
  ◌==◌, contains, Text, check_all, Dict, lookup, Call, returned, raised, ◌>>=◌,
}
use aegis_quant.Lab.Boundaries.{
  BoundaryError, Paths, validate_candidate_target, validate_patch_scope,
}

-- `EvaluationStatus`
pub data CandidateStatus : Type 0 where
  candidate_only evaluating shadow rejected : CandidateStatus

pub record LearningCandidate : Type 0 where
  pub candidate_id : ℕ
  pub proposed_patch : Text
  pub evaluation_suite_id : ℕ
  pub proposer_id : ℕ
  pub status : CandidateStatus
  pub content : ℕ

pub record CandidatePatchMetadata : Type 0 where
  pub candidate_id : ℕ
  pub target_path : Text
  pub base_revision : ℕ
  pub base_tree_hash : ℕ
  pub patch_hash : ℕ
  pub candidate_tree_hash : ℕ

pub record HoldoutUnlock : Type 0 where
  pub unlock_id : ℕ
  pub suite_id : ℕ
  pub human_approver_id : ℕ
  pub unlocked_at : ℕ
  pub content_hash : ℕ

-- A stage is a number; `stage_passes` holds the result of each.
pub record ValidationReport : Type 0 where
  pub report_id : ℕ
  pub candidate_id : ℕ
  pub candidate_hash : ℕ
  pub evaluator_id : ℕ
  pub stages : List ℕ
  pub stage_passes : Dict Bool
  pub holdout_unlock_id : Option ℕ
  pub passed : Bool
  pub evaluated_at : ℕ
  pub content_hash : ℕ

pub record ShadowResult : Type 0 where
  pub shadow_id : ℕ
  pub candidate_id : ℕ
  pub passed : Bool
  pub completed_at : ℕ
  pub content_hash : ℕ

pub data Verdict : Type 0 where
  promote reject : Verdict

pub record PromotionDecision : Type 0 where
  pub candidate_id : ℕ
  pub candidate_hash : ℕ
  pub validation_report_id : ℕ
  pub validation_report_hash : ℕ
  pub patch_metadata_hash : ℕ
  pub holdout_unlock_id : ℕ
  pub holdout_unlock_hash : ℕ
  pub shadow_result_id : ℕ
  pub shadow_result_hash : ℕ
  pub evaluator_id : ℕ
  pub human_approver_id : ℕ
  pub decision : Verdict
  pub decided_at : ℕ

-- `canonical_sha256` of a candidate, of a text and of a patch's metadata, the hash of
-- `candidate_overlay_hash`, and the revision and tree hash of `local_build_fingerprint`.
pub record Hashing : Type 0 where
  pub of_candidate : LearningCandidate → ℕ
  pub of_text : Text → ℕ
  pub of_patch : CandidatePatchMetadata → ℕ
  pub overlay : ℕ → ℕ → Text → ℕ
  pub revision : ℕ
  pub tree_hash : ℕ

-- The messages of `PromotionDenied`.
pub data PromotionError : Type 0 where
  not_shadow : PromotionError
  boundary : BoundaryError → PromotionError
  stale_base overlay_mismatch patch_not_bound report_not_bound : PromotionError
  self_evaluated stages_not_passed unlock_not_bound holdout_not_independent : PromotionError
  shadow_not_bound decision_not_bound decided_too_early approver_not_independent : PromotionError

-- `_REQUIRED_STAGES`: preflight, replay, historical_dev, holdback, purged_cv, overfitting,
-- cost_stress, shadow
abbrev pub required_stages : List ℕ
required_stages = 0 ∷ 1 ∷ 2 ∷ 3 ∷ 4 ∷ 5 ∷ 6 ∷ 7 ∷ []

-- `report.stage_passes.get(stage) is True`
unfoldable pub is_passed : Dict Bool → ℕ → Bool
is_passed passes stage = elim (lookup stage passes) [ none ↦ false | some b ↦ b ]

unfoldable pub passed_stages : ValidationReport → List ℕ
passed_stages r = select (is_passed r.stage_passes) r.stages

-- `unlock_id != report.holdout_unlock_id`, which may be None
unfoldable pub is_unlock : ℕ → Option ℕ → Bool
is_unlock i none = false
is_unlock i (some j) = i == j

unfoldable pub is_shadow : CandidateStatus → Bool
is_shadow shadow = true
is_shadow _ = false

-- `as_posix` stands for `Path(target_path).as_posix()`.
abbrev pub build_guards :
    Hashing → Paths → LearningCandidate → CandidatePatchMetadata → List (Bool × PromotionError)
build_guards h fs c p =
    (not (p.base_revision == h.revision) || not (p.base_tree_hash == h.tree_hash), stale_base)
    ∷ (
      not (
          p.candidate_tree_hash
          == h.overlay p.base_tree_hash p.patch_hash (fs.as_posix p.target_path)),
      overlay_mismatch,
    )
    ∷ (
      not (p.candidate_id == c.candidate_id) || not (p.patch_hash == h.of_text c.proposed_patch),
      patch_not_bound,
    )
    ∷ []

abbrev pub report_guards :
    Hashing
    → LearningCandidate
    → ValidationReport
    → HoldoutUnlock
    → ShadowResult
    → List (Bool × PromotionError)
report_guards h c r u s =
    (
      not (r.candidate_id == c.candidate_id) || not (r.candidate_hash == h.of_candidate c),
      report_not_bound,
    )
    ∷ (r.evaluator_id == c.proposer_id, self_evaluated)
    ∷ (
      not r.passed || not (all (λ stage. contains stage (passed_stages r)) required_stages),
      stages_not_passed,
    )
    ∷ (
      not (is_unlock u.unlock_id r.holdout_unlock_id)
          || not (u.suite_id == c.evaluation_suite_id)
          || ltb r.evaluated_at u.unlocked_at,
      unlock_not_bound,
    )
    ∷ (contains u.human_approver_id (c.proposer_id ∷ r.evaluator_id ∷ []), holdout_not_independent)
    ∷ (
      not (s.candidate_id == c.candidate_id) || not s.passed || ltb r.evaluated_at s.completed_at,
      shadow_not_bound,
    )
    ∷ []

-- The hash bindings of the decision.
unfoldable pub is_bound :
    Hashing
    → LearningCandidate
    → ValidationReport
    → PromotionDecision
    → CandidatePatchMetadata
    → HoldoutUnlock
    → ShadowResult
    → Bool
is_bound h c r d p u s =
    d.candidate_id == c.candidate_id
    && d.candidate_hash == h.of_candidate c
    && d.validation_report_id == r.report_id
    && d.validation_report_hash == r.content_hash
    && d.patch_metadata_hash == h.of_patch p
    && d.holdout_unlock_id == u.unlock_id
    && d.holdout_unlock_hash == u.content_hash
    && d.shadow_result_id == s.shadow_id
    && d.shadow_result_hash == s.content_hash
    && d.evaluator_id == r.evaluator_id

abbrev pub decision_guards :
    Hashing
    → LearningCandidate
    → ValidationReport
    → PromotionDecision
    → CandidatePatchMetadata
    → HoldoutUnlock
    → ShadowResult
    → List (Bool × PromotionError)
decision_guards h c r d p u s =
    (not (is_bound h c r d p u s), decision_not_bound)
    ∷ (leb d.decided_at r.evaluated_at, decided_too_early)
    ∷ (contains d.human_approver_id (c.proposer_id ∷ r.evaluator_id ∷ []), approver_not_independent)
    ∷ []

-- An exception of a boundary test, as the caller sees it.
abbrev pub in_bounds : Call BoundaryError (Unit {0}) → Call PromotionError (Unit {0})
in_bounds (returned u) = returned u
in_bounds (raised why) = raised (boundary why)

unfoldable pub is_promote : Verdict → Bool
is_promote promote = true
is_promote reject = false

unfoldable pub authorize_promotion :
    Hashing
    → Paths
    → LearningCandidate
    → ValidationReport
    → PromotionDecision
    → CandidatePatchMetadata
    → HoldoutUnlock
    → ShadowResult
    → Call PromotionError Bool
authorize_promotion h fs c r d p u s = do
  _ ← check_all ((not (is_shadow c.status), not_shadow) ∷ [])
  _ ← in_bounds (validate_candidate_target fs p.target_path)
  _ ← in_bounds (validate_patch_scope fs c.proposed_patch p.target_path)
  _ ← check_all (build_guards h fs c p)
  _ ← check_all (report_guards h c r u s)
  _ ← check_all (decision_guards h c r d p u s)
  returned (is_promote d.decision)
