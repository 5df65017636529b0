-- ===== src/Lab/Authority.antt =====
-- What a promotion that aegis/research_lab/promotion.py authorizes has behind it.
use aegis_quant.Common.{
  ℕ, Bool, true, false, not, ||-false, not-false, not-==-false, ==-false, &&-true, Option, none,
  some, [], ◌∷◌, all-true, ltb-false, leb-false, ==_iff, contains, All, check_all, check_all_iff,
  NoneHolds, ◌≡◌, ◌≢◌, ◌≤◌, ◌<◌, refl, sym, ap, Call, returned, raised, >>=-returned, arith,
}
use aegis_quant.Lab.Boundaries.{
  BoundaryError, Paths, validate_candidate_target, validate_patch_scope,
}
use aegis_quant.Lab.Promotion.{
  CandidateStatus, candidate_only, evaluating, shadow, rejected, LearningCandidate,
  CandidatePatchMetadata, HoldoutUnlock, ValidationReport, ShadowResult, PromotionDecision, Hashing,
  not_shadow, required_stages, passed_stages, is_unlock, is_shadow, build_guards, report_guards,
  is_bound, decision_guards, in_bounds, is_promote, authorize_promotion,
}

-- The patch is that of the candidate, on the current build and inside its boundaries.
abbrev pub IsCurrent : Hashing → Paths → LearningCandidate → CandidatePatchMetadata → Type 0
IsCurrent h fs c p =
    (c.status ≡ shadow)
    × (validate_candidate_target fs p.target_path ≡ returned tt)
    × (validate_patch_scope fs c.proposed_patch p.target_path ≡ returned tt)
    × (p.base_revision ≡ h.revision)
    × (p.base_tree_hash ≡ h.tree_hash)
    × (p.candidate_id ≡ c.candidate_id)
    × (p.patch_hash ≡ h.of_text c.proposed_patch)

-- The report is of the candidate, by an evaluator who did not propose it, after an unlock by a
-- third person and a passing shadow run; all required stages passed.
abbrev pub IsEvaluated :
    Hashing → LearningCandidate → ValidationReport → HoldoutUnlock → ShadowResult → Type 0
IsEvaluated h c r u s =
    (r.candidate_hash ≡ h.of_candidate c)
    × (r.evaluator_id ≢ c.proposer_id)
    × (r.passed ≡ true)
    × All (λ stage. contains stage (passed_stages r) ≡ true) required_stages
    × (r.holdout_unlock_id ≡ some u.unlock_id)
    × (u.unlocked_at ≤ r.evaluated_at)
    × (u.human_approver_id ≢ c.proposer_id)
    × (u.human_approver_id ≢ r.evaluator_id)
    × (s.passed ≡ true)
    × (s.completed_at ≤ r.evaluated_at)

-- The decision names these records, each by its ID and hash.
abbrev pub IsBound :
    Hashing
    → LearningCandidate
    → ValidationReport
    → PromotionDecision
    → CandidatePatchMetadata
    → HoldoutUnlock
    → ShadowResult
    → Type 0
IsBound h c r d p u s =
    (d.candidate_id ≡ c.candidate_id)
    × (d.candidate_hash ≡ h.of_candidate c)
    × (d.validation_report_id ≡ r.report_id)
    × (d.validation_report_hash ≡ r.content_hash)
    × (d.patch_metadata_hash ≡ h.of_patch p)
    × (d.holdout_unlock_id ≡ u.unlock_id)
    × (d.holdout_unlock_hash ≡ u.content_hash)
    × (d.shadow_result_id ≡ s.shadow_id)
    × (d.shadow_result_hash ≡ s.content_hash)
    × (d.evaluator_id ≡ r.evaluator_id)

-- The decision is bound to these records by their hashes, follows the report, and is by a person
-- who neither proposed nor evaluated the candidate.
abbrev pub IsDecided :
    Hashing
    → LearningCandidate
    → ValidationReport
    → PromotionDecision
    → CandidatePatchMetadata
    → HoldoutUnlock
    → ShadowResult
    → Type 0
IsDecided h c r d p u s =
    IsBound h c r d p u s
    × (r.evaluated_at < d.decided_at)
    × (d.human_approver_id ≢ c.proposer_id)
    × (d.human_approver_id ≢ r.evaluator_id)

contains_pair-false : (a x y : ℕ) → contains a (x ∷ y ∷ []) ≡ false → (a ≢ x) × (a ≢ y)
contains_pair-false a x y h = ground (arith, h)

is_shadow-true : (s : CandidateStatus) → is_shadow s ≡ true → s ≡ shadow
unfolding is_shadow
is_shadow-true shadow h = refl
is_shadow-true candidate_only h = cc
is_shadow-true evaluating h = cc
is_shadow-true rejected h = cc

is_unlock-true : (i : ℕ) (o : Option ℕ) → is_unlock i o ≡ true → o ≡ some i
unfolding is_unlock
is_unlock-true i none h = cc
is_unlock-true i (some j) h = ap some (sym ((==_iff i j).0 h))

in_bounds-returned :
    (m : Call BoundaryError (Unit {0})) → in_bounds m ≡ returned tt → m ≡ returned tt
in_bounds-returned (returned u) h = refl
in_bounds-returned (raised why) h = cc

build_guards-IsCurrent :
    (h : Hashing) (fs : Paths) (c : LearningCandidate) (p : CandidatePatchMetadata)
    → NoneHolds (build_guards h fs c p)
    → (p.base_revision ≡ h.revision)
      × (p.base_tree_hash ≡ h.tree_hash)
      × (p.candidate_id ≡ c.candidate_id)
      × (p.patch_hash ≡ h.of_text c.proposed_patch)
build_guards-IsCurrent h fs c p (base, (overlay, (bound, _))) =
    let (revision, tree) = ||-false _ _ base in
    let (own, hash) = ||-false _ _ bound in
    (not-==-false _ _ revision, not-==-false _ _ tree, not-==-false _ _ own, not-==-false _ _ hash)

report_guards-IsEvaluated :
    (h : Hashing) (c : LearningCandidate) (r : ValidationReport) (u : HoldoutUnlock)
    (s : ShadowResult)
    → NoneHolds (report_guards h c r u s)
    → IsEvaluated h c r u s
report_guards-IsEvaluated h c r u s (bound, (own, (stages, (unlock, (holdout, (run, _)))))) =
    let (_, hash) = ||-false _ _ bound in
    let (ok_report, all_stages) = ||-false _ _ stages in
    let (rest, before) = ||-false _ _ unlock in
    let (unlock_id, _) = ||-false _ _ rest in
    let (first, second) =
      contains_pair-false u.human_approver_id c.proposer_id r.evaluator_id holdout in
    let (rest', run_before) = ||-false _ _ run in
    let (_, ok_run) = ||-false _ _ rest' in
    (
      not-==-false _ _ hash,
      ==-false _ _ own,
      not-false _ ok_report,
      all-true (λ stage. contains stage (passed_stages r)) required_stages (not-false _ all_stages),
      is_unlock-true u.unlock_id r.holdout_unlock_id (not-false _ unlock_id),
      ltb-false _ _ before,
      first,
      second,
      not-false _ ok_run,
      ltb-false _ _ run_before,
    )

is_bound-IsBound :
    (h : Hashing) (c : LearningCandidate) (r : ValidationReport) (d : PromotionDecision)
    (p : CandidatePatchMetadata) (u : HoldoutUnlock) (s : ShadowResult)
    → is_bound h c r d p u s ≡ true
    → IsBound h c r d p u s
unfolding is_bound
is_bound-IsBound h c r d p u s e =
    let (e₉, evaluator) = &&-true _ _ e in
    let (e₈, shadow_hash) = &&-true _ _ e₉ in
    let (e₇, shadow_id) = &&-true _ _ e₈ in
    let (e₆, unlock_hash) = &&-true _ _ e₇ in
    let (e₅, unlock_id) = &&-true _ _ e₆ in
    let (e₄, patch_hash) = &&-true _ _ e₅ in
    let (e₃, report_hash) = &&-true _ _ e₄ in
    let (e₂, report_id) = &&-true _ _ e₃ in
    let (candidate_id, candidate_hash) = &&-true _ _ e₂ in
    (
      (==_iff _ _).0 candidate_id,
      (==_iff _ _).0 candidate_hash,
      (==_iff _ _).0 report_id,
      (==_iff _ _).0 report_hash,
      (==_iff _ _).0 patch_hash,
      (==_iff _ _).0 unlock_id,
      (==_iff _ _).0 unlock_hash,
      (==_iff _ _).0 shadow_id,
      (==_iff _ _).0 shadow_hash,
      (==_iff _ _).0 evaluator,
    )

decision_guards-IsDecided :
    (h : Hashing) (c : LearningCandidate) (r : ValidationReport) (d : PromotionDecision)
    (p : CandidatePatchMetadata) (u : HoldoutUnlock) (s : ShadowResult)
    → NoneHolds (decision_guards h c r d p u s)
    → IsDecided h c r d p u s
decision_guards-IsDecided h c r d p u s (bound, (late, (approver, _))) =
    let (first, second) =
      contains_pair-false d.human_approver_id c.proposer_id r.evaluator_id approver in
    (is_bound-IsBound h c r d p u s (not-false _ bound), leb-false _ _ late, first, second)

-- A promotion that is authorized, with either verdict, is of a candidate in shadow status whose
-- patch stays inside the candidate boundaries and applies to the current build; its report passed
-- all required stages and is by an evaluator other than the proposer, no earlier than the unlock of
-- the holdout and the end of a passing shadow run; the decision is bound to all of these by their
-- hashes and follows the report; and neither the person who unlocked the holdout nor the one who
-- decided is the proposer or the evaluator. The result is whether the decision is to promote.
pub authorize_promotion-IsDecided :
    (h : Hashing) (fs : Paths) (c : LearningCandidate) (r : ValidationReport)
    (d : PromotionDecision) (p : CandidatePatchMetadata) (u : HoldoutUnlock) (s : ShadowResult)
    (b : Bool)
    → authorize_promotion h fs c r d p u s ≡ returned b
    → IsCurrent h fs c p
      × IsEvaluated h c r u s
      × IsDecided h c r d p u s
      × (b ≡ is_promote d.decision)
unfolding authorize_promotion
authorize_promotion-IsDecided h fs c r d p u s b e =
    let (_, status, e₁) =
      >>=-returned (check_all ((not (is_shadow c.status), not_shadow) ∷ [])) _ e in
    let (_, target, e₂) =
      >>=-returned (in_bounds (validate_candidate_target fs p.target_path)) _ e₁ in
    let (_, scope, e₃) =
      >>=-returned (in_bounds (validate_patch_scope fs c.proposed_patch p.target_path)) _ e₂ in
    let (_, build, e₄) = >>=-returned (check_all (build_guards h fs c p)) _ e₃ in
    let (_, report, e₅) = >>=-returned (check_all (report_guards h c r u s)) _ e₄ in
    let (_, decision, e₆) = >>=-returned (check_all (decision_guards h c r d p u s)) _ e₅ in
    let shadowed = (check_all_iff ((not (is_shadow c.status), not_shadow) ∷ [])).0 status in
    let (revision, tree, own, hash) =
      build_guards-IsCurrent h fs c p ((check_all_iff (build_guards h fs c p)).0 build) in
    (
      (
        is_shadow-true c.status (not-false _ shadowed.0),
        in_bounds-returned (validate_candidate_target fs p.target_path) target,
        in_bounds-returned (validate_patch_scope fs c.proposed_patch p.target_path) scope,
        revision,
        tree,
        own,
        hash,
      ),
      report_guards-IsEvaluated h c r u s ((check_all_iff (report_guards h c r u s)).0 report),
      decision_guards-IsDecided h c r d p u s
          ((check_all_iff (decision_guards h c r d p u s)).0 decision),
      cc (e₆),
    )
