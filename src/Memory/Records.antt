-- ===== src/Memory/Records.antt =====
-- The contracts of aegis/contracts/memory.py.
use aegis_quant.Common.{ℕ, Bool, true, ◌&&◌, Option, none, some, List, ltb, Text}
use aegis_quant.Num.{FloatOps}
use aegis_quant.Memory.Relations.{MemoryStatus}

pub data Verdict : Type 0 where
  approve quarantine reject : Verdict

-- `wording` is the text of `title`, a space and `statement`; `scope`, `confidence`, `supersedes` and
-- `duplicate_of` are in `content`.
pub record MemoryCandidate (fl : FloatOps) : Type 0 where
  pub candidate_id : ℕ
  pub memory_id : ℕ
  pub proposer_id : ℕ
  pub memory_type : ℕ
  pub wording : Text
  pub evidence_ids : List ℕ
  pub source_case_ids : List ℕ
  pub entity_ids : List ℕ
  pub strategy_ids : List ℕ
  pub regime_ids : List ℕ
  pub utility_score : fl.F
  pub created_at : ℕ
  pub expires_at : ℕ
  pub review_by : ℕ
  pub contradicted_by : List ℕ
  pub content : ℕ
  pub content_hash : ℕ

-- The two tests of `candidate_is_causal_and_hashed` on times.
unfoldable pub candidate_is_causal : {fl : FloatOps} → MemoryCandidate fl → Bool
candidate_is_causal c = ltb c.created_at c.review_by && ltb c.created_at c.expires_at

pub record MemoryGovernanceDecision : Type 0 where
  pub decision_id : ℕ
  pub candidate_id : ℕ
  pub candidate_hash : ℕ
  pub evaluator_id : ℕ
  pub decision : Verdict
  pub decided_at : ℕ
  pub content_hash : ℕ

pub record MemoryItem (fl : FloatOps) : Type 0 where
  pub memory_id : ℕ
  pub memory_type : ℕ
  pub wording : Text
  pub evidence_ids : List ℕ
  pub source_case_ids : List ℕ
  pub entity_ids : List ℕ
  pub strategy_ids : List ℕ
  pub regime_ids : List ℕ
  pub utility_score : fl.F
  pub available_at : ℕ
  pub expires_at : Option ℕ
  pub contradicted_by : List ℕ
  pub content : ℕ
  pub status : MemoryStatus
  pub version : ℕ

-- `expiry_follows_availability`
unfoldable pub expiry_follows : {fl : FloatOps} → MemoryItem fl → Bool
expiry_follows m = elim m.expires_at [ none ↦ true | some t ↦ ltb m.available_at t ]

pub record MemoryQuery : Type 0 where
  pub text : Text
  pub as_of : ℕ
  pub entity_ids : List ℕ
  pub strategy_ids : List ℕ
  pub regime_ids : List ℕ
  pub memory_types : List ℕ
  pub top_k : ℕ
