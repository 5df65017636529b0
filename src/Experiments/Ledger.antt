-- ===== src/Experiments/Ledger.antt =====
-- `ExperimentLedger` (aegis/research_lab/experiments.py): `_verify_chain`, `append` and `get`.
use aegis_quant.Common.{
  ℕ, suc, Bool, not, ◌&&◌, ◌||◌, Option, none, some, List, [], ◌∷◌, ◌++◌, length, any, ◌==◌,
  if◌then◌else◌, Dict, lookup, insert, Call, returned, raised, ◌>>=◌,
}
use aegis_quant.Experiments.Records.{
  ExperimentRecord, Codec, Commitment, StoredRecord, Store, LedgerError, sequence_mismatch,
  hash_mismatch, missing_or_replaced, not_reconciled, different_content, integrity_failure,
  key_error, invalid_json, integrity_error,
}

module _ (co : Codec) where
  -- The hash of a commitment's record, `None` if there is no row.
  unfoldable pub hash_at : ℕ → Dict (StoredRecord co) → Option ℕ
  hash_at i d = elim (lookup i d) [ none ↦ none | some r ↦ some r.record_hash ]

  -- The tests of one commitment, given the hash of its record.
  unfoldable pub check_link : ℕ → ℕ → Commitment → Option ℕ → Call LedgerError (Unit {0})
  check_link expected previous c stored =
      if not (c.sequence == expected) || not (c.previous_commitment_hash == previous)
      then raised sequence_mismatch
      else if not (
          c.commitment_hash == co.commitment_hash c.sequence c.experiment_id c.record_hash previous)
      then raised hash_mismatch
      else elim stored [
        | none ↦ raised missing_or_replaced
        | some h ↦ if h == c.record_hash then returned tt else raised missing_or_replaced
      ]

  -- One turn of the loop of `_verify_chain`.
  unfoldable pub verify_row :
      Dict (StoredRecord co) → ℕ → ℕ → Commitment → Call LedgerError (Unit {0})
  verify_row d expected previous c = check_link expected previous c (hash_at c.experiment_id d)

  unfoldable pub verify_rows :
      Dict (StoredRecord co) → ℕ → ℕ → List Commitment → Call LedgerError (Unit {0})
  verify_rows d expected previous [] = returned tt
  verify_rows d expected previous (c ∷ cs) =
      verify_row d expected previous c >>= λ _. verify_rows d (suc expected) c.commitment_hash cs

  unfoldable pub verify_chain : Store co → Call LedgerError (Unit {0})
  verify_chain s = verify_rows s.experiments 1 co.genesis s.commitments >>= λ _.
      if length s.experiments == length s.commitments then returned tt else raised not_reconciled

  -- `commitment_hash` of the last commitment, and its sequence.
  unfoldable pub last_hash : ℕ → List Commitment → ℕ
  last_hash previous [] = previous
  last_hash previous (c ∷ cs) = last_hash c.commitment_hash cs

  unfoldable pub last_sequence : ℕ → List Commitment → ℕ
  last_sequence n [] = n
  last_sequence n (c ∷ cs) = last_sequence c.sequence cs

  -- The UNIQUE columns of `experiment_commitments`.
  unfoldable pub clashes : Commitment → Commitment → Bool
  clashes c x =
      c.experiment_id == x.experiment_id
      || c.record_hash == x.record_hash
      || c.commitment_hash == x.commitment_hash

  -- The row of the next commitment.
  unfoldable pub next_commitment : ExperimentRecord → List Commitment → Commitment
  next_commitment r cs =
      let sequence = suc (last_sequence 0 cs) in
      let digest = co.canonical_sha256 r in
      let previous = last_hash co.genesis cs in
      record {
        sequence = sequence;
        experiment_id = r.experiment_id;
        record_hash = digest;
        previous_commitment_hash = previous;
        commitment_hash = co.commitment_hash sequence r.experiment_id digest previous;
      }

  -- The two INSERT statements of `append`, in one transaction.
  unfoldable pub insert_record : ExperimentRecord → Store co → Call LedgerError (Store co)
  insert_record r s =
      if any (clashes (next_commitment r s.commitments)) s.commitments
      then raised integrity_error
      else returned (record {
        experiments =
            insert r.experiment_id
              (record { record_json = co.canonical_json r; record_hash = co.canonical_sha256 r })
              s.experiments;
        commitments = s.commitments ++ (next_commitment r s.commitments ∷ []);
      })

  unfoldable pub append_verified : ExperimentRecord → Store co → Call LedgerError (Store co)
  append_verified r s = elim (lookup r.experiment_id s.experiments) [
    | none ↦ insert_record r s
    | some x ↦
        if co.same_json x.record_json (co.canonical_json r)
          && x.record_hash == co.canonical_sha256 r
        then returned s
        else raised different_content
  ]

  unfoldable pub append : ExperimentRecord → Store co → Call LedgerError (Store co)
  append r s = verify_chain s >>= λ _. append_verified r s

  -- `get` after the chain is verified.
  unfoldable pub read_record : ℕ → Store co → Call LedgerError ExperimentRecord
  read_record i s = elim (lookup i s.experiments) [
    | none ↦ raised (key_error i)
    | some x ↦ elim (co.model_validate_json x.record_json) [
      | none ↦ raised invalid_json
      | some r ↦
          if co.canonical_sha256 r == x.record_hash then returned r else raised integrity_failure
    ]
  ]

  unfoldable pub get : ℕ → Store co → Call LedgerError ExperimentRecord
  get i s = verify_chain s >>= λ _. read_record i s
