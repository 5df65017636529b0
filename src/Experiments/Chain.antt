-- ===== src/Experiments/Chain.antt =====
-- What `ExperimentLedger._verify_chain` (aegis/research_lab/experiments.py) accepts.
use aegis_quant.Common.{
  ℕ, suc, ◌+◌, Option, none, some, List, [], ◌∷◌, ◌++◌, length, ◌≡◌, ◌≢◌, ◌↔◌, refl, subst, sym,
  Dict, lookup, insert, lookup-insert_ne, returned, >>=-returned, arith,
}
use aegis_quant.Experiments.Records.{Codec, Commitment, StoredRecord, Store}
use aegis_quant.Experiments.Ledger.{
  hash_at, check_link, verify_row, verify_rows, verify_chain, last_hash, last_sequence,
}

module _ (co : Codec) where
  check_link_iff :
      (c : Commitment) (expected previous : ℕ) (o : Option ℕ)
      → (check_link co expected previous c o ≡ returned tt) ↔ (
          (c.sequence ≡ expected)
          × (c.previous_commitment_hash ≡ previous)
          × (c.commitment_hash
              ≡ co.commitment_hash c.sequence c.experiment_id c.record_hash previous)
          × (o ≡ some c.record_hash))
  unfolding check_link
  check_link_iff c expected previous none = ground arith
  check_link_iff c expected previous (some h) = ground arith

module _ {co : Codec} where
  -- A commitment that is in its place, has its hash, and whose record is there.
  abbrev pub IsLink : Dict (StoredRecord co) → ℕ → ℕ → Commitment → Type 0
  IsLink d expected previous c =
      (c.sequence ≡ expected)
      × (c.previous_commitment_hash ≡ previous)
      × (c.commitment_hash ≡ co.commitment_hash c.sequence c.experiment_id c.record_hash previous)
      × (hash_at co c.experiment_id d ≡ some c.record_hash)

  abbrev pub IsLinked : Dict (StoredRecord co) → ℕ → ℕ → List Commitment → Type 0
  IsLinked d expected previous [] = Unit
  IsLinked d expected previous (c ∷ cs) =
      IsLink d expected previous c × IsLinked d (suc expected) c.commitment_hash cs

  -- A store whose commitments are linked from the genesis hash on and as many as its records.
  abbrev pub IsVerified : Store co → Type 0
  IsVerified s =
      IsLinked s.experiments 1 co.genesis s.commitments
      × (length s.experiments ≡ length s.commitments)

  verify_row_iff :
      (d : Dict (StoredRecord co)) (expected previous : ℕ) (c : Commitment)
      → (verify_row co d expected previous c ≡ returned tt) ↔ IsLink d expected previous c
  unfolding verify_row
  verify_row_iff d expected previous c =
      check_link_iff co c expected previous (hash_at co c.experiment_id d)

  verify_rows_iff :
      (d : Dict (StoredRecord co)) (expected previous : ℕ) (cs : List Commitment)
      → (verify_rows co d expected previous cs ≡ returned tt) ↔ IsLinked d expected previous cs
  unfolding verify_rows
  verify_rows_iff d expected previous [] = (λ _. tt, λ _. refl)
  verify_rows_iff d expected previous (c ∷ cs) =
      let (first, back) = verify_row_iff d expected previous c in
      let (rest, back') = verify_rows_iff d (suc expected) c.commitment_hash cs in
      (
        λ e.
            let (u, head, tail) = >>=-returned (verify_row co d expected previous c) _ e in
            (first head, rest tail),
        λ h. rw (back h.0) (back' h.1),
      )

  -- _verify_chain returns exactly on the verified stores: the commitments count up from 1, each
  -- has its hash over the hash of the one before it, each has its record with the hash that it
  -- commits to, and there are as many records as commitments. On any other store it raises.
  pub verify_chain_iff : (s : Store co) → (verify_chain co s ≡ returned tt) ↔ IsVerified s
  unfolding verify_chain
  verify_chain_iff s =
      let (first, back) = verify_rows_iff s.experiments 1 co.genesis s.commitments in
      (
        λ e.
            let (u, head, tail) =
              >>=-returned (verify_rows co s.experiments 1 co.genesis s.commitments) _ e in
            (first head, ground (arith, tail)),
        λ h. rw (back h.0) (ground (arith, h.1)),
      )

  -- A record with a new ID leaves every link as it is.
  pub IsLinked-insert :
      (d : Dict (StoredRecord co)) (i : ℕ) (x : StoredRecord co) (expected previous : ℕ)
      (cs : List Commitment)
      → lookup i d ≡ none
      → IsLinked d expected previous cs
      → IsLinked (insert i x d) expected previous cs
  unfolding hash_at
  IsLinked-insert d i x expected previous [] new h = tt
  IsLinked-insert d i x expected previous (c ∷ cs) new ((n, p, e, stored), rest) =
      let gone : hash_at co i d ≡ none = rw (new, hash_at) refl in
      let other : c.experiment_id ≢ i =
        λ same. cc (stored, subst (λ j. hash_at co j d ≡ none) (sym same) gone) in
      (
        (n, p, e, rw (lookup-insert_ne i c.experiment_id x d other, hash_at) stored),
        IsLinked-insert d i x (suc expected) c.commitment_hash cs new rest,
      )

  -- One more commitment, linked to the last one.
  pub IsLinked-snoc :
      (d : Dict (StoredRecord co)) (expected previous : ℕ) (cs : List Commitment) (c : Commitment)
      (place : ℕ)
      → place ≡ length cs + expected
      → IsLinked d expected previous cs
      → IsLink d place (last_hash co previous cs) c
      → IsLinked d expected previous (cs ++ (c ∷ []))
  unfolding last_hash
  IsLinked-snoc d expected previous [] c place at_end h (n, p, e, stored) =
      ((omega (arith, n, at_end), p, e, stored), tt)
  IsLinked-snoc d expected previous (x ∷ cs) c place at_end h l = (
    h.0,
    IsLinked-snoc d (suc expected) x.commitment_hash cs c place (omega (arith, at_end)) h.1 l,
  )

  pub last_sequence-IsLinked :
      (d : Dict (StoredRecord co)) (n previous : ℕ) (cs : List Commitment)
      → IsLinked d (suc n) previous cs
      → last_sequence co n cs ≡ length cs + n
  unfolding last_sequence
  last_sequence-IsLinked d n previous [] h = omega arith
  last_sequence-IsLinked d n previous (c ∷ cs) h =
      let below = last_sequence-IsLinked d (suc n) c.commitment_hash cs h.1 in
      rw h.0.0 (omega (arith, below))
