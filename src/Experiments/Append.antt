-- ===== src/Experiments/Append.antt =====
-- `ExperimentLedger.append` and `get` (aegis/research_lab/experiments.py).
use aegis_quant.Common.{
  ℕ, suc, true, ◌&&◌, none, some, [], ◌∷◌, ◌++◌, length, length-append, any, ◌≡◌, ◌≢◌, refl, subst,
  ◌⊎◌, inl, inr, Bool-cases, Option-cases, ◌==◌, ==_iff, ==_refl, Dict, lookup, insert,
  lookup-insert_self, lookup-insert_ne, returned, >>=-returned, &&-true, arith,
}
use aegis_quant.Experiments.Records.{ExperimentRecord, Codec, CodecLaws, StoredRecord, Store}
use aegis_quant.Experiments.Ledger.{
  hash_at, verify_chain, last_sequence, clashes, next_commitment, insert_record, append_verified,
  append, read_record, get,
}
use aegis_quant.Experiments.Chain.{
  IsVerified, verify_chain_iff, IsLinked-insert, IsLinked-snoc, last_sequence-IsLinked,
}

length-insert :
    {V : Type 0} (k : ℕ) (v : V) (d : Dict V)
    → lookup k d ≡ none
    → length (insert k v d) ≡ suc (length d)
length-insert k v [] h = refl
length-insert k v (e ∷ d) h = ground (arith, length-insert k v d)

module _ {co : Codec} where
  stored : ExperimentRecord → StoredRecord co
  stored r = record { record_json = co.canonical_json r; record_hash = co.canonical_sha256 r }

  -- The store after the two INSERT statements.
  abbrev pub extended : ExperimentRecord → Store co → Store co
  extended r s = record {
    experiments =
        insert r.experiment_id
          (record { record_json = co.canonical_json r; record_hash = co.canonical_sha256 r })
          s.experiments;
    commitments = s.commitments ++ (next_commitment co r s.commitments ∷ []);
  }

  extended-IsVerified :
      (r : ExperimentRecord) (s : Store co)
      → IsVerified s
      → lookup r.experiment_id s.experiments ≡ none
      → IsVerified (extended r s)
  unfolding next_commitment hash_at
  extended-IsVerified r s (linked, counted) new =
      let d =
        insert r.experiment_id
          (record { record_json = co.canonical_json r; record_hash = co.canonical_sha256 r })
          s.experiments in
      let sealed : hash_at co r.experiment_id d ≡ some (co.canonical_sha256 r) =
        rw
          (
            lookup-insert_self r.experiment_id
                (record { record_json = co.canonical_json r; record_hash = co.canonical_sha256 r })
                s.experiments,
            hash_at,
          )
          refl in
      let at_end = last_sequence-IsLinked s.experiments 0 co.genesis s.commitments linked in
      (
        IsLinked-snoc d 1 co.genesis s.commitments (next_commitment co r s.commitments)
            (suc (last_sequence co 0 s.commitments)) (omega (arith, at_end))
            (IsLinked-insert s.experiments r.experiment_id _ 1 co.genesis s.commitments new linked)
            (refl, refl, refl, sealed),
        omega (
          arith,
          counted,
          length-insert r.experiment_id
              (record { record_json = co.canonical_json r; record_hash = co.canonical_sha256 r })
              s.experiments new,
          length-append s.commitments (next_commitment co r s.commitments ∷ []),
        ),
      )

  -- What an append that returned found and did.
  abbrev Appended : ExperimentRecord → Store co → Store co → Type 0
  Appended r s s' =
      ((x : StoredRecord co) × (lookup r.experiment_id s.experiments ≡ some x)
        × (co.same_json x.record_json (co.canonical_json r) ≡ true)
        × (x.record_hash ≡ co.canonical_sha256 r)
        × (s ≡ s'))
      ⊎ ((lookup r.experiment_id s.experiments ≡ none) × (extended r s ≡ s'))

  inserted :
      (r : ExperimentRecord) (s s' : Store co)
      → insert_record co r s ≡ returned s'
      → extended r s ≡ s'
  unfolding insert_record
  inserted r s s' e =
      elim (Bool-cases (any (clashes co (next_commitment co r s.commitments)) s.commitments)) [
        | inl taken ↦ absurd (cc (rw (taken, insert_record) at e))
        | inr room ↦ cc (rw (room, insert_record) at e)
      ]

  append_verified-Appended :
      (r : ExperimentRecord) (s s' : Store co)
      → append_verified co r s ≡ returned s'
      → Appended r s s'
  unfolding append_verified
  append_verified-Appended r s s' e = elim (Option-cases (lookup r.experiment_id s.experiments)) [
    | inl new ↦ inr (new, inserted r s s' (rw (new, append_verified) at e))
    | inr (x, known) ↦
        elim (Bool-cases (
          co.same_json x.record_json (co.canonical_json r)
          && x.record_hash == co.canonical_sha256 r)) [
            | inl hit ↦
                let (json, digest) = &&-true _ _ hit in
                inl (
                  x,
                  known,
                  json,
                  (==_iff x.record_hash (co.canonical_sha256 r)).0 digest,
                  cc (rw (known, hit, append_verified) at e),
                )
            | inr miss ↦ absurd (cc (rw (known, miss, append_verified) at e))
          ]
  ]

  appended :
      (r : ExperimentRecord) (s s' : Store co)
      → append co r s ≡ returned s'
      → IsVerified s × Appended r s s'
  unfolding append
  appended r s s' e =
      let (u, verified, done) = >>=-returned (verify_chain co s) _ e in
      ((verify_chain_iff s).0 verified, append_verified-Appended r s s' done)

  -- An append that returns, of a record that is new or known, was made on a verified store and
  -- leaves a verified one.
  pub append-IsVerified :
      (r : ExperimentRecord) (s s' : Store co)
      → append co r s ≡ returned s'
      → IsVerified s × IsVerified s'
  append-IsVerified r s s' e =
      let (verified, done) = appended r s s' e in
      (
        verified,
        elim done [
          | inl (x, known, json, digest, same) ↦ subst IsVerified same verified
          | inr (new, same) ↦ subst IsVerified same (extended-IsVerified r s verified new)
        ],
      )

module _ {co : Codec} (laws : CodecLaws co) where
  -- The row of the record that was appended.
  row_of-append :
      (r : ExperimentRecord) (s s' : Store co)
      → append co r s ≡ returned s'
      → (x : StoredRecord co) × (lookup r.experiment_id s'.experiments ≡ some x)
        × (x.record_json ≡ co.canonical_json r)
        × (x.record_hash ≡ co.canonical_sha256 r)
  row_of-append r s s' e = elim (appended r s s' e).1 [
    | inl (x, known, json, digest, same) ↦ (
      x,
      subst (λ (t : Store co). lookup r.experiment_id t.experiments ≡ some x) same known,
      (laws.same_json_iff x.record_json (co.canonical_json r)).0 json,
      digest,
    )
    | inr (new, same) ↦ (
      _,
      subst
          (λ (t : Store co).
            lookup r.experiment_id t.experiments
            ≡ some
                (record { record_json = co.canonical_json r; record_hash = co.canonical_sha256 r }))
          same (lookup-insert_self r.experiment_id _ s.experiments),
      refl,
      refl,
    )
  ]

  others_kept :
      (r : ExperimentRecord) (s s' : Store co) (i : ℕ)
      → append co r s ≡ returned s'
      → i ≢ r.experiment_id
      → lookup i s'.experiments ≡ lookup i s.experiments
  others_kept r s s' i e other = elim (appended r s s' e).1 [
    | inl (x, known, json, digest, same) ↦
        subst (λ (t : Store co). lookup i t.experiments ≡ lookup i s.experiments) same refl
    | inr (new, same) ↦
        subst (λ (t : Store co). lookup i t.experiments ≡ lookup i s.experiments) same
          (lookup-insert_ne r.experiment_id i _ s.experiments other)
  ]

  read_record-row :
      (r : ExperimentRecord) (s : Store co) (x : StoredRecord co)
      → lookup r.experiment_id s.experiments ≡ some x
      → x.record_json ≡ co.canonical_json r
      → x.record_hash ≡ co.canonical_sha256 r
      → read_record co r.experiment_id s ≡ returned r
  unfolding read_record
  read_record-row r s x found json digest =
      let read : co.model_validate_json x.record_json ≡ some r = rw json (laws.round_trip r) in
      let hashed : (co.canonical_sha256 r == x.record_hash) ≡ true =
        rw digest (==_refl (co.canonical_sha256 r)) in
      rw (found, read, hashed, read_record) refl

  -- After an append that returned, get of the record's ID returns the record, and get of any
  -- other ID what it did before.
  pub get-append :
      (r : ExperimentRecord) (s s' : Store co)
      → append co r s ≡ returned s'
      → (get co r.experiment_id s' ≡ returned r)
        × ((i : ℕ) → i ≢ r.experiment_id → get co i s' ≡ get co i s)
  unfolding get read_record
  get-append r s s' e =
      let (before, after) = append-IsVerified r s s' e in
      let (x, found, json, digest) = row_of-append r s s' e in
      let verified = (verify_chain_iff s).1 before in
      let verified' = (verify_chain_iff s').1 after in
      (
        rw (verified', get) (read_record-row r s' x found json digest),
        λ i other. rw (verified, verified', get, others_kept r s s' i e other, read_record) refl,
      )

  -- Appending the same record once more, after an append of it that returned, returns the store
  -- unchanged.
  pub append_idempotent :
      (r : ExperimentRecord) (s s' : Store co)
      → append co r s ≡ returned s'
      → append co r s' ≡ returned s'
  unfolding append append_verified
  append_idempotent r s s' e =
      let (before, after) = append-IsVerified r s s' e in
      let (x, found, json, digest) = row_of-append r s s' e in
      let verified' = (verify_chain_iff s').1 after in
      let same : co.same_json x.record_json (co.canonical_json r) ≡ true =
        (laws.same_json_iff x.record_json (co.canonical_json r)).1 json in
      let hashed : (x.record_hash == co.canonical_sha256 r) ≡ true =
        rw digest (==_refl (co.canonical_sha256 r)) in
      rw (verified', append) (rw (found, same, hashed, append_verified) refl)
