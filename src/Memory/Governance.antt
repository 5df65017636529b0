-- ===== src/Memory/Governance.antt =====
-- What a decision of `LocalMemoryBackend.decide` (aegis/memory/local_backend.py) rests on.
use aegis_quant.Common.{
  ℕ, ◌+◌, ◌≤◌, ◌<◌, true, false, not-==-false, ==-false, Option, none, some, List, [], ◌∷◌, any,
  ltb, ltb-false, leb-false, contains, if◌then◌else◌, check_all, check_all_iff, Dict, lookup, ◌≡◌,
  ◌≢◌, refl, subst, inl, inr, Bool-cases, Option-cases, Call, returned, raised, >>=-returned,
}
use aegis_quant.Num.{FloatOps}
use aegis_quant.Evidence.Records.{Numbers}
use aegis_quant.Evidence.Audit.{is_subset}
use aegis_quant.Evidence.Approval.{is_subset_lem}
use aegis_quant.Evidence.Ledger.{EvidenceCase, approved_ids_for_cases}
use aegis_quant.Evidence.Custody.{IsLedger, Vouches, approved_ids-Vouches}
use aegis_quant.Memory.Relations.{approved}
use aegis_quant.Memory.Records.{approve, MemoryCandidate, MemoryGovernanceDecision, MemoryItem}
use aegis_quant.Memory.Backend.{
  already_decided, is_approve, Backend, find_candidate, decision_guards, check_evidence,
  check_approval, last_version, item_of, new_item, record_decision, is_decided, decide, is_taken,
}
use aegis_quant.Sealed.Table.{Codec, CodecLaws, SealedError, Row, row_of}

-- What every decision that is recorded satisfies.
abbrev pub IsIndependent : {fl : FloatOps} → MemoryGovernanceDecision → MemoryCandidate fl → Type 0
IsIndependent d c =
    (c.content_hash ≡ d.candidate_hash)
    × (c.proposer_id ≢ d.evaluator_id)
    × (c.created_at ≤ d.decided_at)
    × (d.decided_at < c.expires_at)

module _ {nu : Numbers} {cc' : Codec (MemoryCandidate nu.fl)} {ic : Codec (MemoryItem nu.fl)}
    {ec : Codec (EvidenceCase nu)} where
  -- The new tables: the decision, and the item if there is one, on top of those before.
  abbrev pub Recorded :
      MemoryGovernanceDecision
      → Option (MemoryItem nu.fl)
      → Backend nu cc' ic ec
      → Option (MemoryItem nu.fl) × Backend nu cc' ic ec
      → Type 0
  Recorded d item b p =
      (p.0 ≡ item)
      × (p.1.candidates ≡ b.candidates)
      × (p.1.evidence_ledger ≡ b.evidence_ledger)
      × (p.1.decisions ≡ d ∷ b.decisions)
      × (p.1.items ≡ elim item [
        | none ↦ b.items
        | some m ↦
            record { memory_id = m.memory_id; version = m.version; row = row_of ic m } ∷ b.items
      ])

  record_decision-Recorded :
      (d : MemoryGovernanceDecision) (item : Option (MemoryItem nu.fl)) (b : Backend nu cc' ic ec)
      (p : Option (MemoryItem nu.fl) × Backend nu cc' ic ec)
      → record_decision nu cc' ic ec d item b ≡ returned p
      → Recorded d item b p
  unfolding record_decision
  record_decision-Recorded d item b p e = elim (Bool-cases (any (is_taken d) b.decisions)) [
    | inl taken ↦ absurd (cc (rw taken at e))
    | inr room ↦
        let same : (
          item,
          record b {
            decisions = d ∷ b.decisions;
            items = elim item [
              | none ↦ b.items
              | some m ↦
                  record { memory_id = m.memory_id; version = m.version; row = row_of ic m }
                  ∷ b.items
            ];
          },
        )
            ≡ p =
          cc (rw room at e) in
        subst (λ q. Recorded d item b q) same (refl, refl, refl, refl, refl)
  ]

  pub decide-parts :
      (d : MemoryGovernanceDecision) (b : Backend nu cc' ic ec)
      (p : Option (MemoryItem nu.fl) × Backend nu cc' ic ec)
      → decide nu cc' ic ec d b ≡ returned p
      → (c : MemoryCandidate nu.fl) × (find_candidate nu cc' ic ec d.candidate_id b ≡ returned c)
        × IsIndependent d c
        × (is_decided nu cc' ic ec c.candidate_id b ≡ false)
        × (is_approve d.decision ≡ true → check_approval nu cc' ic ec d c b ≡ returned tt)
        × Recorded d (new_item nu cc' ic ec d c b) b p
  unfolding decide
  decide-parts d b p e =
      let (c, found, e₁) = >>=-returned (find_candidate nu cc' ic ec d.candidate_id b) _ e in
      let (_, guards, e₂) = >>=-returned (check_all (decision_guards nu cc' ic ec d c)) _ e₁ in
      let (_, approval, e₃) =
        >>=-returned
          (if is_approve d.decision then check_approval nu cc' ic ec d c b else returned tt) _ e₂ in
      let (_, fresh, e₄) =
        >>=-returned (check_all ((is_decided nu cc' ic ec c.candidate_id b, already_decided) ∷ []))
          _ e₃ in
      let (bound, (other, (late, (alive, _)))) =
        (check_all_iff (decision_guards nu cc' ic ec d c)).0 guards in
      (
        c,
        found,
        (not-==-false _ _ bound, ==-false _ _ other, ltb-false _ _ late, leb-false _ _ alive),
        ((check_all_iff ((is_decided nu cc' ic ec c.candidate_id b, already_decided) ∷ [])).0
            fresh).0,
        λ yes_approve. rw yes_approve at approval,
        record_decision-Recorded d (new_item nu cc' ic ec d c b) b p e₄,
      )

  check_approval-returned :
      (d : MemoryGovernanceDecision) (c : MemoryCandidate nu.fl) (b : Backend nu cc' ic ec)
      → check_approval nu cc' ic ec d c b ≡ returned tt
      → (d.decided_at ≤ c.review_by)
        × (cases : Dict (Row ec)) × (b.evidence_ledger ≡ some cases)
        × (ids : List ℕ) × (approved_ids_for_cases nu ec d.decided_at c.source_case_ids cases
            ≡ returned ids)
        × (is_subset c.evidence_ids ids ≡ true)
  unfolding check_approval check_evidence
  check_approval-returned d c b e = elim (Bool-cases (ltb c.review_by d.decided_at)) [
    | inl late ↦ absurd (cc (rw late at e))
    | inr early ↦ elim (Option-cases b.evidence_ledger) [
      | inl missing ↦ absurd (cc (rw (early, missing) at e))
      | inr (cases, there) ↦
          let (ids, answer, inside) =
            answered (approved_ids_for_cases nu ec d.decided_at c.source_case_ids cases)
              (rw (early, there) at e) in
          (ltb-false _ _ early, cases, there, ids, answer, inside)
    ]
  ]
    where
      answered :
          (m : Call SealedError (List ℕ))
          → check_evidence nu cc' ic ec c m ≡ returned tt
          → (ids : List ℕ) × (m ≡ returned ids) × (is_subset c.evidence_ids ids ≡ true)
      answered (raised why) h = absurd (cc (h))
      answered (returned ids) h = elim (Bool-cases (is_subset c.evidence_ids ids)) [
        | inl hit ↦ (ids, refl, hit)
        | inr miss ↦ absurd (cc (rw miss at h))
      ]

  new_item-approve :
      (d : MemoryGovernanceDecision) (c : MemoryCandidate nu.fl) (b : Backend nu cc' ic ec)
      → d.decision ≡ approve
      → new_item nu cc' ic ec d c b
        ≡ some
            (item_of nu cc' ic ec d c approved (last_version nu cc' ic ec c.memory_id b.items + 1))
  unfolding new_item
  new_item-approve d c b e = rw e refl

  evidence-Vouches :
      (laws : CodecLaws ec) (d : MemoryGovernanceDecision) (c : MemoryCandidate nu.fl)
      (b : Backend nu cc' ic ec) (i : ℕ)
      → ((cases : Dict (Row ec)) → b.evidence_ledger ≡ some cases → IsLedger laws cases)
      → check_approval nu cc' ic ec d c b ≡ returned tt
      → contains i c.evidence_ids ≡ true
      → (cases : Dict (Row ec)) × (k : ℕ) × (x : EvidenceCase nu) × (b.evidence_ledger ≡ some cases)
        × (contains k c.source_case_ids ≡ true)
        × (lookup k cases ≡ some (row_of ec x))
        × Vouches laws d.decided_at i x
  evidence-Vouches laws d c b i h e listed =
      let (early, cases, there, ids, answer, inside) = check_approval-returned d c b e in
      let (k, x, asked, stored, vouched) =
        approved_ids-Vouches laws d.decided_at i c.source_case_ids cases ids (h cases there) answer
          (is_subset_lem c.evidence_ids ids i inside listed) in
      (cases, k, x, there, asked, stored, vouched)

  -- When the evidence ledger holds audited cases, a decision to approve that goes through is
  -- about a stored candidate with the hash it names, comes from someone other than the proposer,
  -- between the candidate's creation and its expiry and no later than its review date, and is the
  -- first for this candidate; each evidence ID of the candidate is vouched for, at the time of the
  -- decision, by a case that the evidence ledger stores under one of the candidate's source case
  -- IDs and that an audit approves; and the tables grow by the decision and by one
  -- approved item, whose version is one above the last of this memory.
  pub decide-IsIndependent :
      (laws : CodecLaws ec) (d : MemoryGovernanceDecision) (b : Backend nu cc' ic ec)
      (p : Option (MemoryItem nu.fl) × Backend nu cc' ic ec)
      → ((cases : Dict (Row ec)) → b.evidence_ledger ≡ some cases → IsLedger laws cases)
      → d.decision ≡ approve
      → decide nu cc' ic ec d b ≡ returned p
      → (c : MemoryCandidate nu.fl) × (find_candidate nu cc' ic ec d.candidate_id b ≡ returned c)
        × IsIndependent d c
        × (d.decided_at ≤ c.review_by)
        × (is_decided nu cc' ic ec c.candidate_id b ≡ false)
        × ((i : ℕ)
            → contains i c.evidence_ids ≡ true
            → (cases : Dict (Row ec)) × (k : ℕ) × (x : EvidenceCase nu) × (b.evidence_ledger
                ≡ some cases)
              × (contains k c.source_case_ids ≡ true)
              × (lookup k cases ≡ some (row_of ec x))
              × Vouches laws d.decided_at i x)
        × Recorded d
            (some (
              item_of nu cc' ic ec d c approved
                (last_version nu cc' ic ec c.memory_id b.items + 1)))
            b
            p
  unfolding is_approve
  decide-IsIndependent laws d b p h verdict e =
      let (c, found, own, fresh, approval, after) = decide-parts d b p e in
      let checked = approval (rw verdict refl) in
      (
        c,
        found,
        own,
        (check_approval-returned d c b checked).0,
        fresh,
        λ i listed. evidence-Vouches laws d c b i h checked listed,
        subst (λ m. Recorded d m b p) (new_item-approve d c b verdict) after,
      )
