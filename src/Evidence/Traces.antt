-- ===== src/Evidence/Traces.antt =====
-- What the audit of a record's age and of a numeric claim (aegis/evidence/audit.py) requires.
use aegis_quant.Common.{
  ℕ, true, false, &&-true, some, List, [], ◌∷◌, ◌==◌, ==_iff, contains, is_empty, same_text_iff,
  has_text, In, Text, ◌≡◌, ◌↔◌, refl, sym, arith, inl, inr, Bool-cases, Option-cases,
}
use aegis_quant.Evidence.Calculations.{
  registered_calculation_identity, resolve_registered_calculation,
}
use aegis_quant.Evidence.Records.{
  Numbers, Claim, EvidenceRecord, EvidenceBundle, NumericClaim, EvidenceAuditPolicy,
}
use aegis_quant.Evidence.Audit.{is_stale, find_claim, find_record, is_registered, is_traced}

find_claim-In :
    (i : ℕ) (cs : List Claim) (c : Claim) → find_claim i cs ≡ some c → In c cs × (c.claim_id ≡ i)
unfolding find_claim
find_claim-In i [] c e = absurd (cc (e))
find_claim-In i (d ∷ cs) c e = elim (Option-cases (find_claim i cs)) [
  | inl nothing ↦ elim (Bool-cases (i == d.claim_id)) [
    | inl hit ↦
        let same : d ≡ c = cc (rw (nothing, hit) at e) in
        let named : i ≡ d.claim_id = (==_iff i d.claim_id).0 hit in
        (inl (sym same), cc (same, named))
    | inr miss ↦ absurd (cc (rw (nothing, miss) at e))
  ]
  | inr (q, later) ↦
      let same : q ≡ c = cc (rw later at e) in
      let (there, named) = find_claim-In i cs c (cc (later, same)) in (inr there, named)
]

module _ {nu : Numbers} where
  find_record-In :
      (i : ℕ) (rs : List (EvidenceRecord nu)) (r : EvidenceRecord nu)
      → find_record nu i rs ≡ some r
      → In r rs × (r.evidence_id ≡ i)
  unfolding find_record
  find_record-In i [] r e = absurd (cc (e))
  find_record-In i (d ∷ rs) r e = elim (Option-cases (find_record nu i rs)) [
    | inl nothing ↦ elim (Bool-cases (i == d.evidence_id)) [
      | inl hit ↦
          let same : d ≡ r = cc (rw (nothing, hit) at e) in
          let named : i ≡ d.evidence_id = (==_iff i d.evidence_id).0 hit in
          (inl (sym same), cc (same, named))
      | inr miss ↦ absurd (cc (rw (nothing, miss) at e))
    ]
    | inr (q, later) ↦
        let same : q ≡ r = cc (rw later at e) in
        let (there, named) = find_record-In i rs r (cc (later, same)) in (inr there, named)
  ]

  -- A record is at most as old as the policy allows, where the policy limits the age.
  abbrev pub IsFresh : EvidenceAuditPolicy nu → ℕ → EvidenceRecord nu → Type 0
  IsFresh p as_of r =
      (days : ℕ)
      → p.maximum_age_days ≡ some days
      → nu.fl.lt (nu.of_days days) (nu.age_days as_of r.available_at) ≡ false

  -- A calculation is registered for an entity of the record and under the claim's name, and its
  -- registered value is the claim's value.
  abbrev pub IsRegistered : EvidenceRecord nu → NumericClaim nu → ℕ → Type 0
  IsRegistered r n k =
      (ticker : Text) × (name : Text) × (value : Text) × (registered_calculation_identity
          (nu.text_of k)
        ≡ some (ticker, name))
      × (name ≡ n.name)
      × (has_text ticker r.entity_ids ≡ true)
      × (resolve_registered_calculation (nu.text_of k) ≡ some value)
      × (nu.same_decimal (nu.decimal value) n.value ≡ true)

  -- A numeric claim names a record of the bundle, a claim of the graph that cites this record,
  -- coordinates, and a registered calculation.
  abbrev pub IsTraced : EvidenceBundle nu → List Claim → NumericClaim nu → Type 0
  IsTraced b cs n =
      (r : EvidenceRecord nu) × (parent : Claim) × (k : ℕ) × (find_record nu n.evidence_id b.records
        ≡ some r)
      × In r b.records
      × (r.evidence_id ≡ n.evidence_id)
      × (find_claim n.claim_id cs ≡ some parent)
      × In parent cs
      × (parent.claim_id ≡ n.claim_id)
      × (n.calculation_id ≡ some k)
      × (contains n.evidence_id parent.evidence_ids ≡ true)
      × (is_empty n.coordinates ≡ false)
      × IsRegistered r n k

  pub IsFresh-iff :
      (p : EvidenceAuditPolicy nu) (as_of : ℕ) (r : EvidenceRecord nu)
      → (is_stale nu p as_of r ≡ false) ↔ IsFresh p as_of r
  unfolding is_stale
  IsFresh-iff p as_of r = elim (Option-cases p.maximum_age_days) [
    | inl nothing ↦ (λ _ days e. absurd (cc (nothing, e)), λ _. rw nothing refl)
    | inr (limit, there) ↦ (
      λ e days same.
          let eq : limit ≡ days = cc (there, same) in let here = rw there at e in rw (sym eq) here,
      λ h. rw there (h limit there),
    )
  ]

  IsRegistered-iff :
      (r : EvidenceRecord nu) (n : NumericClaim nu) (k : ℕ)
      → (is_registered nu r n k ≡ true) ↔ IsRegistered r n k
  unfolding is_registered
  IsRegistered-iff r n k = (
    λ e. elim (Option-cases (registered_calculation_identity (nu.text_of k))) [
      | inl nothing ↦ absurd (cc (rw (nothing, is_registered) at e))
      | inr ((ticker, name), known) ↦
          elim (Option-cases (resolve_registered_calculation (nu.text_of k))) [
            | inl nothing ↦ absurd (ground (arith, rw (known, nothing, is_registered) at e))
            | inr (value, resolved) ↦
                let h = rw (known, resolved, is_registered) at e in
                let (first, equal) = &&-true _ _ h in
                let (named, owned) = &&-true _ _ first in
                (
                  ticker,
                  name,
                  value,
                  known,
                  (same_text_iff name n.name).0 named,
                  owned,
                  resolved,
                  equal,
                )
          ]
    ],
    λ (ticker, name, value, known, named, owned, resolved, equal).
        rw (known, resolved, is_registered) (rw ((same_text_iff name n.name).1 named, owned) equal),
  )

  pub IsTraced-iff :
      (b : EvidenceBundle nu) (cs : List Claim) (n : NumericClaim nu)
      → (is_traced nu b cs n ≡ true) ↔ IsTraced b cs n
  unfolding is_traced
  IsTraced-iff b cs n = (
    λ e. elim (Option-cases (find_record nu n.evidence_id b.records)) [
      | inl nothing ↦ absurd (cc (rw (nothing, is_traced) at e))
      | inr (r, there) ↦ elim (Option-cases (find_claim n.claim_id cs)) [
        | inl nothing ↦ absurd (cc (rw (there, nothing, is_traced) at e))
        | inr (parent, claimed) ↦ elim (Option-cases n.calculation_id) [
          | inl nothing ↦ absurd (cc (rw (there, claimed, nothing, is_traced) at e))
          | inr (k, given) ↦
              let h = rw (there, claimed, given, is_traced) at e in
              let (first, known) = &&-true _ _ h in
              let (cited, placed) = &&-true _ _ first in
              let (r_in, r_id) = find_record-In n.evidence_id b.records r there in
              let (c_in, c_id) = find_claim-In n.claim_id cs parent claimed in
              (
                r,
                parent,
                k,
                there,
                r_in,
                r_id,
                claimed,
                c_in,
                c_id,
                given,
                cited,
                ground (arith, placed),
                (IsRegistered-iff r n k).0 known,
              )
        ]
      ]
    ],
    λ (r, parent, k, there, _, _, claimed, _, _, given, cited, placed, known).
        rw (there, claimed, given, is_traced)
          (rw (cited, placed) ((IsRegistered-iff r n k).1 known)),
  )
