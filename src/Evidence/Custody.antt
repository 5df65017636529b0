-- ===== src/Evidence/Custody.antt =====
-- Which evidence IDs the ledger of aegis/evidence/ledger.py answers with.
use aegis_quant.Common.{
  ℕ, ◌≤◌, Bool, true, false, not, &&-true, ◌||◌, some, List, [], ◌∷◌, ◌++◌, select, map, leb,
  leb→le, ◌==◌, ==_iff, contains, same_text_iff, All, In, ◌≡◌, refl, subst, sym, ap, ◌∙◌, ◌⊎◌, inl,
  inr, Bool-cases, Dict, lookup, lookup-All, IsDict, Call, returned, raised, >>=-returned, arith,
}
use aegis_quant.Evidence.Records.{
  Numbers, EvidenceRecord, default_policy, Severity, warning, blocker, FindingCode,
  unknown_claim_evidence, low_extraction_confidence, injection_flags_found, stale_evidence,
  material_claim_support_mismatch, numeric_provenance, AuditFinding, EvidenceAuditResult,
}
use aegis_quant.Evidence.Approval.{IsSound, approved_iff}
use aegis_quant.Evidence.Ledger.{
  EvidenceLedgerError, of_table, code_number, severity_number, same_bool, same_finding,
  same_findings, same_audit, EvidenceCase, recomputed, append, get, approved_ids_of,
  approved_ids_for_cases,
}
use aegis_quant.Sealed.Table.{Codec, CodecLaws, SealedError, Row, row_of, keep, read_one}
use aegis_quant.Sealed.Laws.{keep-Kept, IsDict-Kept}
use aegis_quant.Sealed.Views.{insert-All}
use aegis_quant.Sealed.Reads.{IsEntry, read_one-lookup, row_of-inj}

code_number-inj : (a b : FindingCode) → (code_number a == code_number b) ≡ true → a ≡ b
unfolding code_number
code_number-inj unknown_claim_evidence b e = ground (arith, e)
code_number-inj low_extraction_confidence b e = ground (arith, e)
code_number-inj injection_flags_found b e = ground (arith, e)
code_number-inj stale_evidence b e = ground (arith, e)
code_number-inj material_claim_support_mismatch b e = ground (arith, e)
code_number-inj numeric_provenance b e = ground (arith, e)

severity_number-inj : (a b : Severity) → (severity_number a == severity_number b) ≡ true → a ≡ b
unfolding severity_number
severity_number-inj warning b e = ground (arith, e)
severity_number-inj blocker b e = ground (arith, e)

same_finding-eq : (f g : AuditFinding) → same_finding f g ≡ true → f ≡ g
unfolding same_finding
same_finding-eq f g e =
    let (abc, d) = &&-true _ _ e in
    let (ab, c) = &&-true _ _ abc in
    let (a, b) = &&-true _ _ ab in
    let code = code_number-inj f.code g.code a in
    let severity = severity_number-inj f.severity g.severity b in
    let ids = (same_text_iff f.evidence_ids g.evidence_ids).0 c in
    let claims = (same_text_iff f.claim_ids g.claim_ids).0 d in cc (code, severity, ids, claims)

same_findings-eq : (fs gs : List AuditFinding) → same_findings fs gs ≡ true → fs ≡ gs
unfolding same_findings
same_findings-eq [] [] e = refl
same_findings-eq [] (g ∷ gs) e = cc
same_findings-eq (f ∷ fs) [] e = cc
same_findings-eq (f ∷ fs) (g ∷ gs) e =
    let (here, rest) = &&-true _ _ e in cc (same_finding-eq f g here, same_findings-eq fs gs rest)

same_bool-eq : (a b : Bool) → same_bool a b ≡ true → a ≡ b
unfolding same_bool
same_bool-eq true b e = sym e
same_bool-eq false b e = ground (arith, e)

same_audit-eq : (a b : EvidenceAuditResult) → same_audit a b ≡ true → a ≡ b
unfolding same_audit
same_audit-eq a b e =
    let (e₄, f) = &&-true _ _ e in
    let (e₃, c) = &&-true _ _ e₄ in
    let (e₂, i) = &&-true _ _ e₃ in
    let (k, y) = &&-true _ _ e₂ in
    let case_id = (==_iff a.case_id b.case_id).0 k in
    let approved = same_bool-eq a.approved b.approved y in
    let ids = (same_text_iff a.approved_evidence_ids b.approved_evidence_ids).0 i in
    let claims = (same_text_iff a.approved_claim_ids b.approved_claim_ids).0 c in
    let findings = same_findings-eq a.findings b.findings f in
    cc (case_id, approved, ids, claims, findings)

module _ {nu : Numbers} {co : Codec (EvidenceCase nu)} (laws : CodecLaws co) where
  -- The row of a case whose audit is the recomputed one.
  abbrev pub IsAudited : ℕ × Row co → Type 0
  IsAudited e = (c : EvidenceCase nu) × (e.1 ≡ row_of co c) × (c.audit ≡ recomputed nu c)

  abbrev pub IsLedger : Dict (Row co) → Type 0
  IsLedger cases = IsDict cases × All IsAudited cases

  append-parts :
      (c : EvidenceCase nu) (cases : Dict (Row co)) (p : ℕ × Dict (Row co))
      → append nu co c cases ≡ returned p
      → (c.audit ≡ recomputed nu c) × (keep co c.bundle.case_id c cases ≡ returned p.1)
  unfolding append
  append-parts c cases p e =
      elim (Bool-cases
        (not (c.bundle.case_id == c.graph.case_id) || not (c.bundle.case_id == c.audit.case_id))) [
          | inl differ ↦ absurd (cc (rw differ at e))
          | inr agree ↦ elim (Bool-cases (same_audit c.audit (recomputed nu c))) [
            | inl same ↦ (
              same_audit-eq c.audit (recomputed nu c) same,
              kept (keep co c.bundle.case_id c cases) (rw (agree, same) at e),
            )
            | inr other ↦ absurd (cc (rw (agree, other) at e))
          ]
        ]
    where
      kept :
          (m : Call SealedError (Dict (Row co)))
          → (elim m as (λ _. Call EvidenceLedgerError (ℕ × Dict (Row co))) [
            | raised why ↦ raised (of_table why)
            | returned cases' ↦ returned (co.canonical_sha256 c, cases')
          ])
            ≡ returned p
          → m ≡ returned p.1
      kept (raised why) h = absurd (cc (h))
      kept (returned cases') h = cc (h)

  pub append-IsLedger :
      (c : EvidenceCase nu) (cases : Dict (Row co)) (p : ℕ × Dict (Row co))
      → append nu co c cases ≡ returned p
      → IsLedger cases
      → IsLedger p.1
  append-IsLedger c cases p e (d, h) =
      let (audited, stored) = append-parts c cases p e in
      let kept = keep-Kept laws c.bundle.case_id c cases p.1 stored in
      (
        IsDict-Kept laws c.bundle.case_id c cases p.1 kept d,
        elim kept [
          | inl (known, same) ↦ subst (All IsAudited) same h
          | inr (new, same) ↦
              subst (All IsAudited) same
                (insert-All IsAudited c.bundle.case_id (row_of co c) cases (c, refl, audited) h)
        ],
      )

  entries : (cases : Dict (Row co)) → All IsAudited cases → All IsEntry cases
  entries [] h = tt
  entries (x ∷ cases) ((c, same, _), h) = ((c, same), entries cases h)

  -- A record that carries an evidence ID that a case vouches for at a time.
  abbrev pub Vouches : ℕ → ℕ → EvidenceCase nu → Type 0
  Vouches as_of i c =
      (IsSound c.bundle c.graph (default_policy nu))
      × ((r : EvidenceRecord nu) × In r c.bundle.records
          × (r.evidence_id ≡ i)
          × (r.available_at ≤ as_of))

  contains-select :
      (p : ℕ → Bool) (i : ℕ) (xs : List ℕ) → contains i (select p xs) ≡ true → contains i xs ≡ true
  contains-select p i [] e = cc
  contains-select p i (x ∷ xs) e = elim (Bool-cases (p x)) [
    | inl hit ↦ ground (arith, contains-select p i xs, rw hit at e)
    | inr miss ↦ ground (arith, contains-select p i xs, rw miss at e)
  ]

  available_record :
      (as_of i : ℕ) (rs : List (EvidenceRecord nu))
      → contains i (
          map
            (λ (r : EvidenceRecord nu). r.evidence_id)
            (select (λ (r : EvidenceRecord nu). leb r.available_at as_of) rs))
        ≡ true
      → (r : EvidenceRecord nu) × In r rs × (r.evidence_id ≡ i) × (r.available_at ≤ as_of)
  available_record as_of i [] e = absurd (cc (e))
  available_record as_of i (r ∷ rs) e = elim (Bool-cases (leb r.available_at as_of)) [
    | inl known ↦ elim (Bool-cases (i == r.evidence_id)) [
      | inl hit ↦ (r, inl refl, sym ((==_iff i r.evidence_id).0 hit), leb→le _ _ known)
      | inr miss ↦
          let (q, found, same, early) = available_record as_of i rs (rw (known, miss) at e) in
          (q, inr found, same, early)
    ]
    | inr later ↦
        let (q, found, same, early) = available_record as_of i rs (rw later at e) in
        (q, inr found, same, early)
  ]

  approved_ids_of-Vouches :
      (as_of i : ℕ) (c : EvidenceCase nu)
      → c.audit ≡ recomputed nu c
      → contains i (approved_ids_of nu co as_of c) ≡ true
      → Vouches as_of i c
  unfolding approved_ids_of
  approved_ids_of-Vouches as_of i c audited e = elim (Bool-cases c.audit.approved) [
    | inl approved ↦
        let approved' : (recomputed nu c).approved ≡ true =
          ap (λ (a : EvidenceAuditResult). a.approved) (sym audited) ∙ approved in
        let listed =
          contains-select (λ j. contains j c.audit.approved_evidence_ids) i
            (map (λ (r : EvidenceRecord nu). r.evidence_id)
              (select (λ (r : EvidenceRecord nu). leb r.available_at as_of) c.bundle.records))
            (rw approved at e) in
        (
          (approved_iff c.bundle c.graph (default_policy nu)).0.0 approved',
          available_record as_of i c.bundle.records listed,
        )
    | inr refused ↦ absurd (cc (rw refused at e))
  ]

  contains-append :
      (i : ℕ) (xs ys : List ℕ)
      → contains i (xs ++ ys) ≡ true
      → (contains i xs ≡ true) ⊎ (contains i ys ≡ true)
  contains-append i [] ys e = inr e
  contains-append i (x ∷ xs) ys e = elim (Bool-cases (i == x)) [
    | inl hit ↦ inl (rw hit refl)
    | inr miss ↦ rw miss (contains-append i xs ys (rw miss at e))
  ]

  -- On a ledger, every evidence ID that approved_ids_for_cases returns is vouched for by one of the
  -- cases asked for: the case is stored, an audit under the default policy approves its bundle and
  -- graph, and its bundle has a record with that ID which was available by the given time.
  pub approved_ids-Vouches :
      (as_of i : ℕ) (is : List ℕ) (cases : Dict (Row co)) (ids : List ℕ)
      → IsLedger cases
      → approved_ids_for_cases nu co as_of is cases ≡ returned ids
      → contains i ids ≡ true
      → (k : ℕ) × (c : EvidenceCase nu) × (contains k is ≡ true)
        × (lookup k cases ≡ some (row_of co c))
        × Vouches as_of i c
  unfolding approved_ids_for_cases get
  approved_ids-Vouches as_of i [] cases ids h e hit =
      let none_read : [] ≡ ids = cc (e) in
      absurd (cc (subst (λ xs. contains i xs ≡ true) (sym none_read) hit))
  approved_ids-Vouches as_of i (k ∷ is) cases ids h e hit =
      let (c, head, e') = >>=-returned (read_one co k cases) _ e in
      let (rest, tail, e'') = >>=-returned (approved_ids_for_cases nu co as_of is cases) _ e' in
      let both : (approved_ids_of nu co as_of c ++ rest) ≡ ids = cc (e'') in
      let stored = read_one-lookup laws k cases c (entries cases h.1) head in
      let (q, same, audited) = lookup-All IsAudited k cases (row_of co c) h.1 stored in
      let own : c.audit ≡ recomputed nu c =
        subst (λ x. x.audit ≡ recomputed nu x) (sym (row_of-inj laws c q same)) audited in
      elim (contains-append i (approved_ids_of nu co as_of c) rest
        (subst (λ xs. contains i xs ≡ true) (sym both) hit)) [
          | inl mine ↦ (k, c, ground arith, stored, approved_ids_of-Vouches as_of i c own mine)
          | inr other ↦
              let (j, d, listed, found, vouched) =
                approved_ids-Vouches as_of i is cases rest h tail other in
              (j, d, ground (arith, listed), found, vouched)
        ]
