-- ===== src/Evidence/Approval.antt =====
-- What an audit of aegis/evidence/audit.py approves.
use aegis_quant.Common.{
  ℕ, Bool, true, false, not, not-false, ◌&&◌, &&-true, List, [], ◌∷◌, ◌++◌, select, ◌==◌, ==_iff,
  ==_refl, contains, is_empty, All, ◌≡◌, ◌↔◌, refl, subst, sym, ◌∙◌, inl, inr, Bool-cases, arith,
}
use aegis_quant.Common.Sort.{sort_set, insert_key, contains-sort_set}
use aegis_quant.Evidence.Records.{
  Numbers, ClaimEdge, Claim, EvidenceRecord, EvidenceBundle, evidence_ids_of, NumericClaim,
  ClaimGraphSnapshot, EvidenceAuditPolicy, FindingCode, AuditFinding, unknown_claim_evidence,
  low_extraction_confidence, injection_flags_found, stale_evidence, material_claim_support_mismatch,
  numeric_provenance,
}
use aegis_quant.Evidence.Traces.{IsFresh, IsTraced, IsFresh-iff, IsTraced-iff}
use aegis_quant.Evidence.Audit.{
  is_subset, same_set, block, finding_if, collect, is_blocker, supporters, unknown_ids,
  audit_citation, is_stale, audit_record, audit_support, is_traced, audit_number, findings_of,
  audit_evidence,
}

-- No finding blocks.
abbrev is_clear : List AuditFinding → Bool
is_clear fs = is_empty (select (λ (f : AuditFinding). is_blocker f.severity) fs)

finding_if-clear :
    (test : Bool) (code : FindingCode) (es cs : List ℕ)
    → (is_clear (finding_if test (block code es cs)) ≡ true) ↔ (test ≡ false)
unfolding finding_if is_blocker
finding_if-clear true code es cs = (λ e. cc (e), λ e. cc (e))
finding_if-clear false code es cs = (λ _. refl, λ _. refl)

append-clear :
    (fs gs : List AuditFinding)
    → (is_clear (fs ++ gs) ≡ true) ↔ ((is_clear fs ≡ true) × (is_clear gs ≡ true))
append-clear [] gs = (λ e. (refl, e), λ h. h.1)
append-clear (f ∷ fs) gs =
    let (into, out) = append-clear fs gs in
    elim (Bool-cases (is_blocker f.severity)) [
      | inl hit ↦ rw hit (λ e. cc (e), λ h. cc (h.0))
      | inr miss ↦ rw miss (into, out)
    ]

collect-clear :
    {A : Type 0} (f : A → List AuditFinding) (P : A → Type 0) (xs : List A)
    → ((x : A) → (is_clear (f x) ≡ true) ↔ P x)
    → (is_clear (collect f xs) ≡ true) ↔ All P xs
unfolding collect
collect-clear f P [] each = (λ _. tt, λ _. refl)
collect-clear f P (x ∷ xs) each =
    let (into, out) = collect-clear f P xs each in
    let (split, join) = append-clear (f x) (collect f xs) in
    (λ e. ((each x).0 (split e).0, into (split e).1), λ h. join ((each x).1 h.0, out h.1))

insert_key-not_empty : (k : ℕ) (xs : List ℕ) → is_empty (insert_key k xs) ≡ false
insert_key-not_empty k [] = refl
insert_key-not_empty k (x ∷ xs) = ground arith

cited_iff :
    (known ids : List ℕ)
    → (is_empty (sort_set (select (λ i. not (contains i known)) ids)) ≡ true)
      ↔ All (λ i. contains i known ≡ true) ids
cited_iff known [] = (λ _. tt, λ _. refl)
cited_iff known (i ∷ ids) =
    let (into, out) = cited_iff known ids in
    elim (Bool-cases (contains i known)) [
      | inl hit ↦ rw hit (λ e. (refl, into e), λ h. out h.1)
      | inr miss ↦ rw miss (
        λ e.
            absurd (
              cc (e, insert_key-not_empty i (sort_set (select (λ j. not (contains j known)) ids)))),
        λ h. absurd (cc (h.0)),
      )
    ]

pub is_subset_lem :
    (xs ys : List ℕ) (i : ℕ) → is_subset xs ys ≡ true → contains i xs ≡ true → contains i ys ≡ true
is_subset_lem [] ys i h e = cc
is_subset_lem (x ∷ xs) ys i h e =
    let (here, rest) = &&-true (contains x ys) (is_subset xs ys) h in
    elim (Bool-cases (i == x)) [
      | inl hit ↦ subst (λ j. contains j ys ≡ true) (sym ((==_iff i x).0 hit)) here
      | inr miss ↦ is_subset_lem xs ys i rest (rw miss at e)
    ]

is_subset_back :
    (xs ys : List ℕ)
    → ((i : ℕ) → contains i xs ≡ true → contains i ys ≡ true)
    → is_subset xs ys ≡ true
is_subset_back [] ys h = refl
is_subset_back (x ∷ xs) ys h =
    let here : contains x ys ≡ true = h x (rw (==_refl x) refl) in
    let later : (i : ℕ) → contains i xs ≡ true → contains i ys ≡ true =
      λ i e. h i (elim (Bool-cases (i == x)) [ inl hit ↦ rw hit refl | inr miss ↦ rw miss e ]) in
    rw here (is_subset_back xs ys later)

same_truth : (a b : Bool) → (a ≡ true → b ≡ true) → (b ≡ true → a ≡ true) → a ≡ b
same_truth true b f g = sym (f refl)
same_truth false true f g = g refl
same_truth false false f g = refl

-- Two lists are equal as sets if they have the same members.
same_set_iff :
    (xs ys : List ℕ) → (same_set xs ys ≡ true) ↔ ((i : ℕ) → contains i xs ≡ contains i ys)
same_set_iff xs ys = (
  λ e i.
      let (left, right) = &&-true (is_subset xs ys) (is_subset ys xs) e in
      same_truth (contains i xs) (contains i ys) (is_subset_lem xs ys i left)
        (is_subset_lem ys xs i right),
  λ h.
      let left = is_subset_back xs ys (λ i e. sym (h i) ∙ e) in
      let right = is_subset_back ys xs (λ i e. h i ∙ e) in rw left right,
)

-- What the audit requires of a claim's citations, of a record, of a material claim's support.
abbrev pub IsCited : List ℕ → Claim → Type 0
IsCited known c = All (λ i. contains i known ≡ true) c.evidence_ids

abbrev pub IsSupported : List ClaimEdge → Claim → Type 0
IsSupported es c =
    c.material ≡ true → (i : ℕ) → contains i (supporters c.claim_id es) ≡ contains i c.evidence_ids

citation_iff :
    (known : List ℕ) (c : Claim) → (is_clear (audit_citation known c) ≡ true) ↔ IsCited known c
unfolding audit_citation unknown_ids
citation_iff known c =
    let (test, back) =
      finding_if-clear (not (is_empty (unknown_ids known c))) unknown_claim_evidence
        (unknown_ids known c) (c.claim_id ∷ []) in
    let (into, out) = cited_iff known c.evidence_ids in
    (λ e. into (not-false _ (test e)), λ h. back (rw (out h) refl))

support_iff :
    (es : List ClaimEdge) (c : Claim) → (is_clear (audit_support es c) ≡ true) ↔ IsSupported es c
unfolding audit_support
support_iff es c =
    let same = same_set (supporters c.claim_id es) c.evidence_ids in
    let (test, back) =
      finding_if-clear (c.material && not same) material_claim_support_mismatch []
        (c.claim_id ∷ []) in
    let (into, out) = same_set_iff (supporters c.claim_id es) c.evidence_ids in
    elim (Bool-cases c.material) [
      | inl material ↦ (
        λ e m. into (not-false same (rw material at (test e))),
        λ h. back (rw (material, out (h material)) refl),
      )
      | inr minor ↦ (λ e m. absurd (cc (m, minor)), λ h. back (rw minor refl))
    ]

module _ {nu : Numbers} where
  abbrev pub IsUsable : EvidenceAuditPolicy nu → ℕ → EvidenceRecord nu → Type 0
  IsUsable p as_of r =
      (nu.fl.lt r.extraction_confidence p.minimum_extraction_confidence ≡ false)
      × ((p.block_injection_flags && not (is_empty r.injection_flags)) ≡ false)
      × IsFresh p as_of r

  abbrev pub IsSound : EvidenceBundle nu → ClaimGraphSnapshot nu → EvidenceAuditPolicy nu → Type 0
  IsSound b g p =
      All (IsCited (evidence_ids_of nu b)) g.claims
      × All (IsUsable p b.as_of) b.records
      × All (IsSupported g.edges) g.claims
      × All (IsTraced b g.claims) g.numeric_claims

  record_iff :
      (p : EvidenceAuditPolicy nu) (as_of : ℕ) (r : EvidenceRecord nu)
      → (is_clear (audit_record nu p as_of r) ≡ true) ↔ IsUsable p as_of r
  unfolding audit_record
  record_iff p as_of r =
      let low = nu.fl.lt r.extraction_confidence p.minimum_extraction_confidence in
      let flagged = p.block_injection_flags && not (is_empty r.injection_flags) in
      let stale = is_stale nu p as_of r in
      let (a, a') = finding_if-clear low low_extraction_confidence (r.evidence_id ∷ []) [] in
      let (b, b') = finding_if-clear flagged injection_flags_found (r.evidence_id ∷ []) [] in
      let (c, c') = finding_if-clear stale stale_evidence (r.evidence_id ∷ []) [] in
      let (split, join) =
        append-clear (finding_if low (block low_extraction_confidence (r.evidence_id ∷ []) [])) (
          finding_if flagged (block injection_flags_found (r.evidence_id ∷ []) [])
          ++ finding_if stale (block stale_evidence (r.evidence_id ∷ []) [])) in
      let (split', join') =
        append-clear (finding_if flagged (block injection_flags_found (r.evidence_id ∷ []) []))
          (finding_if stale (block stale_evidence (r.evidence_id ∷ []) [])) in
      (
        λ e. (
          a (split e).0,
          b (split' (split e).1).0,
          (IsFresh-iff p as_of r).0 (c (split' (split e).1).1),
        ),
        λ h. join (a' h.0, join' (b' h.1, c' ((IsFresh-iff p as_of r).1 h.2))),
      )

  number_iff :
      (b : EvidenceBundle nu) (cs : List Claim) (n : NumericClaim nu)
      → (is_clear (audit_number nu b cs n) ≡ true) ↔ IsTraced b cs n
  unfolding audit_number
  number_iff b cs n =
      let (test, back) =
        finding_if-clear (not (is_traced nu b cs n)) numeric_provenance (n.evidence_id ∷ [])
          (n.claim_id ∷ []) in
      (
        λ e. (IsTraced-iff b cs n).0 (not-false _ (test e)),
        λ h. back (rw ((IsTraced-iff b cs n).1 h) refl),
      )

  findings_iff :
      (b : EvidenceBundle nu) (g : ClaimGraphSnapshot nu) (p : EvidenceAuditPolicy nu)
      → (is_clear (findings_of nu b g p) ≡ true) ↔ IsSound b g p
  unfolding findings_of
  findings_iff b g p =
      let cites = collect (audit_citation (evidence_ids_of nu b)) g.claims in
      let uses = collect (audit_record nu p b.as_of) b.records in
      let holds = collect (audit_support g.edges) g.claims in
      let traces = collect (audit_number nu b g.claims) g.numeric_claims in
      let (s₁, j₁) = append-clear cites (uses ++ (holds ++ traces)) in
      let (s₂, j₂) = append-clear uses (holds ++ traces) in
      let (s₃, j₃) = append-clear holds traces in
      let (a, a') = collect-clear _ _ g.claims (citation_iff (evidence_ids_of nu b)) in
      let (u, u') = collect-clear _ _ b.records (record_iff p b.as_of) in
      let (h, h') = collect-clear _ _ g.claims (support_iff g.edges) in
      let (t, t') = collect-clear _ _ g.numeric_claims (number_iff b g.claims) in
      (
        λ e.
            let e₂ = (s₁ e).1 in
            let e₃ = (s₂ e₂).1 in (a (s₁ e).0, u (s₂ e₂).0, h (s₃ e₃).0, t (s₃ e₃).1),
        λ q. j₁ (a' q.0, j₂ (u' q.1, j₃ (h' q.2, t' q.3))),
      )

  -- An audit approves a case exactly if every cited evidence ID is in the bundle, every record is
  -- confident enough, not flagged where flags block, and no older than the policy allows, the
  -- evidence of every material claim is exactly that of its SUPPORTS edges, and every numeric claim
  -- has coordinates, is of a record of the bundle that its parent claim cites, and names a
  -- calculation that is registered for an entity of this record and under the claim's name, and
  -- whose registered value equals the claim's value. The audit then approves exactly the evidence IDs of the bundle, and
  -- otherwise none.
  pub approved_iff :
      (b : EvidenceBundle nu) (g : ClaimGraphSnapshot nu) (p : EvidenceAuditPolicy nu)
      → (((audit_evidence nu b g p).approved ≡ true) ↔ IsSound b g p)
        × ((i : ℕ)
            → contains i (audit_evidence nu b g p).approved_evidence_ids
              ≡ ((audit_evidence nu b g p).approved && contains i (evidence_ids_of nu b)))
  unfolding audit_evidence
  approved_iff b g p = (
    findings_iff b g p,
    λ i. elim (Bool-cases (is_clear (findings_of nu b g p))) [
      | inl clear ↦ rw clear (contains-sort_set i (evidence_ids_of nu b))
      | inr blocked ↦ rw blocked refl
    ],
  )
