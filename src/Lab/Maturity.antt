-- ===== src/Lab/Maturity.antt =====
-- What the ledger of outcomes (aegis/research_lab/outcomes.py) holds after any calls.
use aegis_quant.Common.{
  ℕ, false, ◌||◌, ||-false, List, [], ◌∷◌, ltb, ltb-false, any, is_empty, map, All, In, contains,
  ◌≡◌, ◌↔◌, ◌≤◌, refl, subst, sym, inl, inr, Bool-cases, Dict, IsDict, lookup-All, none, some, Call,
  returned, raised, arith,
}
use aegis_quant.Common.Sort.{sort_keys, contains-sort_keys}
use aegis_quant.Num.{FloatOps}
use aegis_quant.Sealed.Table.{Codec, CodecLaws, SealedError, Row, row_of, keep}
use aegis_quant.Sealed.Laws.{keep-Kept, IsDict-Kept}
use aegis_quant.Sealed.Views.{insert-All}
use aegis_quant.Sealed.Reads.{IsEntry, read_all_iff, row_of-inj}
use aegis_quant.Lab.Outcomes.{
  OutcomeError, of_table, OutcomeRecord, PostmortemReport, OutcomeLedger, append_outcome,
  append_postmortem, outcomes, build_postmortem,
}

module _ {fl : FloatOps} (oc : Codec (OutcomeRecord fl)) (pc : Codec (PostmortemReport fl)) where
  -- A call of one of the two methods.
  pub data Append : Type 0 where
    an_outcome : OutcomeRecord fl → Append
    a_postmortem : PostmortemReport fl → Append

  abbrev pub run_one : Append → OutcomeLedger fl oc pc → Call OutcomeError (OutcomeLedger fl oc pc)
  run_one (an_outcome o) s = append_outcome fl oc pc o s
  run_one (a_postmortem r) s = append_postmortem fl oc pc r s

  abbrev pub after :
      OutcomeLedger fl oc pc → Call OutcomeError (OutcomeLedger fl oc pc) → OutcomeLedger fl oc pc
  after s (returned s') = s'
  after s (raised _) = s

  -- The ledger after calls, of which those that raise leave it as it was.
  abbrev pub run_all : List Append → OutcomeLedger fl oc pc → OutcomeLedger fl oc pc
  run_all [] s = s
  run_all (c ∷ cs) s = run_all cs (after s (run_one c s))

  abbrev pub empty : OutcomeLedger fl oc pc
  empty = record { outcomes = []; postmortems = [] }

module _ {fl : FloatOps} where
  abbrev IsMature : OutcomeRecord fl → Type 0
  IsMature o = o.horizon_end ≤ o.available_at

module _ {fl : FloatOps} {oc : Codec (OutcomeRecord fl)} where
  abbrev IsMatureEntry : ℕ × Row oc → Type 0
  IsMatureEntry e = (o : OutcomeRecord fl) × (e.1 ≡ row_of oc o) × IsMature o

  abbrev IsMatureTable : Dict (Row oc) → Type 0
  IsMatureTable table = IsDict table × All IsMatureEntry table

module _ {fl : FloatOps} {oc : Codec (OutcomeRecord fl)} (laws : CodecLaws oc) where
  keep-IsMatureTable :
      (o : OutcomeRecord fl) (table table' : Dict (Row oc))
      → keep oc o.outcome_id o table ≡ returned table'
      → IsMature o
      → IsMatureTable table
      → IsMatureTable table'
  keep-IsMatureTable o table table' e m (d, h) =
      let kept = keep-Kept laws o.outcome_id o table table' e in
      (
        IsDict-Kept laws o.outcome_id o table table' kept d,
        elim kept [
          | inl (known, same) ↦ subst (All IsMatureEntry) same h
          | inr (new, same) ↦
              subst (All IsMatureEntry) same
                (insert-All IsMatureEntry o.outcome_id (row_of oc o) table (o, refl, m) h)
        ],
      )

module _ {fl : FloatOps} {oc : Codec (OutcomeRecord fl)} (laws : CodecLaws oc)
    (pc : Codec (PostmortemReport fl)) where
  outcome_step :
      (o : OutcomeRecord fl) (s : OutcomeLedger fl oc pc)
      → IsMatureTable s.outcomes
      → IsMatureTable (after oc pc s (append_outcome fl oc pc o s)).outcomes
  unfolding append_outcome
  outcome_step o s h = elim (Bool-cases (ltb o.available_at o.horizon_end)) [
    | inl early ↦ rw early h
    | inr mature ↦ rw mature (go (ltb-false _ _ mature) (keep oc o.outcome_id o s.outcomes) refl)
  ]
    where
      go :
          IsMature o
          → (c : Call SealedError (Dict (Row oc))) → keep oc o.outcome_id o s.outcomes ≡ c
          → IsMatureTable
              (after oc pc s (elim c [
                | raised why ↦ raised (of_table why)
                | returned table ↦ returned (record s { outcomes = table })
              ])).outcomes
      go m (raised why) e = h
      go m (returned table) e = keep-IsMatureTable laws o s.outcomes table e m h

  postmortem_step :
      (r : PostmortemReport fl) (s : OutcomeLedger fl oc pc)
      → (after oc pc s (append_postmortem fl oc pc r s)).outcomes ≡ s.outcomes
  unfolding append_postmortem
  postmortem_step r s = go (keep pc r.report_id r s.postmortems)
    where
      go :
          (c : Call SealedError (Dict (Row pc)))
          → (after oc pc s (elim c [
            | raised why ↦ raised (of_table why)
            | returned table ↦ returned (record s { postmortems = table })
          ])).outcomes
            ≡ s.outcomes
      go (raised why) = refl
      go (returned table) = refl

  run_all-IsMatureTable :
      (cs : List (Append oc pc)) (s : OutcomeLedger fl oc pc)
      → IsMatureTable s.outcomes
      → IsMatureTable (run_all oc pc cs s).outcomes
  run_all-IsMatureTable [] s h = h
  run_all-IsMatureTable (an_outcome o ∷ cs) s h =
      run_all-IsMatureTable cs (after oc pc s (append_outcome fl oc pc o s)) (outcome_step o s h)
  run_all-IsMatureTable (a_postmortem r ∷ cs) s h =
      run_all-IsMatureTable cs (after oc pc s (append_postmortem fl oc pc r s))
        (subst IsMatureTable (sym (postmortem_step r s)) h)

  entries_sealed : (table : Dict (Row oc)) → All IsMatureEntry table → All IsEntry table
  entries_sealed [] h = tt
  entries_sealed (x ∷ table) ((o, same, _), h) = ((o, same), entries_sealed table h)

  -- Whatever outcomes and postmortems a new ledger is given, by calls of which some may raise, its
  -- outcomes are read without an exception, and each became available no earlier than its horizon
  -- ended.
  pub outcomes-IsMature :
      (cs : List (Append oc pc))
      → (os : List (OutcomeRecord fl)) × (outcomes fl oc pc (run_all oc pc cs (empty oc pc))
          ≡ returned os)
        × ((o : OutcomeRecord fl) → In o os → o.horizon_end ≤ o.available_at)
  unfolding outcomes
  outcomes-IsMature cs =
      let s = run_all oc pc cs (empty oc pc) in
      let (d, h) = run_all-IsMatureTable cs (empty oc pc) (tt, tt) in
      let (os, read, exact) = read_all_iff laws s.outcomes (d, entries_sealed s.outcomes h) in
      (
        os,
        read,
        λ o i.
            let (k, found) = (exact o).0 i in
            let (q, same, mature) = lookup-All IsMatureEntry k s.outcomes (row_of oc o) h found in
            subst IsMature (sym (row_of-inj laws o q same)) mature,
      )

module _ {fl : FloatOps} (of_length : ℕ → fl.F) where
  all_known :
      (at : ℕ) (os : List (OutcomeRecord fl))
      → (any (λ (o : OutcomeRecord fl). ltb at o.available_at) os ≡ false)
        ↔ All (λ o. o.available_at ≤ at) os
  all_known at [] = (λ _. tt, λ _. refl)
  all_known at (o ∷ os) =
      let (into, out) = all_known at os in
      (
        λ e.
            let (here, rest) =
              ||-false (ltb at o.available_at)
                (any (λ (q : OutcomeRecord fl). ltb at q.available_at) os) e in
            (ltb-false _ _ here, into rest),
        λ h.
            let here : ltb at o.available_at ≡ false = ground (arith, h.0) in
            rw (here, out h.1) refl,
      )

  -- A postmortem is built exactly from outcomes of which there is at least one and none became
  -- available after the time of the report; it names exactly their IDs and has that time.
  pub build_postmortem_iff :
      (report_id at : ℕ) (os : List (OutcomeRecord fl)) (candidates : List ℕ)
      → ((build_postmortem fl of_length report_id os at candidates ≡ none)
          ↔ ¬ ((is_empty os ≡ false) × All (λ o. o.available_at ≤ at) os))
        × ((r : PostmortemReport fl)
            → build_postmortem fl of_length report_id os at candidates ≡ some r
            → (r.produced_at ≡ at)
              × ((i : ℕ)
                  → contains i r.outcome_ids
                    ≡ contains i (map (λ (o : OutcomeRecord fl). o.outcome_id) os)))
  unfolding build_postmortem
  build_postmortem_iff report_id at os candidates =
      elim (Bool-cases (is_empty os || any (λ (o : OutcomeRecord fl). ltb at o.available_at) os)) [
        | inl refused ↦ rw refused (
          (λ _ ok. cc (refused, ok.0, (all_known at os).1 ok.1), λ _. refl),
          λ r e. absurd (cc (e)),
        )
        | inr made ↦
            let (some_given, known) =
              ||-false (is_empty os) (any (λ (o : OutcomeRecord fl). ltb at o.available_at) os)
                made in
            let good = (all_known at os).0 known in
            rw made (
              (λ e. absurd (cc (e)), λ bad. absurd (bad (some_given, good))),
              λ r e.
                  let time : at ≡ r.produced_at = cc (e) in
                  let ids : sort_keys (map (λ (o : OutcomeRecord fl). o.outcome_id) os)
                      ≡ r.outcome_ids =
                    cc (e) in
                  (
                    sym time,
                    λ i.
                        subst
                          (λ l.
                            contains i l
                            ≡ contains i (map (λ (o : OutcomeRecord fl). o.outcome_id) os))
                          ids
                          (contains-sort_keys i (map (λ (o : OutcomeRecord fl). o.outcome_id) os)),
                  ),
            )
      ]
