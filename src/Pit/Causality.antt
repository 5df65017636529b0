-- ===== src/Pit/Causality.antt =====
-- What the snapshots of aegis/pit_data/ledger.py contain.
use aegis_quant.Common.{
  ℕ, ◌≤◌, Bool, true, false, not, not-false, &&-true, ||-false, Option, none, some, List, [], ◌∷◌,
  all, any, select, In-select, select-All, select-any, map-All, map, ltb, ltb-false, leb, leb→le,
  ==_refl, contains, all_distinct, same_text_iff, All, In, if◌then◌else◌, check_all, check_all_iff,
  Dict, lookup, lookup-insert_self, has_key, insert, Call, returned, raised, ◌>>=◌, >>=-returned,
  ◌≡◌, ◌↔◌, refl, subst, sym, ap, ◌∙◌, inl, inr, Bool-cases, arith,
}
use aegis_quant.Common.Sort.{sort_by, sort_by_iff, sort_set}
use aegis_quant.Common.Lines.{unlines, lines_of, IsLine, lines-unlines}
use aegis_quant.Sealed.Table.{Codec, CodecLaws}
use aegis_quant.Pit.Records.{
  PitArtifact, SecurityMasterRecord, NPortHolding, PitSnapshotManifest, PitError, unmapped_universe,
  Digests, digest_of, manifest_guards, is_wrong, validate_manifest, sealed,
}
use aegis_quant.Pit.Ledger.{
  TextCodec, TextLaws, AvailabilityLedger, artifact_before, new_ledger, cutoff_of,
  get_artifacts_as_of, is_available, is_in_universe, is_valid_at, security_rows, mapped,
  manifest_of, load_guards, Snapshot, snapshot_of, write_guards, write_snapshot, read_lines,
  or_invalid, and_invalid, load_snapshot,
}

module _ {R : Type 0} {co : TextCodec R} (laws : TextLaws co) where
  read_lines-map : (rs : List R) → read_lines co (map co.canonical_json rs) ≡ some rs
  unfolding read_lines
  read_lines-map [] = refl
  read_lines-map (r ∷ rs) = rw (laws.round_trip r, read_lines-map rs) refl

  -- A file of records is read back, if their texts are lines.
  read-unlines :
      (rs : List R)
      → All (λ r. IsLine (co.canonical_json r)) rs
      → read_lines co (lines_of (unlines (map co.canonical_json rs))) ≡ some rs
  read-unlines rs h =
      ap (read_lines co)
        (lines-unlines (map co.canonical_json rs) (map-All IsLine co.canonical_json rs h))
      ∙ read_lines-map rs

sealed-validate :
    (dg : Digests) (m : PitSnapshotManifest)
    → validate_manifest dg m ≡ returned tt
    → validate_manifest dg (sealed dg m) ≡ returned tt
unfolding validate_manifest sealed is_wrong
sealed-validate dg m e =
    let (count, (ids, (hashes, (form, _)))) = (check_all_iff (manifest_guards dg m)).0 e in
    (check_all_iff (manifest_guards dg (sealed dg m))).1
      (count, (ids, (hashes, (form, (rw (==_refl (digest_of dg m)) refl, tt)))))

-- A selection of artifacts that are available has none from the future.
available-past :
    (t : ℕ) (u : Option (List ℕ)) (xs : List PitArtifact)
    → any (λ (a : PitArtifact). ltb t a.available_at) (select (is_available t u) xs) ≡ false
unfolding is_available
available-past t u xs =
    select-any (is_available t u) (λ (a : PitArtifact). ltb t a.available_at) xs
      (λ a known. ground (arith, (&&-true (leb a.available_at t) (is_in_universe u a) known).0))

rows-valid :
    (t : ℕ) (u : List ℕ) (ss : List SecurityMasterRecord)
    → any (λ s. not (is_valid_at t s)) (security_rows t u ss) ≡ false
unfolding security_rows
rows-valid t u ss =
    select-any _ (λ s. not (is_valid_at t s)) ss
      (λ s known. let valid : is_valid_at t s ≡ true = (&&-true _ _ known).0 in rw valid refl)

and_invalid-returned :
    (m : Call PitError (Unit {0})) → and_invalid m ≡ returned tt → m ≡ returned tt
unfolding and_invalid
and_invalid-returned (returned u) h = refl
and_invalid-returned (raised why) h = absurd (cc (h))

all_past :
    (t : ℕ) (xs : List PitArtifact)
    → any (λ (a : PitArtifact). ltb t a.available_at) xs ≡ false
    → All (λ (a : PitArtifact). a.available_at ≤ t) xs
all_past t [] h = tt
all_past t (a ∷ xs) h =
    let (here, rest) = ||-false (ltb t a.available_at) _ h in
    (ltb-false _ _ here, all_past t xs rest)

load_guards-written :
    (dg : Digests) (t now : ℕ) (universe : List ℕ) (version : ℕ) (warnings : List ℕ)
    (xs : List PitArtifact) (ss : List SecurityMasterRecord)
    → check_all (
        load_guards
          (sealed dg (
            manifest_of t now universe version warnings
              (select (is_available t (some universe)) xs)))
          (select (is_available t (some universe)) xs)
          (security_rows t universe ss))
      ≡ (if all (λ i. contains i (mapped (security_rows t universe ss))) (sort_set universe)
          then returned tt
          else raised unmapped_universe)
unfolding sealed manifest_of
load_guards-written dg t now universe version warnings xs ss =
    let rows = select (is_available t (some universe)) xs in
    let ids = (same_text_iff (map (λ (a : PitArtifact). a.artifact_id) rows) _).1 refl in
    let hashes = (same_text_iff (map (λ (a : PitArtifact). a.sha256) rows) _).1 refl in
    elim (Bool-cases
      (all (λ i. contains i (mapped (security_rows t universe ss))) (sort_set universe))) [
        | inl covered ↦
            rw (covered, rows-valid t universe ss, available-past t (some universe) xs, ids, hashes)
              refl
        | inr bare ↦ rw bare refl
      ]

-- A run of tests that is one test.
pick :
    {A : Type 0} (why : PitError) (a : A) (covered : Bool)
    → ((if covered then returned tt else raised why) >>= (λ (_ : Unit {0}). returned a))
      ≡ (if covered then returned a else raised why)
pick why a true = refl
pick why a false = refl

rows-lines :
    (sc : TextCodec SecurityMasterRecord) (t : ℕ) (u : List ℕ) (ss : List SecurityMasterRecord)
    → All (λ s. IsLine (sc.canonical_json s)) ss
    → All (λ s. IsLine (sc.canonical_json s)) (security_rows t u ss)
unfolding security_rows
rows-lines sc t u ss h = select-All _ _ ss h

module _ {mc : Codec PitSnapshotManifest} {ac : TextCodec PitArtifact}
    {sc : TextCodec SecurityMasterRecord} {hc : TextCodec NPortHolding} {dg : Digests} where
  -- Whatever the directory holds, a snapshot that is loaded has a valid manifest, no artifact that
  -- became available after the manifest's time, and exactly the artifact IDs and hashes that the
  -- manifest lists.
  pub load_snapshot-past :
      (name : ℕ) (dir : Dict (Snapshot mc ac sc hc dg)) (m : PitSnapshotManifest)
      (rows : List PitArtifact)
      → load_snapshot mc ac sc hc dg name dir ≡ returned (m, rows)
      → (validate_manifest dg m ≡ returned tt)
        × All (λ (a : PitArtifact). a.available_at ≤ m.simulation_at) rows
        × (map (λ (a : PitArtifact). a.artifact_id) rows ≡ m.artifact_ids)
        × (map (λ (a : PitArtifact). a.sha256) rows ≡ m.artifact_hashes)
  unfolding load_snapshot
  load_snapshot-past name dir m rows e =
      let (files, _, e₁) = >>=-returned (or_invalid (lookup name dir)) _ e in
      let (m', _, e₂) = >>=-returned (or_invalid (mc.model_validate_json files.manifest)) _ e₁ in
      let (_, valid, e₃) = >>=-returned (and_invalid (validate_manifest dg m')) _ e₂ in
      let (rows', _, e₄) =
        >>=-returned (or_invalid (read_lines ac (lines_of files.artifacts))) _ e₃ in
      let (ss, _, e₅) =
        >>=-returned (or_invalid (read_lines sc (lines_of files.security_master))) _ e₄ in
      let (_, tests, e₆) = >>=-returned (check_all (load_guards m' rows' ss)) _ e₅ in
      let (_, (_, (past, (ids, (hashes, _))))) =
        (check_all_iff (load_guards m' rows' ss)).0 tests in
      subst
        (λ (p : PitSnapshotManifest × List PitArtifact).
          (validate_manifest dg p.0 ≡ returned tt)
          × All (λ (a : PitArtifact). a.available_at ≤ p.0.simulation_at) p.1
          × (map (λ (a : PitArtifact). a.artifact_id) p.1 ≡ p.0.artifact_ids)
          × (map (λ (a : PitArtifact). a.sha256) p.1 ≡ p.0.artifact_hashes))
        (cc (e₆))
        (
          and_invalid-returned (validate_manifest dg m') valid,
          all_past m'.simulation_at rows' past,
          (same_text_iff _ _).0 (not-false _ ids),
          (same_text_iff _ _).0 (not-false _ hashes),
        )

  -- A snapshot of a ledger whose records have one-line texts that is written at a time is loaded
  -- exactly if the universe is covered by identifier mappings valid then: as its sealed manifest
  -- and the artifacts that the ledger answers with for that time and universe; otherwise loading
  -- raises the error of an unmapped universe.
  pub load-write :
      (ml : CodecLaws mc) (al : TextLaws ac) (sl : TextLaws sc) (name_of : ℕ → ℕ) (now : ℕ)
      (at : Option ℕ) (universe : List ℕ) (version : ℕ) (warnings : List ℕ)
      (holdings : List NPortHolding) (l : AvailabilityLedger)
      (dir dir' : Dict (Snapshot mc ac sc hc dg))
      → All (λ a. IsLine (ac.canonical_json a)) l.artifacts
      → All (λ s. IsLine (sc.canonical_json s)) l.securities
      → write_snapshot mc ac sc hc dg name_of now at universe version warnings holdings l dir
        ≡ returned dir'
      → (t : ℕ) × (at ≡ some t)
        × (rows : List PitArtifact) × (get_artifacts_as_of at (some universe) l ≡ returned rows)
        × (load_snapshot mc ac sc hc dg (name_of t) dir' ≡ (
            if all
              (λ i. contains i (mapped (security_rows t universe l.securities)))
              (sort_set universe)
            then returned (sealed dg (manifest_of t now universe version warnings rows), rows)
            else raised unmapped_universe))
  unfolding write_snapshot load_snapshot get_artifacts_as_of cutoff_of snapshot_of or_invalid
      and_invalid
  load-write ml al sl name_of now none universe version warnings holdings l dir dir' lines lines'
        e =
      absurd (cc (e))
  load-write ml al sl name_of now (some t) universe version warnings holdings l dir dir' lines
        lines' e =
      let rows = select (is_available t (some universe)) l.artifacts in
      let m = manifest_of t now universe version warnings rows in
      let ss = security_rows t universe l.securities in
      let known = select (λ (h : NPortHolding). leb h.public_available_at t) holdings in
      let (_, _, e₁) =
        >>=-returned
          (check_all (write_guards mc ac sc hc dg t rows known (has_key (name_of t) dir))) _ e in
      let (_, valid, e₂) = >>=-returned (validate_manifest dg m) _ e₁ in
      let files = snapshot_of mc ac sc hc dg m rows ss known in
      let stored : insert (name_of t) files dir ≡ dir' = cc (rw valid at e₁, e₂) in
      let found : lookup (name_of t) dir' ≡ some files =
        subst (λ q. lookup (name_of t) q ≡ some files) stored
          (lookup-insert_self (name_of t) files dir) in
      (
        t,
        refl,
        rows,
        refl,
        rw
            (
              found,
              ml.round_trip (sealed dg m),
              sealed-validate dg m valid,
              read-unlines al rows
                  (select-All _ (is_available t (some universe)) l.artifacts lines),
              read-unlines sl ss (rows-lines sc t universe l.securities lines'),
              load_guards-written dg t now universe version warnings l.artifacts l.securities,
            )
            (pick unmapped_universe (sealed dg m, rows)
              (all (λ i. contains i (mapped ss)) (sort_set universe))),
      )

-- The artifacts that a new ledger answers with for a time and a universe are exactly those it was
-- given that are available by then and in the universe.
pub get_artifacts_iff :
    (xs : List PitArtifact) (ss : List SecurityMasterRecord) (l : AvailabilityLedger) (t : ℕ)
    (universe : Option (List ℕ)) (a : PitArtifact)
    → new_ledger xs ss ≡ returned l
    → (rows : List PitArtifact) × (get_artifacts_as_of (some t) universe l ≡ returned rows)
      × (In a rows ↔ (In a xs × (a.available_at ≤ t) × (is_in_universe universe a ≡ true)))
unfolding new_ledger get_artifacts_as_of cutoff_of is_available
get_artifacts_iff xs ss l t universe a e =
    elim (Bool-cases (not (all_distinct (map (λ (a : PitArtifact). a.artifact_id) xs)))) [
      | inl twice ↦ absurd (cc (rw twice at e))
      | inr once ↦
          let same : sort_by artifact_before xs ≡ l.artifacts = cc (rw once at e) in
          let (into, out) = In-select (is_available t universe) a l.artifacts in
          let (unsort, back) = sort_by_iff artifact_before a xs in
          (
            select (is_available t universe) l.artifacts,
            refl,
            (
              λ h.
                  let (early, inside) = &&-true _ _ (into h).1 in
                  (unsort (subst (In a) (sym same) (into h).0), leb→le _ _ early, inside),
              λ h.
                  let early : leb a.available_at t ≡ true = ground (arith, h.1) in
                  out (subst (In a) same (back h.0), rw (early, h.2) refl),
            ),
          )
    ]
