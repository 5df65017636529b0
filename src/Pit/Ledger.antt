-- ===== src/Pit/Ledger.antt =====
-- `PITAvailabilityLedger` and `load_snapshot` (aegis/pit_data/ledger.py).
use aegis_quant.Common.{
  ℕ, Bool, true, false, not, ◌&&◌, ◌||◌, Option, none, some, List, [], ◌∷◌, ◌++◌, all, any, select,
  map, length, ltb, leb, ◌==◌, contains, all_distinct, Text, same_text, ◌≡◌, if◌then◌else◌,
  check_all, Dict, lookup, has_key, insert, Call, returned, raised, ◌>>=◌,
}
use aegis_quant.Common.Sort.{sort_by, sort_set}
use aegis_quant.Common.Lines.{unlines, lines_of}
use aegis_quant.Sealed.Table.{Codec}
use aegis_quant.Pit.Records.{
  PitArtifact, SecurityMasterRecord, NPortHolding, PitSnapshotManifest, PitError, ids_not_unique,
  naive_timestamp, future_artifact, future_holding, destination_exists, invalid_snapshot,
  unmapped_universe, invalid_mapping, lineage_mismatch, hash_mismatch, Digests, validate_manifest,
  sealed,
}

-- `canonical_json` and pydantic's reading of a text.
pub record TextCodec (R : Type 0) : Type 0 where
  pub canonical_json : R → Text
  pub model_validate_json : Text → Option R

-- A record is read back from its text.
pub record TextLaws {R : Type 0} (co : TextCodec R) : Type 0 where
  pub round_trip : (r : R) → co.model_validate_json (co.canonical_json r) ≡ some r

pub record AvailabilityLedger : Type 0 where
  pub artifacts : List PitArtifact
  pub securities : List SecurityMasterRecord

-- `(available_at, artifact_id)` of one artifact is less than that of another.
abbrev pub artifact_before : PitArtifact → PitArtifact → Bool
artifact_before a b =
    if a.available_at == b.available_at
    then ltb a.artifact_id b.artifact_id
    else ltb a.available_at b.available_at

abbrev pub security_before : SecurityMasterRecord → SecurityMasterRecord → Bool
security_before a b = ltb a.canonical_security_id b.canonical_security_id

-- `__init__`
unfoldable pub new_ledger :
    List PitArtifact → List SecurityMasterRecord → Call PitError AvailabilityLedger
new_ledger artifacts securities =
    if not (all_distinct (map (λ (a : PitArtifact). a.artifact_id) artifacts))
    then raised ids_not_unique
    else returned (record {
      artifacts = sort_by artifact_before artifacts;
      securities = sort_by security_before securities;
    })

-- `_cutoff`
unfoldable pub cutoff_of : Option ℕ → Call PitError ℕ
cutoff_of none = raised naive_timestamp
cutoff_of (some t) = returned t

-- `item.entity_id in allowed or item.security_id in allowed`, or no universe is given
unfoldable pub is_in_universe : Option (List ℕ) → PitArtifact → Bool
is_in_universe none a = true
is_in_universe (some allowed) a =
    contains a.entity_id allowed
    || elim a.security_id [ none ↦ false | some i ↦ contains i allowed ]

unfoldable pub is_available : ℕ → Option (List ℕ) → PitArtifact → Bool
is_available cutoff universe a = leb a.available_at cutoff && is_in_universe universe a

unfoldable pub get_artifacts_as_of :
    Option ℕ → Option (List ℕ) → AvailabilityLedger → Call PitError (List PitArtifact)
get_artifacts_as_of at universe l = do
  cutoff ← cutoff_of at
  returned (select (is_available cutoff universe) l.artifacts)

-- The name of the source `SEC_EDGAR` is a parameter.
unfoldable pub get_filings_as_of :
    ℕ → ℕ → Option ℕ → AvailabilityLedger → Call PitError (List PitArtifact)
get_filings_as_of sec_edgar entity_id at l = do
  known ← get_artifacts_as_of at none l
  returned (select (λ (a : PitArtifact). a.entity_id == entity_id && a.source == sec_edgar) known)

-- The mapping holds at a time.
unfoldable pub is_valid_at : ℕ → SecurityMasterRecord → Bool
is_valid_at t s = leb s.valid_from t && elim s.valid_to [ none ↦ true | some e ↦ leb t e ]

-- `security_rows`
unfoldable pub security_rows : ℕ → List ℕ → List SecurityMasterRecord → List SecurityMasterRecord
security_rows cutoff universe ss =
    select
      (λ (s : SecurityMasterRecord).
        is_valid_at cutoff s
        && (contains s.canonical_security_id universe || contains s.ticker universe))
      ss

-- `mapped`
unfoldable pub mapped : List SecurityMasterRecord → List ℕ
mapped ss =
    map (λ (s : SecurityMasterRecord). s.ticker) ss
    ++ map (λ (s : SecurityMasterRecord). s.canonical_security_id) ss

-- The manifest before it is sealed.
unfoldable pub manifest_of : ℕ → ℕ → List ℕ → ℕ → List ℕ → List PitArtifact → PitSnapshotManifest
manifest_of cutoff now universe dataset_version warnings selected = record {
  simulation_at = cutoff;
  built_at = now;
  artifact_count = length selected;
  universe = sort_set universe;
  artifact_ids = map (λ (a : PitArtifact). a.artifact_id) selected;
  artifact_hashes = map (λ (a : PitArtifact). a.sha256) selected;
  dataset_version = dataset_version;
  parser_versions = sort_set (map (λ (a : PitArtifact). a.parser_version) selected);
  warnings = warnings;
  manifest_hash = none;
}

-- The tests of `load_snapshot`, in order.
abbrev pub load_guards :
    PitSnapshotManifest → List PitArtifact → List SecurityMasterRecord → List (Bool × PitError)
load_guards m rows ss =
    (not (all (λ i. contains i (mapped ss)) m.universe), unmapped_universe)
    ∷ (any (λ s. not (is_valid_at m.simulation_at s)) ss, invalid_mapping)
    ∷ (any (λ (a : PitArtifact). ltb m.simulation_at a.available_at) rows, future_artifact)
    ∷ (
      not (same_text (map (λ (a : PitArtifact). a.artifact_id) rows) m.artifact_ids),
      lineage_mismatch,
    )
    ∷ (not (same_text (map (λ (a : PitArtifact). a.sha256) rows) m.artifact_hashes), hash_mismatch)
    ∷ []

module _ (mc : Codec PitSnapshotManifest) (ac : TextCodec PitArtifact)
    (sc : TextCodec SecurityMasterRecord) (hc : TextCodec NPortHolding) (dg : Digests) where
  -- The files of a snapshot; the manifest's is one text.
  pub record Snapshot : Type 0 where
    pub manifest : mc.Json
    pub artifacts : Text
    pub security_master : Text
    pub fund_holdings : Text

  -- The files that are written.
  unfoldable pub snapshot_of :
      PitSnapshotManifest
      → List PitArtifact
      → List SecurityMasterRecord
      → List NPortHolding
      → Snapshot
  snapshot_of m selected ss holdings = record {
    manifest = mc.canonical_json (sealed dg m);
    artifacts = unlines (map ac.canonical_json selected);
    security_master = unlines (map sc.canonical_json ss);
    fund_holdings = unlines (map hc.canonical_json holdings);
  }

  -- The tests of `write_snapshot`, in order.
  abbrev pub write_guards : ℕ → List PitArtifact → List NPortHolding → Bool → List (Bool × PitError)
  write_guards cutoff selected holdings exists =
      (any (λ (a : PitArtifact). ltb cutoff a.available_at) selected, future_artifact)
      ∷ (any (λ (h : NPortHolding). ltb cutoff h.public_available_at) holdings, future_holding)
      ∷ (exists, destination_exists)
      ∷ []

  -- The directory of snapshots after `write_snapshot`. The name of a time, to the second, and the
  -- clock are parameters.
  unfoldable pub write_snapshot :
      (ℕ → ℕ)
      → ℕ
      → Option ℕ
      → List ℕ
      → ℕ
      → List ℕ
      → List NPortHolding
      → AvailabilityLedger
      → Dict Snapshot
      → Call PitError (Dict Snapshot)
  write_snapshot name_of now at universe dataset_version warnings fund_holdings l dir = do
    cutoff ← cutoff_of at
    selected ← get_artifacts_as_of at (some universe) l
    let holdings = select (λ (h : NPortHolding). leb h.public_available_at cutoff) fund_holdings
    _ ← check_all (write_guards cutoff selected holdings (has_key (name_of cutoff) dir))
    let m = manifest_of cutoff now universe dataset_version warnings selected
    _ ← validate_manifest dg m
    returned (
        insert (name_of cutoff)
          (snapshot_of m selected (security_rows cutoff universe l.securities) holdings) dir)

module _ {R : Type 0} (co : TextCodec R) where
  -- The records of lines, none if a line is not one.
  unfoldable pub read_lines : List Text → Option (List R)
  read_lines [] = some []
  read_lines (line ∷ lines) =
      let rest = read_lines lines in
      elim (co.model_validate_json line) [
        | none ↦ none
        | some r ↦ elim rest [ none ↦ none | some rs ↦ some (r ∷ rs) ]
      ]

-- `except Exception`
unfoldable pub or_invalid : {A : Type 0} → Option A → Call PitError A
or_invalid none = raised invalid_snapshot
or_invalid (some a) = returned a

unfoldable pub and_invalid : {A : Type 0} → Call PitError A → Call PitError A
and_invalid (raised _) = raised invalid_snapshot
and_invalid (returned a) = returned a

module _ (mc : Codec PitSnapshotManifest) (ac : TextCodec PitArtifact)
    (sc : TextCodec SecurityMasterRecord) (hc : TextCodec NPortHolding) (dg : Digests) where
  -- `load_snapshot` of a name in the directory; pydantic's reading of the manifest ends with its
  -- validator.
  unfoldable pub load_snapshot :
      ℕ → Dict (Snapshot mc ac sc hc dg) → Call PitError (PitSnapshotManifest × List PitArtifact)
  load_snapshot name dir = do
    files ← or_invalid (lookup name dir)
    m ← or_invalid (mc.model_validate_json files.manifest)
    _ ← and_invalid (validate_manifest dg m)
    rows ← or_invalid (read_lines ac (lines_of files.artifacts))
    ss ← or_invalid (read_lines sc (lines_of files.security_master))
    _ ← check_all (load_guards m rows ss)
    returned (m, rows)
