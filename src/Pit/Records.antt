-- ===== src/Pit/Records.antt =====
-- The records of aegis/pit_data/models.py, and the fields of `NPortHolding`
-- (aegis/pit_data/nport.py) that the ledger reads. Of times that may be without a zone, `none` is
-- one without.
use aegis_quant.Common.{
  ℕ, Bool, false, not, ◌&&◌, Option, none, some, List, [], ◌∷◌, any, ltb, ◌==◌, length,
  all_distinct, check_all, Call,
}

-- `content` stands for the fields that nothing here looks at; also below.
pub record PitArtifact : Type 0 where
  pub artifact_id : ℕ
  pub source : ℕ
  pub entity_id : ℕ
  pub security_id : Option ℕ
  pub filed_at : Option ℕ
  pub accepted_at : Option ℕ
  pub available_at : ℕ
  pub sha256 : ℕ
  pub parser_version : ℕ
  pub content : ℕ

-- `available_at < at`, false for none
unfoldable pub precedes : ℕ → Option ℕ → Bool
precedes available_at none = false
precedes available_at (some t) = ltb available_at t

-- `enforce_temporal_causality`
unfoldable pub has_causal_times : PitArtifact → Bool
has_causal_times a =
    not (precedes a.available_at a.filed_at) && not (precedes a.available_at a.accepted_at)

pub record SecurityMasterRecord : Type 0 where
  pub canonical_security_id : ℕ
  pub ticker : ℕ
  pub valid_from : ℕ
  pub valid_to : Option ℕ
  pub content : ℕ

pub record NPortHolding : Type 0 where
  pub public_available_at : ℕ
  pub content : ℕ

pub record PitSnapshotManifest : Type 0 where
  pub simulation_at : ℕ
  pub built_at : ℕ
  pub artifact_count : ℕ
  pub universe : List ℕ
  pub artifact_ids : List ℕ
  pub artifact_hashes : List ℕ
  pub dataset_version : ℕ
  pub parser_versions : List ℕ
  pub warnings : List ℕ
  pub manifest_hash : Option ℕ

-- The messages of `PITLedgerError` and of the manifest's validator.
pub data PitError : Type 0 where
  ids_not_unique naive_timestamp future_artifact future_holding destination_exists : PitError
  invalid_snapshot unmapped_universe invalid_mapping lineage_mismatch hash_mismatch : PitError
  count_mismatch hash_count_mismatch not_sha256 manifest_hash_mismatch : PitError

-- `canonical_sha256` of a manifest's fields, and the test that a hash has the form of SHA-256.
pub record Digests : Type 0 where
  pub of_manifest : PitSnapshotManifest → ℕ
  pub is_sha256 : ℕ → Bool

-- The hash of a manifest, without the time of its building and its hash.
abbrev pub digest_of : Digests → PitSnapshotManifest → ℕ
digest_of dg m = dg.of_manifest (record m { built_at = 0; manifest_hash = none })

-- `manifest_hash is not None and manifest_hash != expected`
unfoldable pub is_wrong : Option ℕ → ℕ → Bool
is_wrong none expected = false
is_wrong (some h) expected = not (h == expected)

abbrev pub manifest_guards : Digests → PitSnapshotManifest → List (Bool × PitError)
manifest_guards dg m =
    (not (m.artifact_count == length m.artifact_ids), count_mismatch)
    ∷ (not (all_distinct m.artifact_ids), ids_not_unique)
    ∷ (not (length m.artifact_hashes == m.artifact_count), hash_count_mismatch)
    ∷ (any (λ h. not (dg.is_sha256 h)) m.artifact_hashes, not_sha256)
    ∷ (is_wrong m.manifest_hash (digest_of dg m), manifest_hash_mismatch)
    ∷ []

-- `valid_manifest`
unfoldable pub validate_manifest : Digests → PitSnapshotManifest → Call PitError (Unit {0})
validate_manifest dg m = check_all (manifest_guards dg m)

unfoldable pub sealed : Digests → PitSnapshotManifest → PitSnapshotManifest
sealed dg m = record m { manifest_hash = some (digest_of dg m) }
