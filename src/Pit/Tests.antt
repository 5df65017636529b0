-- ===== src/Pit/Tests.antt =====
-- A ledger of two artifacts, its snapshot, and the theorems applied to them.
use native.Mathlib.Decide.{ℕ_discrete}
use aegis_quant.Common.{
  ℕ, ◌+◌, ◌-◌, ◌≤◌, true, false, Option, none, some, List, [], ◌∷◌, all, any, map, contains, All,
  In, if◌then◌else◌, Dict, Text, ends_line, returned, raised, ◌≡◌, ◌↔◌, refl, arith, ap, ◌∙◌, ◌==◌,
}
use aegis_quant.Common.Sort.{sort_set}
use aegis_quant.Common.Lines.{unlines}
use aegis_quant.Sealed.Table.{Codec}
use aegis_quant.Sealed.Plain.{plain, plain-CodecLaws}
use aegis_quant.Pit.Records.{
  PitArtifact, SecurityMasterRecord, NPortHolding, PitSnapshotManifest, unmapped_universe, Digests,
  is_wrong, validate_manifest, sealed,
}
use aegis_quant.Pit.Ledger.{
  TextCodec, TextLaws, AvailabilityLedger, new_ledger, cutoff_of, get_artifacts_as_of, is_available,
  is_in_universe, is_valid_at, security_rows, mapped, manifest_of, Snapshot, snapshot_of,
  write_snapshot, read_lines, or_invalid, and_invalid, load_snapshot,
}
use aegis_quant.Pit.Causality.{load-write, load_snapshot-past, get_artifacts_iff}

-- Numbers as characters that end no line.
abbrev shift : List ℕ → Text
shift xs = map (λ n. n + 10000) xs

abbrev unshift : Text → List ℕ
unshift t = map (λ n. n - 10000) t

unshift-shift : (xs : List ℕ) → unshift (shift xs) ≡ xs
unshift-shift [] = refl
unshift-shift (x ∷ xs) =
    let here : (x + 10000) - 10000 ≡ x = omega arith in cc (here, unshift-shift xs)

shift-plain : (xs : List ℕ) → any ends_line (shift xs) ≡ false
shift-plain [] = refl
shift-plain (x ∷ xs) =
    let here : ends_line (x + 10000) ≡ false = ground arith in rw here (shift-plain xs)

abbrev tag : Option ℕ → ℕ
tag none = 0
tag (some n) = n + 1

abbrev untag : ℕ → Option ℕ
untag n = if n == 0 then none else some (n - 1)

untag-tag : (o : Option ℕ) → untag (tag o) ≡ o
untag-tag none = refl
untag-tag (some n) =
    let here : ((n + 1) == 0) ≡ false = ground arith in
    let back : (n + 1) - 1 ≡ n = omega arith in rw (here, back) refl

abbrev numbers_of : PitArtifact → List ℕ
numbers_of a =
    a.artifact_id
    ∷ a.source
    ∷ a.entity_id
    ∷ tag a.security_id
    ∷ tag a.filed_at
    ∷ tag a.accepted_at
    ∷ a.available_at
    ∷ a.sha256
    ∷ a.parser_version
    ∷ a.content
    ∷ []

abbrev of_numbers : List ℕ → Option PitArtifact
of_numbers (i ∷ s ∷ e ∷ k ∷ f ∷ g ∷ t ∷ h ∷ v ∷ c ∷ []) = some (record {
  artifact_id = i;
  source = s;
  entity_id = e;
  security_id = untag k;
  filed_at = untag f;
  accepted_at = untag g;
  available_at = t;
  sha256 = h;
  parser_version = v;
  content = c;
})
of_numbers _ = none

abbrev of_artifact : TextCodec PitArtifact
of_artifact = record {
  canonical_json = λ a. shift (numbers_of a);
  model_validate_json = λ t. of_numbers (unshift t);
}

of_artifact-TextLaws : TextLaws of_artifact
of_artifact-TextLaws = record { round_trip = back }
  where
    back : (a : PitArtifact) → of_numbers (unshift (shift (numbers_of a))) ≡ some a
    back a =
        ap of_numbers (unshift-shift (numbers_of a))
        ∙ rw (untag-tag a.security_id, untag-tag a.filed_at, untag-tag a.accepted_at) refl

abbrev security_numbers : SecurityMasterRecord → List ℕ
security_numbers s =
    s.canonical_security_id ∷ s.ticker ∷ s.valid_from ∷ tag s.valid_to ∷ s.content ∷ []

abbrev of_security_numbers : List ℕ → Option SecurityMasterRecord
of_security_numbers (i ∷ t ∷ f ∷ u ∷ c ∷ []) = some (record {
  canonical_security_id = i;
  ticker = t;
  valid_from = f;
  valid_to = untag u;
  content = c;
})
of_security_numbers _ = none

abbrev of_security : TextCodec SecurityMasterRecord
of_security = record {
  canonical_json = λ s. shift (security_numbers s);
  model_validate_json = λ t. of_security_numbers (unshift t);
}

of_security-TextLaws : TextLaws of_security
of_security-TextLaws = record { round_trip = back }
  where
    back :
        (s : SecurityMasterRecord)
        → of_security_numbers (unshift (shift (security_numbers s))) ≡ some s
    back s =
        ap of_security_numbers (unshift-shift (security_numbers s)) ∙ rw (untag-tag s.valid_to) refl

abbrev of_holding : TextCodec NPortHolding
of_holding = record {
  canonical_json = λ h. shift (h.public_available_at ∷ h.content ∷ []);
  model_validate_json = λ t. none;
}

manifest_discrete : Discrete PitSnapshotManifest
manifest_discrete = hlevel (ℕ_discrete)

abbrev of_manifest : Codec PitSnapshotManifest
of_manifest = plain manifest_discrete (λ (m : PitSnapshotManifest). m.built_at)

abbrev digests : Digests
digests = record { of_manifest = λ m. m.simulation_at + m.artifact_count; is_sha256 = λ h. true }

abbrev artifact : ℕ → ℕ → PitArtifact
artifact i at = record {
  artifact_id = i;
  source = 1;
  entity_id = 5;
  security_id = some 6;
  filed_at = some 3;
  accepted_at = none;
  available_at = at;
  sha256 = 7;
  parser_version = 2;
  content = 0;
}

abbrev mapping : SecurityMasterRecord
mapping = record {
  canonical_security_id = 6;
  ticker = 5;
  valid_from = 1;
  valid_to = none;
  content = 0;
}

abbrev ledger : AvailabilityLedger
ledger = record { artifacts = artifact 2 10 ∷ artifact 1 20 ∷ []; securities = mapping ∷ [] }

made : new_ledger (artifact 1 20 ∷ artifact 2 10 ∷ []) (mapping ∷ []) ≡ returned ledger
unfolding new_ledger
made = refl

get_artifacts_iff_example :
    (rows : List PitArtifact) × (get_artifacts_as_of (some 15) (some (5 ∷ [])) ledger
      ≡ returned rows)
    × (In (artifact 2 10) rows ↔ (
        In (artifact 2 10) (artifact 1 20 ∷ artifact 2 10 ∷ [])
        × (10 ≤ 15)
        × (is_in_universe (some (5 ∷ [])) (artifact 2 10) ≡ true)))
get_artifacts_iff_example =
    get_artifacts_iff (artifact 1 20 ∷ artifact 2 10 ∷ []) (mapping ∷ []) ledger 15 (some (5 ∷ []))
      (artifact 2 10) made

abbrev Directory : Type 0
Directory = Dict (Snapshot of_manifest of_artifact of_security of_holding digests)

abbrev manifest : PitSnapshotManifest
manifest = record {
  simulation_at = 15;
  built_at = 99;
  artifact_count = 1;
  universe = 5 ∷ [];
  artifact_ids = 2 ∷ [];
  artifact_hashes = 7 ∷ [];
  dataset_version = 4;
  parser_versions = 2 ∷ [];
  warnings = [];
  manifest_hash = some 16;
}

abbrev directory : Directory
directory =
    (
      15,
      record {
        manifest = manifest;
        artifacts = unlines (shift (numbers_of (artifact 2 10)) ∷ []);
        security_master = unlines (shift (security_numbers mapping) ∷ []);
        fund_holdings = [];
      },
    )
    ∷ []

written :
    write_snapshot of_manifest of_artifact of_security of_holding digests
      (λ t. t)
      99
      (some 15)
      (5 ∷ [])
      4
      []
      []
      ledger
      []
    ≡ returned directory
unfolding write_snapshot cutoff_of get_artifacts_as_of is_available is_in_universe security_rows
    is_valid_at manifest_of validate_manifest sealed snapshot_of is_wrong
written = refl

load-write_example :
    (t : ℕ) × (some 15 ≡ some t)
    × (rows : List PitArtifact) × (get_artifacts_as_of (some 15) (some (5 ∷ [])) ledger
        ≡ returned rows)
    × (load_snapshot of_manifest of_artifact of_security of_holding digests t directory ≡ (
        if all
          (λ i. contains i (mapped (security_rows t (5 ∷ []) (mapping ∷ []))))
          (sort_set (5 ∷ []))
        then returned (sealed digests (manifest_of t 99 (5 ∷ []) 4 [] rows), rows)
        else raised unmapped_universe))
load-write_example =
    load-write (plain-CodecLaws manifest_discrete (λ (m : PitSnapshotManifest). m.built_at))
      of_artifact-TextLaws of_security-TextLaws (λ t. t) 99 (some 15) (5 ∷ []) 4 [] [] ledger []
      directory
      (
        (refl, shift-plain (numbers_of (artifact 2 10))),
        ((refl, shift-plain (numbers_of (artifact 1 20))), tt),
      )
      ((refl, shift-plain (security_numbers mapping)), tt) written

loaded :
    load_snapshot of_manifest of_artifact of_security of_holding digests 15 directory
    ≡ returned (manifest, artifact 2 10 ∷ [])
unfolding load_snapshot or_invalid and_invalid read_lines validate_manifest is_wrong mapped
    is_valid_at
loaded = refl

load_snapshot-past_example :
    (validate_manifest digests manifest ≡ returned tt)
    × All (λ (a : PitArtifact). a.available_at ≤ 15) (artifact 2 10 ∷ [])
    × (map (λ (a : PitArtifact). a.artifact_id) (artifact 2 10 ∷ []) ≡ 2 ∷ [])
    × (map (λ (a : PitArtifact). a.sha256) (artifact 2 10 ∷ []) ≡ 7 ∷ [])
load_snapshot-past_example = load_snapshot-past 15 directory manifest (artifact 2 10 ∷ []) loaded
