-- ===== src/Experiments/Seal.antt =====
-- The last commitment of the ledger of aegis/research_lab/experiments.py seals all records.
use aegis_quant.Common.{List, In, ◌≡◌}
use aegis_quant.Experiments.Records.{Commitment}

-- A commitment of each list, at the same place and with the same hash, but with another content.
abbrev pub Collision : List Commitment → List Commitment → Type 0
Collision cs cs' =
    (x : Commitment) × (y : Commitment) × In x cs
    × In y cs'
    × (x.sequence ≡ y.sequence)
    × (x.commitment_hash ≡ y.commitment_hash)
    × ¬ (
        (x.experiment_id ≡ y.experiment_id)
        × (x.record_hash ≡ y.record_hash)
        × (x.previous_commitment_hash ≡ y.previous_commitment_hash))
