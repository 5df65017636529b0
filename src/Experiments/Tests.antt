-- ===== src/Experiments/Tests.antt =====
-- Two records run through the experiment ledger, and the theorems applied to them.
use aegis_quant.Common.{
  ℕ, ◌+◌, ◌*◌, Bool, true, ◌&&◌, some, [], ◌∷◌, ◌≡◌, ◌≢◌, ◌↔◌, refl, ◌==◌, returned, arith,
}
use aegis_quant.Experiments.Records.{ExperimentRecord, Codec, CodecLaws, Store}
use aegis_quant.Experiments.Ledger.{
  hash_at, check_link, verify_row, verify_rows, verify_chain, last_hash, last_sequence, clashes,
  next_commitment, insert_record, append_verified, append, get,
}
use aegis_quant.Experiments.Chain.{IsVerified, verify_chain_iff}
use aegis_quant.Experiments.Append.{append-IsVerified, get-append, append_idempotent}

abbrev same_pair : ℕ × ℕ → ℕ × ℕ → Bool
same_pair a b = a.0 == b.0 && a.1 == b.1

same_pair_iff : (a b : ℕ × ℕ) → (same_pair a b ≡ true) ↔ (a ≡ b)
same_pair_iff (a, b) (c, d) = ground arith

abbrev plain : Codec
plain = record {
  Json = ℕ × ℕ;
  same_json = same_pair;
  canonical_json = λ r. (r.experiment_id, r.content);
  canonical_sha256 = λ r. r.experiment_id * 100 + r.content;
  model_validate_json = λ j. some (record { experiment_id = j.0; content = j.1 });
  commitment_hash = λ n i r p. n + i * 3 + r * 5 + p * 7;
  genesis = 0;
}

plain-CodecLaws : CodecLaws plain
plain-CodecLaws = record { same_json_iff = same_pair_iff; round_trip = λ r. refl }

abbrev first : ExperimentRecord
first = record { experiment_id = 1; content = 10 }

abbrev second : ExperimentRecord
second = record { experiment_id = 2; content = 20 }

abbrev empty : Store plain
empty = record { experiments = []; commitments = [] }

abbrev one : Store plain
one = record {
  experiments = (1, record { record_json = (1, 10); record_hash = 110 }) ∷ [];
  commitments =
      record {
        sequence = 1;
        experiment_id = 1;
        record_hash = 110;
        previous_commitment_hash = 0;
        commitment_hash = 554;
      }
      ∷ [];
}

abbrev two : Store plain
two = record {
  experiments =
      (1, record { record_json = (1, 10); record_hash = 110 })
      ∷ (2, record { record_json = (2, 20); record_hash = 220 })
      ∷ [];
  commitments =
      record {
        sequence = 1;
        experiment_id = 1;
        record_hash = 110;
        previous_commitment_hash = 0;
        commitment_hash = 554;
      }
      ∷ record {
        sequence = 2;
        experiment_id = 2;
        record_hash = 220;
        previous_commitment_hash = 554;
        commitment_hash = 4986;
      }
      ∷ [];
}

second-appended : append plain second one ≡ returned two
unfolding append append_verified verify_chain verify_rows verify_row check_link hash_at
    insert_record next_commitment last_hash last_sequence clashes
second-appended = refl

verify_chain_iff_example : (verify_chain plain two ≡ returned tt) ↔ IsVerified two
verify_chain_iff_example = verify_chain_iff two

append-IsVerified_example : IsVerified one × IsVerified two
append-IsVerified_example = append-IsVerified second one two second-appended

get-append_example :
    (get plain 2 two ≡ returned second) × ((i : ℕ) → i ≢ 2 → get plain i two ≡ get plain i one)
get-append_example = get-append plain-CodecLaws second one two second-appended

append_idempotent_example : append plain second two ≡ returned two
append_idempotent_example = append_idempotent plain-CodecLaws second one two second-appended
