-- ===== src/Runs/Tests.antt =====
-- Two cycles run through the ledger, and the theorems applied to them.
use aegis_quant.Common.{
  ℕ, ◌+◌, ◌*◌, Bool, true, ◌&&◌, some, [], ◌∷◌, ◌++◌, ◌≡◌, ◌≢◌, ◌↔◌, refl, ◌==◌, if◌then◌else◌,
  has_key, Dict, returned, arith,
}
use aegis_quant.Runs.Ledger.{
  CycleRecord, Codec, CodecLaws, Cycle, cycle_of, append, get, list_run_ids,
}
use aegis_quant.Runs.Laws.{appended_is_read}

abbrev same_pair : ℕ × ℕ → ℕ × ℕ → Bool
same_pair a b = a.0 == b.0 && a.1 == b.1

same_pair_iff : (a b : ℕ × ℕ) → (same_pair a b ≡ true) ↔ (a ≡ b)
same_pair_iff (a, b) (c, d) = ground arith

abbrev plain : Codec
plain = record {
  Json = ℕ × ℕ;
  same_json = same_pair;
  canonical = λ r. (r.run_id, r.content);
  digest = λ r. r.run_id * 100 + r.content;
  model_validate_json = λ j. some (record { run_id = j.0; content = j.1 });
}

plain-CodecLaws : CodecLaws plain
plain-CodecLaws = record { same_json_iff = same_pair_iff; round_trip = λ r. refl }

abbrev monday : CycleRecord
monday = record { run_id = 7; content = 1 }

abbrev tuesday : CycleRecord
tuesday = record { run_id = 3; content = 2 }

abbrev one : Dict (Cycle plain)
one = (7, record { record_hash = 701; record_json = (7, 1) }) ∷ []

abbrev two : Dict (Cycle plain)
two =
    (7, record { record_hash = 701; record_json = (7, 1) })
    ∷ (3, record { record_hash = 302; record_json = (3, 2) })
    ∷ []

abbrev outcome : ℕ × Dict (Cycle plain)
outcome = (302, two)

tuesday-appended : append plain tuesday one ≡ returned outcome
unfolding append cycle_of
tuesday-appended = refl

appended_is_read_example :
    (outcome.0 ≡ plain.digest tuesday)
    × (get plain 3 two ≡ returned tuesday)
    × ((i : ℕ) → i ≢ 3 → get plain i two ≡ get plain i one)
    × (list_run_ids plain two
        ≡ (if has_key 3 one then list_run_ids plain one else list_run_ids plain one ++ (3 ∷ [])))
appended_is_read_example = appended_is_read plain-CodecLaws tuesday one outcome tuesday-appended
