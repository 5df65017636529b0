-- ===== src/Sealed/Plain.antt =====
-- A codec whose texts are the records themselves, for records with decidable equality: the
-- hypotheses on `canonical_json` can hold.
use aegis_quant.Common.{ℕ, Bool, true, false, some, ◌≡◌, ◌↔◌, refl}
use aegis_quant.Sealed.Table.{Codec, CodecLaws}

abbrev pub plain : {R : Type 0} → Discrete R → (R → ℕ) → Codec R
plain {R = R} d digest = record {
  Json = R;
  same_json = λ a b. elim (d a b) as (λ _. Bool) [ yes _ ↦ true | no _ ↦ false ];
  canonical_json = λ r. r;
  canonical_sha256 = digest;
  model_validate_json = λ j. some j;
}

decided :
    {R : Type 0} {a b : R} (x : Dec (a ≡ b))
    → ((elim x as (λ _. Bool) [ yes _ ↦ true | no _ ↦ false ]) ≡ true) ↔ (a ≡ b)
decided (yes same) = (λ _. same, λ _. refl)
decided (no differ) = (λ e. absurd (cc (e)), λ e. absurd (differ e))

pub plain-CodecLaws : {R : Type 0} (d : Discrete R) (digest : R → ℕ) → CodecLaws (plain d digest)
plain-CodecLaws d digest = record { same_json_iff = λ a b. decided (d a b); round_trip = λ r. refl }
