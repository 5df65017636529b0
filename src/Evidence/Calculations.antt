-- ===== src/Evidence/Calculations.antt =====
-- The registered calculations of aegis/evidence/calculations.py.
use aegis_quant.Common.{
  false, Option, none, some, List, [], ◌∷◌, ◌++◌, any, All, ◌≡◌, refl, subst, sym, ap, inl, inr,
  Bool-cases, Option-cases, ◌==◌, Text, codes, same_text, same_text_iff, starts_with, drop_text,
  before, after, before-append, after-append, if◌then◌else◌,
}

-- `_VERSION`, and the prefix of an ID
abbrev pub version : Text
version = codes "deterministic-replay-calibration-v1"

abbrev pub prefix : Text
prefix = codes "deterministic-replay-calibration-v1:"

-- The fields of one ticker, each with its number as text.
abbrev pub calibration_of :
    Text → Text → Text → Text → Text → Text → Text → Text → Text → Text → List (Text × Text)
calibration_of expected volatility positive confidence uncertainty down base up momentum quality =
    (codes "expected_excess_return", expected)
    ∷ (codes "expected_volatility", volatility)
    ∷ (codes "probability_positive", positive)
    ∷ (codes "confidence", confidence)
    ∷ (codes "uncertainty", uncertainty)
    ∷ (codes "downside_case", down)
    ∷ (codes "base_case", base)
    ∷ (codes "upside_case", up)
    ∷ (codes "component_momentum", momentum)
    ∷ (codes "component_quality", quality)
    ∷ []

-- `_CALIBRATION`
unfoldable pub calibration : List (Text × List (Text × Text))
calibration =
    (
      codes "AAPL",
      calibration_of (codes "0.085") (codes "0.22") (codes "0.64") (codes "0.78") (codes "0.22")
          (codes "-0.06375") (codes "0.085") (codes "0.1275") (codes "0.14") (codes "0.28"),
    )
    ∷ (
      codes "MSFT",
      calibration_of (codes "0.095") (codes "0.2") (codes "0.68") (codes "0.84") (codes "0.16")
          (codes "-0.07125") (codes "0.095") (codes "0.1425") (codes "0.18") (codes "0.34"),
    )
    ∷ (
      codes "NVDA",
      calibration_of (codes "0.14") (codes "0.38") (codes "0.7") (codes "0.8") (codes "0.2")
          (codes "-0.105") (codes "0.14") (codes "0.21") (codes "0.2") (codes "0.3"),
    )
    ∷ (
      codes "AMZN",
      calibration_of (codes "0.075") (codes "0.3") (codes "0.61") (codes "0.7") (codes "0.3")
          (codes "-0.05625") (codes "0.075") (codes "0.1125") (codes "0.11") (codes "0.2"),
    )
    ∷ (
      codes "GOOGL",
      calibration_of (codes "0.07") (codes "0.24") (codes "0.6") (codes "0.72") (codes "0.28")
          (codes "-0.0525") (codes "0.07") (codes "0.105") (codes "0.1") (codes "0.22"),
    )
    ∷ []

module _ {V : Type 0} where
  unfoldable pub find_text : Text → List (Text × V) → Option V
  find_text k [] = none
  find_text k ((j, v) ∷ d) = if same_text k j then some v else find_text k d

-- `_CALIBRATION[ticker][field_name]`, `None` where there is none
unfoldable pub calibrated : Text → Text → Option Text
calibrated ticker field_name = elim (find_text ticker calibration) [
  | none ↦ none
  | some fields ↦ find_text field_name fields
]

unfoldable pub forecast_calculation_id : Text → Text → Text
forecast_calculation_id ticker field_name = prefix ++ (ticker ++ b':' ∷ field_name)

-- The ticker and the field that a remainder `ticker:field_name` names, if they are registered.
unfoldable pub identity_of : Text → Option (Text × Text)
identity_of remainder = elim (after b':' remainder) [
  | none ↦ none
  | some field_name ↦ elim (calibrated (before b':' remainder) field_name) [
    | none ↦ none
    | some _ ↦ some (before b':' remainder, field_name)
  ]
]

unfoldable pub registered_calculation_identity : Text → Option (Text × Text)
registered_calculation_identity calculation_id =
    if starts_with calculation_id prefix
    then identity_of (drop_text prefix calculation_id)
    else none

-- The text that `resolve_registered_calculation` gives to `Decimal`.
unfoldable pub resolve_registered_calculation : Text → Option Text
resolve_registered_calculation calculation_id =
    elim (registered_calculation_identity calculation_id) [
      | none ↦ none
      | some identity ↦ calibrated identity.0 identity.1
    ]

-- No registered ticker has a colon.
colon_free :
    (ticker : Text) (d : List (Text × List (Text × Text))) (fields : List (Text × Text))
    → All (λ e. any (λ a. a == b':') e.0 ≡ false) d
    → find_text ticker d ≡ some fields
    → any (λ a. a == b':') ticker ≡ false
unfolding find_text
colon_free ticker [] fields h e = cc
colon_free ticker ((j, v) ∷ d) fields h e = elim (Bool-cases (same_text ticker j)) [
  | inl hit ↦ subst (λ t. any (λ a. a == b':') t ≡ false) (sym ((same_text_iff ticker j).0 hit)) h.0
  | inr miss ↦ colon_free ticker d fields h.1 (rw miss at e)
]

calibration-colon_free : All (λ e. any (λ a. a == b':') e.0 ≡ false) calibration
unfolding calibration
calibration-colon_free = (refl, (refl, (refl, (refl, (refl, tt)))))

calibrated-colon_free :
    (ticker field_name value : Text)
    → calibrated ticker field_name ≡ some value
    → any (λ a. a == b':') ticker ≡ false
unfolding calibrated
calibrated-colon_free ticker field_name value e =
    elim (Option-cases (find_text ticker calibration)) [
      | inl missing ↦ absurd (cc (rw (missing, calibrated) at e))
      | inr (fields, found) ↦ colon_free ticker calibration fields calibration-colon_free found
    ]

-- The ID that is made for a registered ticker and field is read back as that ticker and field, and
-- resolves to its registered number.
pub forecast_calculation_id-resolve :
    (ticker field_name value : Text)
    → calibrated ticker field_name ≡ some value
    → (registered_calculation_identity (forecast_calculation_id ticker field_name)
        ≡ some (ticker, field_name))
      × (resolve_registered_calculation (forecast_calculation_id ticker field_name) ≡ some value)
unfolding registered_calculation_identity resolve_registered_calculation forecast_calculation_id
    identity_of
forecast_calculation_id-resolve ticker field_name value e =
    let free = calibrated-colon_free ticker field_name value e in
    let rest : Text = ticker ++ b':' ∷ field_name in
    let head = before-append b':' ticker field_name free in
    let known : calibrated (before b':' rest) field_name ≡ some value = rw head e in
    let read : identity_of rest ≡ some (ticker, field_name) =
      rw (after-append b':' ticker field_name free, known, identity_of)
        (ap (λ (t : Text). some (t, field_name)) head) in
    let whole : registered_calculation_identity (forecast_calculation_id ticker field_name)
        ≡ some (ticker, field_name) =
      read in
    (whole, rw (whole, resolve_registered_calculation) e)
