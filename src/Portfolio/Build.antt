-- ===== src/Portfolio/Build.antt =====
-- `construct_portfolio` (aegis/quant/portfolio.py), with the fields of `AlphaForecast`
-- (aegis/contracts/forecasts.py) that it reads.
use aegis_quant.Common.{
  ℕ, Bool, ◌&&◌, ◌||◌, Option, none, some, List, [], ◌∷◌, ◌++◌, all, select, map, length, is_empty,
  ltb, Dict, keys, values, get_or, insert, if◌then◌else◌,
}
use aegis_quant.Common.Sort.{sort_by, sort_items}
use aegis_quant.Num.{FloatOps, max}

module _ (fl : FloatOps) where
  open fl use {F, add, sub, mul, div, abs, lt, le, eq, zero, one, sum}

  pub record Forecast : Type 0 where
    pub ticker : ℕ
    pub as_of : ℕ
    pub expected_excess_return : Option F
    pub expected_volatility : Option F
    pub probability_positive : F
    pub confidence : F
    pub abstained : Bool

  pub record PortfolioPolicy : Type 0 where
    pub gross_target : F
    pub market_neutral : Bool

  -- The date of a time, `date.min`, 0.05 and 2.0, the float of a length, and the order in which a
  -- set of tickers is run through.
  pub record Setting : Type 0 where
    pub date_of : ℕ → ℕ
    pub min_date : ℕ
    pub volatility_floor : F
    pub two : F
    pub of_length : ℕ → F
    pub as_set : List ℕ → List ℕ

  -- The proposal without the hash of its inputs.
  pub record PortfolioProposal : Type 0 where
    pub as_of : ℕ
    pub target_weights : Dict F
    pub cash_weight : F
    pub gross_exposure : F
    pub turnover : F

  -- `_turnover`
  unfoldable pub turnover_of : Setting → Dict F → Dict F → F
  turnover_of st target current = mul fl.half (
      sum (
        map (λ name. abs (sub (get_or zero name target) (get_or zero name current)))
          (st.as_set (keys target ++ keys current))))

  -- `raw` of a forecast that passes the tests
  unfoldable pub raw_score : Setting → PortfolioPolicy → Forecast → F → F → F
  raw_score st p f expected volatility =
      let edge = sub (mul st.two f.probability_positive) one in
      let raw =
        div (mul (mul expected edge) f.confidence) (max fl volatility st.volatility_floor) in
      if p.market_neutral then raw else max fl raw zero

  -- The score that the loop stores for a forecast, if any.
  unfoldable pub score_of : Setting → PortfolioPolicy → F → Forecast → Option F
  score_of st p minimum f =
      if f.abstained || lt f.confidence minimum then none else elim f.expected_excess_return [
        | none ↦ none
        | some expected ↦ elim f.expected_volatility [
          | none ↦ none
          | some volatility ↦
              let raw = raw_score st p f expected volatility in
              if eq raw zero then none else some raw
        ]
      ]

  unfoldable pub store_score : ℕ → Option F → Dict F → Dict F
  store_score ticker none scores = scores
  store_score ticker (some raw) scores = insert ticker raw scores

  -- The loop over the forecasts, from the scores so far.
  unfoldable pub add_scores : Setting → PortfolioPolicy → F → List Forecast → Dict F → Dict F
  add_scores st p minimum [] scores = scores
  add_scores st p minimum (f ∷ fs) scores =
      add_scores st p minimum fs (store_score f.ticker (score_of st p minimum f) scores)

  -- `sorted(forecasts, key=lambda item: item.ticker)`
  abbrev pub forecast_before : Forecast → Forecast → Bool
  forecast_before a b = ltb a.ticker b.ticker

  unfoldable pub scores_of : Setting → PortfolioPolicy → F → List Forecast → Dict F
  scores_of st p minimum fs = add_scores st p minimum (sort_by forecast_before fs) []

  -- `{ticker: f(score) for ticker, score in scores.items()}`
  unfoldable pub map_items : (F → F) → Dict F → Dict F
  map_items f [] = []
  map_items f ((k, v) ∷ d) = (k, f v) ∷ map_items f d

  -- The branches of the weights.
  unfoldable pub neutral_weights : Setting → PortfolioPolicy → Dict F → Dict F → Dict F
  neutral_weights st p scores current =
      let mean = div (sum (values scores)) (st.of_length (length scores)) in
      let centered = map_items (λ s. sub s mean) scores in
      let gross_score = sum (map abs (values centered)) in
      if lt fl.tolerance gross_score
      then map_items (λ s. mul (div s gross_score) p.gross_target) centered
      else current

  unfoldable pub long_weights : PortfolioPolicy → Dict F → Dict F
  long_weights p scores =
      let total = sum (values scores) in map_items (λ s. mul (div s total) p.gross_target) scores

  unfoldable pub weights_of : Setting → PortfolioPolicy → Dict F → Dict F → Dict F
  weights_of st p scores current =
      if is_empty scores
      then current
      else if p.market_neutral
      then neutral_weights st p scores current
      else long_weights p scores

  -- `abs(weight) > 1e-15`, in the order of the tickers
  unfoldable pub cleaned : Dict F → Dict F
  cleaned weights = select (λ (e : ℕ × F). lt fl.dust (abs e.1)) (sort_items weights)

  -- The bounds of the proposal's fields. Its validator compares two of them with the same sums.
  unfoldable pub has_valid_fields : PortfolioProposal → Bool
  has_valid_fields q =
      all fl.is_finite (values q.target_weights)
      && all fl.is_finite (q.cash_weight ∷ q.gross_exposure ∷ q.turnover ∷ [])
      && all (le zero) (q.cash_weight ∷ q.gross_exposure ∷ q.turnover ∷ [])
      && le q.cash_weight one

  unfoldable pub date_of_first : Setting → List Forecast → ℕ
  date_of_first st [] = st.min_date
  date_of_first st (f ∷ _) = st.date_of f.as_of

  unfoldable pub proposal_of : Setting → List Forecast → Dict F → Dict F → PortfolioProposal
  proposal_of st fs weights current = record {
    as_of = date_of_first st fs;
    target_weights = weights;
    cash_weight = max fl zero (sub one (sum (values weights)));
    gross_exposure = sum (map abs (values weights));
    turnover = turnover_of st weights current;
  }

  -- `none` is the exception of the proposal's validators.
  unfoldable pub construct_portfolio :
      Setting → List Forecast → PortfolioPolicy → F → Dict F → Option PortfolioProposal
  construct_portfolio st fs p minimum current_weights =
      let current = sort_items current_weights in
      let q =
        proposal_of st fs (cleaned (weights_of st p (scores_of st p minimum fs) current)) current in
      if has_valid_fields q then some q else none
