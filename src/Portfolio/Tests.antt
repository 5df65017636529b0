-- ===== src/Portfolio/Tests.antt =====
-- A portfolio of two forecasts, one of which abstains, and the theorem applied to it.
use aegis_quant.Common.{ℕ, ◌*◌, true, false, ◌||◌, some, [], ◌∷◌, In, has_key, ◌≡◌, ◌⊎◌, refl}
use aegis_quant.Common.Int.{pos, ◌+ℤ◌, ◌-ℤ◌}
use aegis_quant.Common.Sort.{sort_set, sort_items}
use aegis_quant.Num.Fixed.{unit, fixed}
use aegis_quant.Portfolio.Build.{
  Forecast, PortfolioPolicy, Setting, PortfolioProposal, turnover_of, raw_score, score_of,
  store_score, add_scores, scores_of, map_items, long_weights, weights_of, cleaned,
  has_valid_fields, date_of_first, proposal_of, construct_portfolio,
}
use aegis_quant.Portfolio.Eligible.{IsEligible, construct_portfolio-IsEligible}

abbrev setting : Setting fixed
setting = record {
  date_of = λ t. t;
  min_date = 0;
  volatility_floor = pos 50_000_000_000_000;
  two = pos 2_000_000_000_000_000;
  of_length = λ n. pos (n * unit);
  as_set = sort_set;
}

abbrev long_only : PortfolioPolicy fixed
long_only = record { gross_target = pos 800_000_000_000_000; market_neutral = false }

abbrev bullish : Forecast fixed
bullish = record {
  ticker = 2;
  as_of = 7;
  expected_excess_return = some (pos 100_000_000_000_000);
  expected_volatility = some (pos 200_000_000_000_000);
  probability_positive = pos 750_000_000_000_000;
  confidence = pos 800_000_000_000_000;
  abstained = false;
}

abbrev silent : Forecast fixed
silent = record bullish { ticker = 1; abstained = true }

abbrev proposal : PortfolioProposal fixed
proposal = record {
  as_of = 7;
  target_weights = (2, pos 800_000_000_000_000) ∷ [];
  cash_weight = pos 200_000_000_000_000;
  gross_exposure = pos 800_000_000_000_000;
  turnover = pos 650_000_000_000_000;
}

constructed :
    construct_portfolio fixed setting
      (bullish ∷ silent ∷ [])
      long_only
      (pos 500_000_000_000_000)
      ((1, pos 500_000_000_000_000) ∷ [])
    ≡ some proposal
unfolding construct_portfolio proposal_of cleaned weights_of long_weights scores_of add_scores
    store_score score_of raw_score map_items has_valid_fields date_of_first turnover_of ◌+ℤ◌ ◌-ℤ◌
constructed = refl

construct_portfolio-IsEligible_example :
    ((proposal.target_weights ≡ cleaned fixed (sort_items ((1, pos 500_000_000_000_000) ∷ [])))
      ⊎ ((ticker : ℕ)
          → has_key ticker proposal.target_weights ≡ true
          → (f : Forecast fixed) × In f (bullish ∷ silent ∷ [])
            × IsEligible (pos 500_000_000_000_000) ticker f))
    × (((f : Forecast fixed)
          → In f (bullish ∷ silent ∷ [])
          → (f.abstained || fixed.lt f.confidence (pos 500_000_000_000_000)) ≡ true)
        → proposal.target_weights ≡ cleaned fixed (sort_items ((1, pos 500_000_000_000_000) ∷ [])))
    × (fixed.le (pos 0) proposal.cash_weight ≡ true)
    × (fixed.le proposal.cash_weight (pos unit) ≡ true)
construct_portfolio-IsEligible_example =
    construct_portfolio-IsEligible setting (bullish ∷ silent ∷ []) long_only
      (pos 500_000_000_000_000) ((1, pos 500_000_000_000_000) ∷ []) proposal constructed
