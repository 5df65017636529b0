-- ===== src/Portfolio/Eligible.antt =====
-- Which tickers a proposal of aegis/quant/portfolio.py gives a weight to.
use aegis_quant.Common.{
  ℕ, Bool, true, false, &&-true, ◌||◌, ||-false, some, Option-cases, List, [], ◌∷◌, select, In,
  Bool-cases, is_empty, is_some, Dict, length, map, values, has_key, lookup-insert, ==_iff, ◌==◌,
  if◌then◌else◌, ◌≡◌, ◌⊎◌, inl, inr, refl, subst, sym, ap, ◌∙◌, arith,
}
use aegis_quant.Common.Sort.{sort_by, sort_by_iff, sort_items, insert_item}
use aegis_quant.Num.{FloatOps}
use aegis_quant.Portfolio.Build.{
  Forecast, PortfolioPolicy, Setting, PortfolioProposal, score_of, store_score, add_scores,
  forecast_before, scores_of, map_items, neutral_weights, long_weights, weights_of, cleaned,
  has_valid_fields, proposal_of, construct_portfolio,
}

module _ {V : Type 0} where
  has_key-insert_item :
      (j k : ℕ) (v : V) (d : Dict V)
      → has_key j (insert_item k v d) ≡ (if j == k then true else has_key j d)
  has_key-insert_item j k v [] = ground arith
  has_key-insert_item j k v (e ∷ d) = ground (arith, has_key-insert_item j k v d)

  has_key-sort_items : (j : ℕ) (d : Dict V) → has_key j (sort_items d) ≡ has_key j d
  has_key-sort_items j [] = refl
  has_key-sort_items j (e ∷ d) =
      ground (arith, has_key-insert_item j e.0 e.1 (sort_items d), has_key-sort_items j d)

  has_key-select :
      (j : ℕ) (t : ℕ × V → Bool) (d : Dict V) → has_key j (select t d) ≡ true → has_key j d ≡ true
  has_key-select j t [] e = cc
  has_key-select j t (x ∷ d) e = elim (Bool-cases (t x)) [
    | inl hit ↦ ground (arith, has_key-select j t d, rw hit at e)
    | inr miss ↦ ground (arith, has_key-select j t d, rw miss at e)
  ]

has_key-map_items :
    (fl : FloatOps) (j : ℕ) (f : fl.F → fl.F) (d : Dict fl.F)
    → has_key j (map_items fl f d) ≡ has_key j d
unfolding map_items
has_key-map_items fl j f [] = refl
has_key-map_items fl j f (x ∷ d) = ground (arith, has_key-map_items fl j f d)

-- A book that is the current one, or has exactly the tickers with a score.
abbrev IsFrom : {V : Type 0} → Dict V → Dict V → Dict V → Type 0
IsFrom scores current weights =
    (weights ≡ current) ⊎ ((j : ℕ) → has_key j weights ≡ has_key j scores)

either-IsFrom :
    {V : Type 0} (c : Bool) (scores current a b : Dict V)
    → IsFrom scores current a
    → IsFrom scores current b
    → IsFrom scores current (if c then a else b)
either-IsFrom true scores current a b x y = x
either-IsFrom false scores current a b x y = y

cleaned-has_key :
    (fl : FloatOps) (j : ℕ) (weights : Dict fl.F)
    → has_key j (cleaned fl weights) ≡ true
    → has_key j weights ≡ true
unfolding cleaned
cleaned-has_key fl j weights h =
    sym (has_key-sort_items j weights) ∙ has_key-select j _ (sort_items weights) h

module _ {fl : FloatOps} where
  -- A forecast of a ticker that takes part: it did not abstain, is confident enough, and has a
  -- return and a volatility.
  abbrev pub IsEligible : fl.F → ℕ → Forecast fl → Type 0
  IsEligible minimum ticker f =
      (f.ticker ≡ ticker)
      × (f.abstained ≡ false)
      × (fl.lt f.confidence minimum ≡ false)
      × (is_some f.expected_excess_return ≡ true)
      × (is_some f.expected_volatility ≡ true)

  score_of-IsEligible :
      (st : Setting fl) (p : PortfolioPolicy fl) (minimum raw : fl.F) (f : Forecast fl)
      → score_of fl st p minimum f ≡ some raw
      → IsEligible minimum f.ticker f
  unfolding score_of
  score_of-IsEligible st p minimum raw f e =
      elim (Bool-cases (f.abstained || fl.lt f.confidence minimum)) [
        | inl out ↦ absurd (cc (rw out at e))
        | inr takes_part ↦
            let (stays, confident) = ||-false _ _ takes_part in
            elim (Option-cases f.expected_excess_return) [
              | inl unknown ↦ absurd (cc (rw (takes_part, unknown) at e))
              | inr (r, known) ↦ elim (Option-cases f.expected_volatility) [
                | inl unknown ↦ absurd (cc (rw (takes_part, known, unknown) at e))
                | inr (v, known') ↦ (refl, stays, confident, rw known refl, rw known' refl)
              ]
            ]
      ]

  -- A ticker with a score had one before, or has an eligible forecast.
  add_scores-IsEligible :
      (st : Setting fl) (p : PortfolioPolicy fl) (minimum : fl.F) (ticker : ℕ)
      (fs : List (Forecast fl)) (scores : Dict fl.F)
      → has_key ticker (add_scores fl st p minimum fs scores) ≡ true
      → (has_key ticker scores ≡ true) ⊎ ((f : Forecast fl) × In f fs × IsEligible minimum ticker f)
  unfolding add_scores store_score
  add_scores-IsEligible st p minimum ticker [] scores e = inl e
  add_scores-IsEligible st p minimum ticker (f ∷ fs) scores e =
      elim (add_scores-IsEligible st p minimum ticker fs
        (store_score fl f.ticker (score_of fl st p minimum f) scores) e) [
          | inl had ↦ elim (Option-cases (score_of fl st p minimum f)) [
            | inl skipped ↦ inl (rw skipped at had)
            | inr (raw, scored) ↦ elim (Bool-cases (ticker == f.ticker)) [
              | inl same ↦
                  let own : f.ticker ≡ ticker = sym ((==_iff ticker f.ticker).0 same) in
                  let (_, a, b, c, d) = score_of-IsEligible st p minimum raw f scored in
                  inr (f, inl refl, (own, a, b, c, d))
              | inr other ↦ inl (
                  subst (λ o. is_some o ≡ true)
                    (lookup-insert f.ticker ticker raw scores ∙ rw other refl) (rw scored at had))
            ]
          ]
          | inr (g, inside, eligible) ↦ inr (g, inr inside, eligible)
        ]

  -- Without a forecast that takes part no score is added.
  add_scores-none :
      (st : Setting fl) (p : PortfolioPolicy fl) (minimum : fl.F) (fs : List (Forecast fl))
      (scores : Dict fl.F)
      → ((f : Forecast fl) → In f fs → (f.abstained || fl.lt f.confidence minimum) ≡ true)
      → add_scores fl st p minimum fs scores ≡ scores
  unfolding add_scores store_score score_of
  add_scores-none st p minimum [] scores h = refl
  add_scores-none st p minimum (f ∷ fs) scores h =
      rw (h f (inl refl)) (add_scores-none st p minimum fs scores (λ g i. h g (inr i)))

  neutral_weights-IsFrom :
      (st : Setting fl) (p : PortfolioPolicy fl) (scores current : Dict fl.F)
      → IsFrom scores current (neutral_weights fl st p scores current)
  unfolding neutral_weights
  neutral_weights-IsFrom st p scores current =
      let mean = fl.div (fl.sum (values scores)) (st.of_length (length scores)) in
      let centered = map_items fl (λ s. fl.sub s mean) scores in
      let gross = fl.sum (map fl.abs (values centered)) in
      let scale : fl.F → fl.F = λ s. fl.mul (fl.div s gross) p.gross_target in
      either-IsFrom (fl.lt fl.tolerance gross) scores current (map_items fl scale centered) current
        (inr (λ j.
          has_key-map_items fl j scale centered
          ∙ has_key-map_items fl j (λ s. fl.sub s mean) scores))
        (inl refl)

  long_weights-IsFrom :
      (p : PortfolioPolicy fl) (scores current : Dict fl.F)
      → IsFrom scores current (long_weights fl p scores)
  unfolding long_weights
  long_weights-IsFrom p scores current = inr (λ j.
      has_key-map_items fl j (λ s. fl.mul (fl.div s (fl.sum (values scores))) p.gross_target)
        scores)

  weights_of-IsFrom :
      (st : Setting fl) (p : PortfolioPolicy fl) (scores current : Dict fl.F)
      → IsFrom scores current (weights_of fl st p scores current)
  unfolding weights_of
  weights_of-IsFrom st p scores current =
      let neutral = neutral_weights fl st p scores current in
      let long = long_weights fl p scores in
      either-IsFrom (is_empty scores) scores current current
        (if p.market_neutral then neutral else long) (inl refl)
        (either-IsFrom p.market_neutral scores current neutral long
          (neutral_weights-IsFrom st p scores current) (long_weights-IsFrom p scores current))

  -- Without a forecast that takes part the current book is held.
  weights_of-held :
      (st : Setting fl) (fs : List (Forecast fl)) (p : PortfolioPolicy fl) (minimum : fl.F)
      (current : Dict fl.F)
      → ((f : Forecast fl) → In f fs → (f.abstained || fl.lt f.confidence minimum) ≡ true)
      → weights_of fl st p (scores_of fl st p minimum fs) current ≡ current
  unfolding weights_of scores_of
  weights_of-held st fs p minimum current h =
      let nothing : add_scores fl st p minimum (sort_by (forecast_before fl) fs) [] ≡ [] =
        add_scores-none st p minimum (sort_by (forecast_before fl) fs) []
          (λ f i. h f ((sort_by_iff (forecast_before fl) f fs).0 i)) in
      rw nothing refl

  scores_of-IsEligible :
      (st : Setting fl) (p : PortfolioPolicy fl) (minimum : fl.F) (ticker : ℕ)
      (fs : List (Forecast fl))
      → has_key ticker (scores_of fl st p minimum fs) ≡ true
      → (f : Forecast fl) × In f fs × IsEligible minimum ticker f
  unfolding scores_of
  scores_of-IsEligible st p minimum ticker fs e =
      elim (add_scores-IsEligible st p minimum ticker (sort_by (forecast_before fl) fs) [] e) [
        | inl had ↦ absurd (cc (had))
        | inr (f, inside, eligible) ↦
            (f, (sort_by_iff (forecast_before fl) f fs).0 inside, eligible)
      ]

  has_valid_fields-cash :
      (q : PortfolioProposal fl)
      → has_valid_fields fl q ≡ true
      → (fl.le fl.zero q.cash_weight ≡ true) × (fl.le q.cash_weight fl.one ≡ true)
  unfolding has_valid_fields
  has_valid_fields-cash q h =
      let (rest, high) = &&-true _ _ h in
      let (_, lows) = &&-true _ _ rest in ((&&-true _ _ lows).0, high)

  -- The weights of a proposal that is returned are the current book's, without dust, or every
  -- ticker with a weight has a forecast that did not abstain, is confident enough, and has a return
  -- and a volatility; if every forecast abstains or is not confident enough, they are the current
  -- book's. Cash is between zero and one.
  pub construct_portfolio-IsEligible :
      (st : Setting fl) (fs : List (Forecast fl)) (p : PortfolioPolicy fl) (minimum : fl.F)
      (current : Dict fl.F) (q : PortfolioProposal fl)
      → construct_portfolio fl st fs p minimum current ≡ some q
      → ((q.target_weights ≡ cleaned fl (sort_items current))
          ⊎ ((ticker : ℕ)
              → has_key ticker q.target_weights ≡ true
              → (f : Forecast fl) × In f fs × IsEligible minimum ticker f))
        × (((f : Forecast fl) → In f fs → (f.abstained || fl.lt f.confidence minimum) ≡ true)
            → q.target_weights ≡ cleaned fl (sort_items current))
        × (fl.le fl.zero q.cash_weight ≡ true)
        × (fl.le q.cash_weight fl.one ≡ true)
  unfolding construct_portfolio proposal_of
  construct_portfolio-IsEligible st fs p minimum current q e =
      let book = sort_items current in
      let scores = scores_of fl st p minimum fs in
      let weights = weights_of fl st p scores book in
      let made = proposal_of fl st fs (cleaned fl weights) book in
      elim (Bool-cases (has_valid_fields fl made)) [
        | inl valid ↦
            let same : made ≡ q = cc (rw valid at e) in
            let (low, high) = has_valid_fields-cash made valid in
            subst
              (λ (x : PortfolioProposal fl).
                ((x.target_weights ≡ cleaned fl (sort_items current))
                  ⊎ ((ticker : ℕ)
                      → has_key ticker x.target_weights ≡ true
                      → (f : Forecast fl) × In f fs × IsEligible minimum ticker f))
                × (((f : Forecast fl)
                      → In f fs
                      → (f.abstained || fl.lt f.confidence minimum) ≡ true)
                    → x.target_weights ≡ cleaned fl (sort_items current))
                × (fl.le fl.zero x.cash_weight ≡ true)
                × (fl.le x.cash_weight fl.one ≡ true))
              same
              (
                elim (weights_of-IsFrom st p scores book) [
                  | inl held ↦ inl (ap (cleaned fl) held)
                  | inr listed ↦ inr (λ ticker h.
                      scores_of-IsEligible st p minimum ticker fs
                        (sym (listed ticker) ∙ cleaned-has_key fl ticker weights h))
                ],
                λ h. ap (cleaned fl) (weights_of-held st fs p minimum book h),
                low,
                high,
              )
        | inr bad ↦ absurd (cc (rw bad at e))
      ]
