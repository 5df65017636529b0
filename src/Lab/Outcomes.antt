-- ===== src/Lab/Outcomes.antt =====
-- `OutcomeLedger` and `build_postmortem` (aegis/research_lab/outcomes.py), with `OutcomeRecord` and
-- `PostmortemReport` (aegis/contracts/lab.py).
use aegis_quant.Common.{
  ℕ, ◌||◌, List, ltb, any, is_empty, length, map, if◌then◌else◌, Dict, Option, none, some, Call,
  returned, raised,
}
use aegis_quant.Common.Sort.{sort_keys}
use aegis_quant.Num.{FloatOps}
use aegis_quant.Sealed.Table.{Codec, SealedError, Row, keep, read_all}

-- `OutcomeIntegrityError` of an outcome that is not mature, and those of the table.
pub data OutcomeError : Type 0 where
  not_mature : OutcomeError
  of_table : SealedError → OutcomeError

module _ (fl : FloatOps) where
  pub record OutcomeRecord : Type 0 where
    pub outcome_id : ℕ
    pub horizon_end : ℕ
    pub realized_excess_return : fl.F
    pub forecast_error : fl.F
    pub costs : fl.F
    pub available_at : ℕ
    pub content : ℕ

  pub data Diagnosis : Type 0 where
    error_exceeded_return error_bounded : Diagnosis

  -- The report without the hash of its fields.
  pub record PostmortemReport : Type 0 where
    pub report_id : ℕ
    pub outcome_ids : List ℕ
    pub diagnosis : Diagnosis
    pub mean_absolute_forecast_error : fl.F
    pub total_realized_excess_return : fl.F
    pub total_costs : fl.F
    pub candidate_ids : List ℕ
    pub produced_at : ℕ

  module _ (oc : Codec OutcomeRecord) (pc : Codec PostmortemReport) where
    -- The two tables.
    pub record OutcomeLedger : Type 0 where
      pub outcomes : Dict (Row oc)
      pub postmortems : Dict (Row pc)

    unfoldable pub append_outcome : OutcomeRecord → OutcomeLedger → Call OutcomeError OutcomeLedger
    append_outcome o s =
        if ltb o.available_at o.horizon_end
        then raised not_mature
        else elim (keep oc o.outcome_id o s.outcomes) [
          | raised why ↦ raised (of_table why)
          | returned table ↦ returned (record s { outcomes = table })
        ]

    unfoldable pub append_postmortem :
        PostmortemReport → OutcomeLedger → Call OutcomeError OutcomeLedger
    append_postmortem r s = elim (keep pc r.report_id r s.postmortems) [
      | raised why ↦ raised (of_table why)
      | returned table ↦ returned (record s { postmortems = table })
    ]

    unfoldable pub outcomes : OutcomeLedger → Call SealedError (List OutcomeRecord)
    outcomes s = read_all oc s.outcomes

  -- `build_postmortem`, `none` for its ValueError; `of_length` is the float of a list's length.
  unfoldable pub build_postmortem :
      (ℕ → fl.F) → ℕ → List OutcomeRecord → ℕ → List ℕ → Option PostmortemReport
  build_postmortem of_length report_id os produced_at candidate_ids =
      if is_empty os || any (λ (o : OutcomeRecord). ltb produced_at o.available_at) os
      then none
      else let n = of_length (length os) in
        let mean = fl.div (fl.sum (map (λ (o : OutcomeRecord). fl.abs o.forecast_error) os)) n in
        let total = fl.sum (map (λ (o : OutcomeRecord). o.realized_excess_return) os) in
        some (record {
          report_id = report_id;
          outcome_ids = sort_keys (map (λ (o : OutcomeRecord). o.outcome_id) os);
          diagnosis =
              if fl.lt (fl.div (fl.abs total) n) mean then error_exceeded_return else error_bounded;
          mean_absolute_forecast_error = mean;
          total_realized_excess_return = total;
          total_costs = fl.sum (map (λ (o : OutcomeRecord). o.costs) os);
          candidate_ids = sort_keys candidate_ids;
          produced_at = produced_at;
        })
