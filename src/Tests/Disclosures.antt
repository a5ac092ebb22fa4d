-- ===== src/Tests/Disclosures.antt =====
-- Reconciliations, frozen totals, coverages, intensities and a base year.
use ghg_tool.Prelude.{
  ℕ, ◌≡◌, refl, false, none, some, List, [], ◌∷◌, String, arith, map, keep, ◌==◌, All,
}
use ghg_tool.Prelude.Dict.{lookup, update}
use ghg_tool.Prelude.Sort.{sort}
use ghg_tool.Decimal.{Decimal, dec, nought, sum_from}
use ghg_tool.Result.{ok}
use ghg_tool.Services.Reconciliation.{
  Row, ReconciliationResult, by_key, index_from, union_keys, unsortable, key_le,
}
use ghg_tool.Services.Reconciliation.Deltas.{Settings, reconcile, delta_of}
use ghg_tool.Services.Reconciliation.Tallies.{IsTallied, priors, currents, reconcile-IsTallied}
use ghg_tool.Services.Reconciliation.Matching.{
  ComparesLast, reconcile-ComparesLast, reconcile-unchanged,
}
use ghg_tool.Services.Reconciliation.Snapshot.{
  FrozenRow, amounts, result_totals_by_scope, result_totals_by_scope-sums,
}
use ghg_tool.Services.Sbti.Coverage.{ConsolidatedRow, load_actuals, load_actuals-scope1}
use ghg_tool.Services.Recalculation.{RecalculationDecision, Decides, evaluate, evaluate-decision}
use ghg_tool.Domain.Emission.{mem, allowed_sub_scopes}

abbrev settings : Settings
settings = record {
  materiality_pct = dec 5 0;
  materiality_tco2e = dec 100 0;
  methodology_flags = [];
  baseline_of = λ k. none;
}

abbrev row_of : String → Decimal → Row
row_of site v = record {
  key = ((1, ("combustion", some site)), 2024);
  tco2e = some v;
  factor_version = some "v1";
}

-- Gas and diesel of one site, under one key, and another site.
abbrev frozen : List Row
frozen = row_of "A" (dec 700 0) ∷ row_of "A" (dec 30 0) ∷ row_of "B" (dec 5 0) ∷ []

abbrev now : List Row
now = row_of "A" (dec 900 0) ∷ row_of "A" (dec 30 0) ∷ []

reconcile-IsTallied_example :
    (r : ReconciliationResult) × (reconcile settings frozen now ≡ ok r)
    × IsTallied settings r
    × (r.rows
        ≡ map
            (delta_of settings (by_key frozen) (by_key now))
            (sort key_le (union_keys (by_key frozen) (by_key now))))
unfolding unsortable union_keys by_key index_from lookup update
reconcile-IsTallied_example = reconcile-IsTallied settings frozen now refl

reconcile-ComparesLast_example :
    (r : ReconciliationResult) × (reconcile settings frozen now ≡ ok r)
    × (r.total_prior ≡ sum_from nought (priors r.rows))
    × (r.total_current ≡ sum_from nought (currents r.rows))
    × All (ComparesLast frozen now) r.rows
unfolding unsortable union_keys by_key index_from lookup update
reconcile-ComparesLast_example = reconcile-ComparesLast settings frozen now refl

reconcile-unchanged_example :
    (r : ReconciliationResult) × (reconcile settings frozen frozen ≡ ok r)
    × (r.material_count ≡ 0)
    × (r.restatement_required ≡ false)
unfolding unsortable union_keys by_key index_from lookup update
reconcile-unchanged_example = reconcile-unchanged settings refl (omega arith) refl frozen refl

abbrev frozen_row : ℕ → String → ℕ → FrozenRow
frozen_row scope sub_scope n = record { scope = scope; sub_scope = sub_scope; tco2e = dec n 0 }

abbrev frozen_rows : List FrozenRow
frozen_rows =
    frozen_row 1 "combustion" 7
    ∷ frozen_row 2 "LB" 20
    ∷ frozen_row 2 "MB" 9
    ∷ frozen_row 3 "Cat1" 4
    ∷ []

result_totals_by_scope-sums_example :
    ((result_totals_by_scope frozen_rows).scope1 ≡ sum_from nought (amounts 1 frozen_rows))
    × ((result_totals_by_scope frozen_rows).scope3 ≡ sum_from nought (amounts 3 frozen_rows))
    × ((result_totals_by_scope frozen_rows).scope2_lb ≡ nought)
    × ((result_totals_by_scope frozen_rows).scope2_mb ≡ nought)
result_totals_by_scope-sums_example =
    result_totals_by_scope-sums frozen_rows (refl, (refl, (refl, (refl, tt))))

abbrev consolidated : ℕ → String → ℕ → ConsolidatedRow
consolidated scope sub_scope n = record {
  scope = scope;
  sub_scope = sub_scope;
  anno = 2024;
  tco2e = dec n 0;
}

abbrev consolidated_rows : List ConsolidatedRow
consolidated_rows =
    consolidated 1 "combustion" 7 ∷ consolidated 2 "MB" 9 ∷ consolidated 3 "Cat1" 4 ∷ []

load_actuals-scope1_example :
    load_actuals "S1+S2_MB+S3" 2020 2030 consolidated_rows
    ≡ load_actuals "S1+S2_MB+S3" 2020 2030
        (keep (λ (r : ConsolidatedRow). r.scope == 1) consolidated_rows)
unfolding mem allowed_sub_scopes
load_actuals-scope1_example =
    load_actuals-scope1 "S1+S2_MB+S3" 2020 2030 consolidated_rows (refl, (refl, (refl, tt)))

evaluate-decision_example :
    ((d : RecalculationDecision) × (evaluate (dec 1000 0) (dec 1100 0) (some "STRUCTURAL_CHANGE")
        ≡ ok d)
      × Decides (dec 1000 0) (dec 1100 0) (some "STRUCTURAL_CHANGE") d)
    × ((d : RecalculationDecision) × (evaluate (dec 1000 0) (dec 1000 0) (some "STRUCTURAL_CHANGE")
          ≡ ok d)
        × (d.triggered ≡ false))
evaluate-decision_example =
    evaluate-decision (dec 1000 0) (dec 1100 0) (some "STRUCTURAL_CHANGE") refl refl
