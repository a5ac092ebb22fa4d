-- ===== src/Tests/Runs.antt =====
-- A run on the example, and what its rows satisfy.
use ghg_tool.Prelude.{
  ℕ, ◌≡◌, ◌≢◌, zero, suc, ◌↔◌, refl, String, none, some, List, [], ◌∷◌, map, keep, All, true,
}
use ghg_tool.Prelude.Dict.{lookup, nat_eq, string_eq, pair_eq}
use ghg_tool.Decimal.{Decimal, dec, nought, sum_from, le_dec}
use ghg_tool.Decimal.Sign.{IsNonneg}
use ghg_tool.Domain.Emission.{EmissionRecord, post_init}
use ghg_tool.Domain.Emission.Validity.{IsValid, post_init_iff}
use ghg_tool.Domain.Gwp.{assert_single_gwp_set}
use ghg_tool.Domain.Gwp.Policy.{AllEq, assert_single_gwp_set-ok_iff}
use ghg_tool.Domain.Factor.{require_factor}
use ghg_tool.Result.{ok}
use ghg_tool.Result.Ensures.{IsOk, IsOk-value}
use ghg_tool.Calc.Helpers.{Ctx, draft, stamp, or_zero}
use ghg_tool.Calc.Helpers.Stamp.{IsOfRun}
use ghg_tool.Calc.Scope2.MarketBased
use ghg_tool.Calc.Scope2.MarketBased.{checker_of}
use ghg_tool.Calc.Scope2.MarketBased.Evidence.{amount, owed, is_backed, calculate-amounts}
use ghg_tool.Calc.Scope3.BusinessTravel.{bootstrap_ci}
use ghg_tool.Calc.Scope3.BusinessTravel.Interval.{bootstrap_ci-bounds}
use ghg_tool.Calc.Orchestrator.{common_ctx, run, sigma_scope1_from_rows, sigma_scope2_from_rows}
use ghg_tool.Calc.Orchestrator.OfRun.{run-AllOfRun}
use ghg_tool.Calc.Orchestrator.Sigma.{counts_for, sigma_scope1-lookup, sigma_scope2-lookup}
use ghg_tool.Calc.Returns.Run.{run-IsOk}
use ghg_tool.Calc.Returns.Whole.{market-IsOk}
use ghg_tool.Tests.Inputs.{
  factor_of, catalog, table, draws, inputs, gas_row, clay_row, go_row, grid_row, ready, good,
}

returned : (rows : List EmissionRecord) × (run draws 9 catalog table inputs ≡ ok rows)
returned =
    IsOk-value (run draws 9 catalog table inputs) (run-IsOk draws 9 catalog table inputs ready good)

run-IsOk_example : IsOk (run draws 9 catalog table inputs)
run-IsOk_example = run-IsOk draws 9 catalog table inputs ready good

run-AllOfRun_example : All (IsOfRun (common_ctx 9 inputs) table.code) returned.0
run-AllOfRun_example = run-AllOfRun draws 9 catalog table inputs returned.0 returned.1

-- The fuel rows of the example: only the first counts.
sigma_scope1-lookup_example :
    or_zero (lookup ("GAS_NAT", 2024) (sigma_scope1_from_rows (gas_row ∷ clay_row ∷ [])))
    ≡ sum_from nought
        (map (λ r. r.quantita) (keep (counts_for "GAS_NAT" 2024) (gas_row ∷ clay_row ∷ [])))
sigma_scope1-lookup_example = sigma_scope1-lookup "GAS_NAT" 2024 (gas_row ∷ clay_row ∷ [])

sigma_scope2-lookup_example :
    or_zero (lookup 2024 (sigma_scope2_from_rows (go_row ∷ grid_row ∷ [])))
    ≡ sum_from nought (dec 500 0 ∷ dec 700 0 ∷ [])
sigma_scope2-lookup_example = sigma_scope2-lookup 2024 (go_row ∷ grid_row ∷ [])

abbrev ctx : Ctx
ctx = common_ctx 9 inputs

market :
    (es : List EmissionRecord) × (MarketBased.calculate catalog table none ctx
        (go_row ∷ grid_row ∷ [])
      ≡ ok es)
market =
    IsOk-value (MarketBased.calculate catalog table none ctx (go_row ∷ grid_row ∷ []))
      (market-IsOk catalog table ctx ready none (go_row ∷ grid_row ∷ []) good.scope2 good.backed)

calculate-amounts_example :
    All (λ row. is_backed (checker_of none) row ≡ true) (go_row ∷ grid_row ∷ [])
    × (map amount market.0
        ≡ map
            (owed (factor_of "MB_GO_ZERO") (factor_of "MB_IT_RESIDUAL_AIB_2024"))
            (go_row ∷ grid_row ∷ []))
unfolding require_factor
calculate-amounts_example =
    calculate-amounts catalog table none ctx (go_row ∷ grid_row ∷ []) (factor_of "MB_GO_ZERO")
      (factor_of "MB_IT_RESIDUAL_AIB_2024") market.0 refl refl market.1

abbrev two_sets : List String
two_sets = "AR6" ∷ "AR6" ∷ []

assert_single_gwp_set-ok_iff_example :
    (assert_single_gwp_set ("AR6" ∷ "AR6" ∷ []) ≡ ok "AR6")
    ↔ ((two_sets ≢ []) × AllEq "AR6" ("AR6" ∷ "AR6" ∷ []))
assert_single_gwp_set-ok_iff_example = assert_single_gwp_set-ok_iff "AR6" ("AR6" ∷ "AR6" ∷ [])

abbrev emission : EmissionRecord
emission = stamp ctx (
    draft 2 "LB" "location-based" "AR6" (some 4) (some "IT01") 2024 (dec 307 3)
      (factor_of "LB_IT_GRID_ISPRA_2024") [])

post_init_iff_example :
    (post_init emission ≡ ok emission) ↔ ((emission ≡ emission) × IsValid emission)
post_init_iff_example = post_init_iff emission emission

abbrev copies : ℕ → Decimal → List Decimal
copies zero x = []
copies (suc n) x = x ∷ copies n x

bootstrap_ci-bounds_example :
    IsNonneg (bootstrap_ci (copies 1000) (dec 5 0)).0
    × IsNonneg (bootstrap_ci (copies 1000) (dec 5 0)).1
    × (le_dec (bootstrap_ci (copies 1000) (dec 5 0)).0 (bootstrap_ci (copies 1000) (dec 5 0)).1
        ≡ true)
bootstrap_ci-bounds_example = bootstrap_ci-bounds (copies 1000) (dec 5 0) refl
