-- ===== src/Tests/Hotspots.antt =====
-- A year of three Scope 3 records in two categories, and one of Scope 1.
use mathlib.Core.List.{Perm}
use ghg_tool.Prelude.{
  ℕ, ◌≤◌, ◌&&◌, ◌==◌, ◌≡◌, refl, String, none, List, [], ◌∷◌, map, keep, take, length, str_eq,
}
use ghg_tool.Prelude.Dict.{string_eq, lookup, update}
use ghg_tool.Prelude.Text.{str_ltb}
use ghg_tool.Prelude.Sort.{sort, insert}
use ghg_tool.Decimal.{
  Decimal, dec, nought, le_dec, lt_dec, sum_from, fix, num_digits, digits_fuel, add_signed, ◌+ᵈ◌,
}
use ghg_tool.Domain.Emission.{EmissionRecord}
use ghg_tool.Calc.Helpers.{Ctx, draft, stamp, or_zero, or_now}
use ghg_tool.Services.Hotspot.{aggregate_scope3, totals_from, rank_le, compute_hotspots}
use ghg_tool.Prelude.Sort.{InOrder}
use ghg_tool.Services.Hotspot.Ranking.{
  not_less, scored, ranking, ranks_from, aggregate_scope3-lookup, compute_hotspots-ranking,
}
use ghg_tool.Tests.Inputs.{factor_of}

abbrev pub ctx : Ctx
ctx = record { correlation_id = 1; created_by = "a"; regulatory_stream = "CSRD_ESRS_E1"; clock = 5 }

abbrev emission : String → ℕ → Decimal → EmissionRecord
emission sub_scope scope amount =
    stamp ctx (draft scope sub_scope "mass-based" "AR6" none none 2024 amount (factor_of "F") [])

abbrev year : List EmissionRecord
year =
    emission "Cat1" 3 (dec 40 0)
    ∷ emission "Cat12" 3 (dec 7 0)
    ∷ emission "combustion" 1 (dec 90 0)
    ∷ emission "Cat1" 3 (dec 2 0)
    ∷ []

aggregate_scope3-lookup_example :
    or_zero (lookup "Cat1" (aggregate_scope3 year))
    ≡ sum_from nought
        (map (λ r. r.tco2e) (keep (λ r. r.scope == 3 && str_eq r.sub_scope "Cat1") year))
aggregate_scope3-lookup_example = aggregate_scope3-lookup "Cat1" year

abbrev mean : List Decimal → Decimal
mean ds = nought

compute_hotspots-ranking_example :
    (map scored (compute_hotspots mean mean year [] 1 []) ≡ take 1 (ranking year))
    × (map (λ e. e.rank) (compute_hotspots mean mean year [] 1 [])
        ≡ take 1 (ranks_from 1 (ranking year)))
    × (length (compute_hotspots mean mean year [] 1 []) ≤ 1)
    × Perm (ranking year) (aggregate_scope3 (keep (λ r. r.scope == 3) year))
    × InOrder not_less (ranking year)
unfolding stamp or_now sort insert aggregate_scope3 totals_from update rank_le le_dec lt_dec
    sum_from fix num_digits digits_fuel add_signed ◌+ᵈ◌ str_ltb
compute_hotspots-ranking_example = compute_hotspots-ranking mean mean year [] 1 [] refl
