-- ===== src/Services/Sbti/Trajectory.antt =====
-- The trajectory has one point for each year from the baseline to the target, and its ends are exact.
use ghg_tool.Prelude.{
  ℕ, zero, suc, ◌+◌, ◌-◌, ◌<◌, ◌≡◌, refl, false, ◌&&◌, none, some, List, map, arith, leb, ltb,
  length, if◌then◌else◌,
}
use ghg_tool.Prelude.Dict.{nat_eq, lookup}
use ghg_tool.Decimal.{Decimal, nought, of_ℕ, le_dec, lt_dec, quotient, ◌-ᵈ◌}
use ghg_tool.Decimal.Order.{divide-eq}
use ghg_tool.Result.{ok}
use ghg_tool.Services.Sbti.{
  TrajectoryPoint, range_from, value_at, point_at, by_year, compute_trajectory,
}

-- The dictionary by year holds exactly the years of the range.
pub by_year-range_from :
    (b : ℕ) (value : ℕ → Decimal) (s n y : ℕ)
    → lookup y (by_year (map (point_at b value) (range_from s n)))
      ≡ (if leb (b + s) y && ltb y (b + s + n) then some (value (y - b)) else none)
unfolding lookup range_from
by_year-range_from b value s zero y = ground arith
by_year-range_from b value s (suc n) y = ground (arith, by_year-range_from b value (s + 1) n y)

pub length-range_from : (s n : ℕ) → length (range_from s n) ≡ n
unfolding range_from
length-range_from s zero = refl
length-range_from s (suc n) = omega (arith, length-range_from (s + 1) n)

module _ (baseline_year : ℕ) (baseline : Decimal) (target_year : ℕ) (target : Decimal) where
  -- The trajectory's yearly step.
  abbrev pub delta : Decimal
  delta = quotient (baseline -ᵈ target) (of_ℕ (target_year - baseline_year))

  abbrev pub points : List TrajectoryPoint
  points =
      map (point_at baseline_year (value_at baseline target delta (target_year - baseline_year)))
        (range_from 0 (target_year - baseline_year + 1))

  pub compute_trajectory-points :
      baseline_year < target_year
      → lt_dec target nought ≡ false
      → le_dec baseline nought ≡ false
      → compute_trajectory baseline_year baseline target_year target ≡ ok points
  unfolding compute_trajectory
  compute_trajectory-points h t b =
      ground (arith, divide-eq (baseline -ᵈ target) (of_ℕ (target_year - baseline_year)))
