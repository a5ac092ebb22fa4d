-- ===== src/Services/Sbti.antt =====
-- application/services/sbti_service.py: the linear trajectory of a target, and how the latest year of
-- data compares with it. Years are natural numbers.
pub mod Trajectory
pub mod Status
pub mod Assess
pub mod Coverage
use Prim.Native.Nat.{max}
use ghg_tool.Prelude.{
  ℕ, zero, suc, ◌+◌, ◌-◌, Bool, true, false, ◌||◌, Option, none, some, List, [], ◌∷◌, map, leb, ltb,
  ◌==◌, if◌then◌else◌,
}
use ghg_tool.Prelude.Dict.{Dict, nat_eq, lookup}
use ghg_tool.Decimal.{Decimal, dec, nought, of_ℕ, le_dec, lt_dec, divide, ◌-ᵈ◌, ◌*ᵈ◌}
use ghg_tool.Domain.SbtiTarget.{SbtiTarget}
use ghg_tool.Result.{Result, ok, err, value_error, zero_division, key_error, raise_if, ◌>>=◌, ◌>>◌}

pub data TargetStatus : Type 0 where
  on_track slightly_off off_track no_data : TargetStatus

pub record TrajectoryPoint : Type 0 where
  pub year : ℕ
  pub trajectory_tco2e : Decimal
  pub actual_tco2e : Option Decimal

-- The offsets `range(n)`, from s.
unfoldable pub range_from : ℕ → ℕ → List ℕ
range_from s zero = []
range_from s (suc n) = s ∷ range_from (s + 1) n

-- One year of the trajectory; its ends are exact.
unfoldable pub value_at : (baseline target delta_per_year : Decimal) (span offset : ℕ) → Decimal
value_at baseline target delta_per_year span offset =
    if offset == 0
    then baseline
    else if offset == span
    then target
    else baseline -ᵈ delta_per_year *ᵈ of_ℕ offset

abbrev pub point_at : ℕ → (ℕ → Decimal) → ℕ → TrajectoryPoint
point_at baseline_year value offset = record {
  year = baseline_year + offset;
  trajectory_tco2e = value offset;
  actual_tco2e = none;
}

-- A quotient, or `ZeroDivisionError`.
abbrev pub or_zero_division : Option Decimal → Result Decimal
or_zero_division none = err zero_division
or_zero_division (some q) = ok q

unfoldable pub compute_trajectory :
    (baseline_year : ℕ) (baseline_tco2e : Decimal) (target_year : ℕ) (target_tco2e : Decimal)
    → Result (List TrajectoryPoint)
compute_trajectory baseline_year baseline_tco2e target_year target_tco2e = do
  raise_if (leb target_year baseline_year) value_error
  raise_if (lt_dec target_tco2e nought || le_dec baseline_tco2e nought) value_error
  let span = target_year - baseline_year
  delta_per_year ← or_zero_division (divide (baseline_tco2e -ᵈ target_tco2e) (of_ℕ span))
  ok (
      map (point_at baseline_year (value_at baseline_tco2e target_tco2e delta_per_year span))
        (range_from 0 (span + 1)))

unfoldable pub annotate_actuals : List TrajectoryPoint → Dict ℕ Decimal → List TrajectoryPoint
annotate_actuals trajectory actual_by_year =
    map {A = TrajectoryPoint} (λ pt. record pt { actual_tco2e = lookup pt.year actual_by_year })
      trajectory

-- max(actual_by_year), on a dictionary that is not empty
unfoldable pub max_key : ℕ → Dict ℕ Decimal → ℕ
max_key y [] = y
max_key y ((k, v) ∷ d) = max_key (max y k) d

-- `_latest_year_with_data`
unfoldable pub latest_year_with_data : Dict ℕ Decimal → Option ℕ
unfolding max_key
latest_year_with_data [] = none
latest_year_with_data ((k, v) ∷ d) = some (max_key k d)

-- {pt.year: pt.trajectory_tco2e for pt in trajectory}; the years differ, so the pairs are the
-- dictionary.
abbrev pub by_year : List TrajectoryPoint → Dict ℕ Decimal
by_year = map (λ pt. (pt.year, pt.trajectory_tco2e))

-- The band that a deviation falls into.
unfoldable pub band : (delta_pct on_track_band_pct slightly_off_band_pct : Decimal) → TargetStatus
band delta_pct on_track_band_pct slightly_off_band_pct =
    if le_dec delta_pct on_track_band_pct
    then on_track
    else if le_dec delta_pct slightly_off_band_pct
    then slightly_off
    else off_track

-- (actual - traj) / traj * 100
unfoldable pub delta_pct : (actual traj : Decimal) → Result Decimal
delta_pct actual traj = do
  ratio ← or_zero_division (divide (actual -ᵈ traj) traj)
  ok (ratio *ᵈ dec 100 0)

-- The latest actual against the trajectory's value in its year.
unfoldable pub compare_with :
    (on_track_band_pct slightly_off_band_pct : Decimal)
    → Option Decimal
    → Option Decimal
    → Result TargetStatus
compare_with on_track_band_pct slightly_off_band_pct none actual = ok no_data
compare_with on_track_band_pct slightly_off_band_pct (some traj) none =
    if le_dec traj nought then ok no_data else err (key_error "latest_year")
compare_with on_track_band_pct slightly_off_band_pct (some traj) (some actual) =
    if le_dec traj nought
    then ok no_data
    else (do delta ← delta_pct actual traj; ok (band delta on_track_band_pct slightly_off_band_pct))

-- `assess_status`, after the latest year is known.
unfoldable pub assess_latest :
    SbtiTarget
    → Dict ℕ Decimal
    → (on_track_band_pct slightly_off_band_pct : Decimal) → ℕ
    → Result TargetStatus
assess_latest target actual_by_year on_track_band_pct slightly_off_band_pct latest_year =
    if ltb latest_year target.baseline_year then ok no_data else (do
      trajectory ←
          compute_trajectory target.baseline_year target.baseline_tco2e target.target_year
            target.target_tco2e
      compare_with on_track_band_pct slightly_off_band_pct (lookup latest_year (by_year trajectory))
          (lookup latest_year actual_by_year))

unfoldable pub assess_status :
    SbtiTarget
    → Dict ℕ Decimal
    → (on_track_band_pct slightly_off_band_pct : Decimal) → Result TargetStatus
assess_status target actual_by_year on_track_band_pct slightly_off_band_pct =
    elim (latest_year_with_data actual_by_year) [
      | none ↦ ok no_data
      | some y ↦ assess_latest target actual_by_year on_track_band_pct slightly_off_band_pct y
    ]
