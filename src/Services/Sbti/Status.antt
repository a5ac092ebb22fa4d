-- ===== src/Services/Sbti/Status.antt =====
-- What the status says of a target's latest year of data.
use ghg_tool.Prelude.{
  ℕ, ◌+◌, ◌-◌, ◌≡◌, refl, ◌∙◌, true, false, ◌&&◌, List, none, some, arith, leb, if◌then◌else◌,
  length, length-map,
}
use ghg_tool.Prelude.Dict.{Dict, nat_eq, lookup}
use ghg_tool.Decimal.{Decimal, dec, nought, le_dec, quotient, ◌-ᵈ◌, ◌*ᵈ◌}
use ghg_tool.Decimal.Order.{
  -ᵈ-IsNonpos, *ᵈ-IsNonpos, quotient-IsNonpos, le_dec-of_signs, divide-eq, positive_of_guard,
}
use ghg_tool.Domain.SbtiTarget.{SbtiTarget, IsReduction}
use ghg_tool.Result.{ok}
use ghg_tool.Services.Sbti.{
  on_track, no_data, TrajectoryPoint, value_at, by_year, compute_trajectory, compare_with,
  delta_pct, band, assess_latest,
}
use ghg_tool.Services.Sbti.Trajectory.{
  by_year-range_from, length-range_from, delta, points, compute_trajectory-points,
}

module _ (t : SbtiTarget) where
  -- The trajectory's value in a year of the window.
  abbrev pub trajectory_at : ℕ → Decimal
  trajectory_at y =
      let span = t.target_year - t.baseline_year in
      value_at t.baseline_tco2e t.target_tco2e
        (delta t.baseline_year t.baseline_tco2e t.target_year t.target_tco2e) span
        (y - t.baseline_year)

  abbrev pub trajectory : List TrajectoryPoint
  trajectory = points t.baseline_year t.baseline_tco2e t.target_year t.target_tco2e

  module _ (valid : IsReduction t) where
    pub trajectory-eq :
        compute_trajectory t.baseline_year t.baseline_tco2e t.target_year t.target_tco2e
        ≡ ok trajectory
    trajectory-eq =
        compute_trajectory-points t.baseline_year t.baseline_tco2e t.target_year t.target_tco2e
          valid.years valid.target valid.baseline

    pub length-trajectory : length trajectory ≡ t.target_year - t.baseline_year + 1
    length-trajectory = length-map _ _ ∙ length-range_from 0 (t.target_year - t.baseline_year + 1)

    pub lookup-trajectory :
        (y : ℕ)
        → lookup y (by_year trajectory)
          ≡ (if leb t.baseline_year y && leb y t.target_year then some (trajectory_at y) else none)
    lookup-trajectory y = ground (
      arith,
      valid.years,
      by_year-range_from t.baseline_year
          (value_at t.baseline_tco2e t.target_tco2e
            (delta t.baseline_year t.baseline_tco2e t.target_year t.target_tco2e)
            (t.target_year - t.baseline_year))
          0 (t.target_year - t.baseline_year + 1) y,
    )

    pub trajectory-ends :
        (lookup t.baseline_year (by_year trajectory) ≡ some t.baseline_tco2e)
        × (lookup t.target_year (by_year trajectory) ≡ some t.target_tco2e)
    unfolding value_at
    trajectory-ends = (
      (ground (arith, valid.years, lookup-trajectory t.baseline_year)),
      (ground (arith, valid.years, lookup-trajectory t.target_year)),
    )

    pub assess_latest-eq :
        (actuals : Dict ℕ Decimal) (p q : Decimal) (y : ℕ)
        → assess_latest t actuals p q y ≡ (
            if leb t.baseline_year y && leb y t.target_year
            then compare_with p q (some (trajectory_at y)) (lookup y actuals)
            else ok no_data)
    unfolding assess_latest compare_with
    assess_latest-eq actuals p q y = ground (arith, trajectory-eq, lookup-trajectory y)

pub on_track-compare_with :
    (p q traj actual : Decimal)
    → p.neg ≡ false
    → le_dec traj nought ≡ false
    → le_dec actual traj ≡ true
    → compare_with p q (some traj) (some actual) ≡ ok on_track
unfolding compare_with delta_pct band
on_track-compare_with p q traj actual hp ht h =
    let positive = positive_of_guard traj ht in
    let fraction = quotient (actual -ᵈ traj) traj in
    let below_zero =
      quotient-IsNonpos (actual -ᵈ traj) traj (-ᵈ-IsNonpos actual traj h) positive.0 in
    rw (
      ht,
      divide-eq (actual -ᵈ traj) traj positive.1,
      le_dec-of_signs (fraction *ᵈ dec 100 0) p (*ᵈ-IsNonpos fraction (dec 100 0) below_zero refl)
          hp,
    )
