-- ===== src/Tests/Targets.antt =====
-- A target of half the emissions in ten years, and one of zero.
use ghg_tool.Prelude.{
  ℕ, ◌≡◌, ◌&&◌, refl, true, none, some, [], ◌∷◌, length, leb, if◌then◌else◌, arith, inr,
}
use ghg_tool.Prelude.Dict.{Dict, lookup, nat_eq}
use ghg_tool.Decimal.{Decimal, dec, nought, le_dec, lt_dec}
use ghg_tool.Domain.Emission.{mem}
use ghg_tool.Domain.SbtiTarget.{SbtiTarget, post_init}
use ghg_tool.Result.{ok}
use ghg_tool.Result.Ensures.{IsOk}
use ghg_tool.Services.Sbti.{
  on_track, no_data, value_at, by_year, compute_trajectory, latest_year_with_data, max_key,
  assess_status,
}
use ghg_tool.Services.Sbti.Status.{trajectory, trajectory_at}
use ghg_tool.Services.Sbti.Assess.{
  compute_trajectory-post_init, assess_status-IsOk, assess_status-outside, assess_status-on_track,
  assess_status-zero_target,
}

abbrev target_of : Decimal → SbtiTarget
target_of final = record {
  target_id = 1;
  tenant_id = 1;
  name = "Halve";
  scope_coverage = "S1+S2_LB";
  baseline_year = 2020;
  baseline_tco2e = dec 1000 0;
  target_year = 2030;
  target_tco2e = final;
  reduction_pct = dec 50 0;
  alignment = "1.5C";
  methodology = "SBTi_ACA";
  sbti_approval_status = "committed";
  sbti_validation_date = none;
  created_by = "analyst";
  created_at = 0;
  is_active = true;
}

abbrev halved : SbtiTarget
halved = target_of (dec 500 0)

abbrev emptied : SbtiTarget
emptied = target_of nought

halved-accepted : post_init halved ≡ ok halved
unfolding post_init mem le_dec lt_dec
halved-accepted = refl

emptied-accepted : post_init emptied ≡ ok emptied
unfolding post_init mem le_dec lt_dec
emptied-accepted = refl

-- In 2030 the actual is at most the trajectory's 500; 2031 is after the target's year.
abbrev actuals : Dict ℕ Decimal
actuals = (2023, dec 900 0) ∷ (2030, dec 480 0) ∷ []

abbrev late_actuals : Dict ℕ Decimal
late_actuals = (2024, dec 9000 0) ∷ (2031, dec 400 0) ∷ []

abbrev final_actuals : Dict ℕ Decimal
final_actuals = (2024, dec 900 0) ∷ (2030, dec 5000 0) ∷ []

compute_trajectory-post_init_example :
    (compute_trajectory 2020 (dec 1000 0) 2030 (dec 500 0) ≡ ok (trajectory halved))
    × (length (trajectory halved) ≡ 11)
    × ((y : ℕ)
        → lookup y (by_year (trajectory halved))
          ≡ (if leb 2020 y && leb y 2030 then some (trajectory_at halved y) else none))
    × (lookup 2020 (by_year (trajectory halved)) ≡ some (dec 1000 0))
    × (lookup 2030 (by_year (trajectory halved)) ≡ some (dec 500 0))
compute_trajectory-post_init_example = compute_trajectory-post_init halved halved halved-accepted

assess_status-IsOk_example : IsOk (assess_status halved actuals (dec 5 0) (dec 10 0))
assess_status-IsOk_example =
    assess_status-IsOk (dec 5 0) (dec 10 0) halved halved halved-accepted actuals

assess_status-outside_example : assess_status halved late_actuals (dec 5 0) (dec 10 0) ≡ ok no_data
unfolding latest_year_with_data max_key
assess_status-outside_example =
    assess_status-outside (dec 5 0) (dec 10 0) halved halved halved-accepted late_actuals 2031 refl
      (inr (omega arith))

assess_status-on_track_example : assess_status halved actuals (dec 5 0) (dec 10 0) ≡ ok on_track
unfolding latest_year_with_data max_key lookup value_at le_dec
assess_status-on_track_example =
    assess_status-on_track (dec 5 0) (dec 10 0) halved halved halved-accepted actuals 2030
      (dec 480 0) refl refl (omega arith) (omega arith) refl refl refl

assess_status-zero_target_example :
    assess_status emptied final_actuals (dec 5 0) (dec 10 0) ≡ ok no_data
unfolding latest_year_with_data max_key
assess_status-zero_target_example =
    assess_status-zero_target (dec 5 0) (dec 10 0) emptied emptied emptied-accepted final_actuals
      refl refl
