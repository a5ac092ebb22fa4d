-- ===== src/Services/Sbti/Assess.antt =====
-- `assess_status` as a whole, for a target that its constructor accepted.
use Prim.Native.Nat.{max}
use ghg_tool.Prelude.{
  ℕ, ◌+◌, ◌-◌, ◌≤◌, ◌<◌, ◌≡◌, refl, ◌∙◌, Bool, true, false, ◌&&◌, [], ◌∷◌, Option, none, some, ◌⊎◌,
  inl, inr, arith, leb, Bool-cases, Option-cases, le→leb, if◌then◌else◌, length,
}
use ghg_tool.Prelude.Dict.{Dict, nat_eq, lookup}
use ghg_tool.Decimal.{Decimal, nought, le_dec, ◌-ᵈ◌}
use ghg_tool.Decimal.Order.{divide-eq, positive_of_guard}
use ghg_tool.Domain.SbtiTarget.{SbtiTarget, IsReduction-post_init, post_init}
use ghg_tool.Result.{ok}
use ghg_tool.Result.Ensures.{IsOk}
use ghg_tool.Services.Sbti.{
  on_track, no_data, value_at, by_year, compute_trajectory, max_key, latest_year_with_data,
  compare_with, delta_pct, assess_status,
}
use ghg_tool.Services.Sbti.Status.{
  trajectory_at, trajectory, trajectory-eq, trajectory-ends, length-trajectory, lookup-trajectory,
  assess_latest-eq, on_track-compare_with,
}

abbrev has {ℓ} : {A : Type ℓ} → Option A → Bool
has none = false
has (some a) = true

-- The greatest key is a key.
max_key-lookup :
    (y : ℕ) (d : Dict ℕ Decimal) → (max_key y d ≡ y) ⊎ (has (lookup (max_key y d) d) ≡ true)
unfolding max_key lookup
max_key-lookup y [] = inl refl
max_key-lookup y ((k, v) ∷ d) = ground (arith, max_key-lookup (max y k) d)

latest_year-lookup :
    (d : Dict ℕ Decimal) (y : ℕ) → latest_year_with_data d ≡ some y → has (lookup y d) ≡ true
unfolding latest_year_with_data max_key lookup
latest_year-lookup [] y h = ground arith
latest_year-lookup ((k, v) ∷ d) y h = ground (arith, max_key-lookup k d)

le_dec_zero : (x : Decimal) → x.coeff ≡ 0 → le_dec x nought ≡ true
unfolding le_dec
le_dec_zero x h = ground arith

-- The trajectory of a target that was accepted exists; it has one point for each year from the
-- baseline to the target and for no other year, and its two ends are the baseline and the target
-- value.
pub compute_trajectory-post_init :
    (t u : SbtiTarget)
    → post_init t ≡ ok u
    → (compute_trajectory t.baseline_year t.baseline_tco2e t.target_year t.target_tco2e
        ≡ ok (trajectory t))
      × (length (trajectory t) ≡ t.target_year - t.baseline_year + 1)
      × ((y : ℕ)
          → lookup y (by_year (trajectory t)) ≡ (
              if leb t.baseline_year y && leb y t.target_year
              then some (trajectory_at t y)
              else none))
      × (lookup t.baseline_year (by_year (trajectory t)) ≡ some t.baseline_tco2e)
      × (lookup t.target_year (by_year (trajectory t)) ≡ some t.target_tco2e)
compute_trajectory-post_init t u accepted =
    let valid = IsReduction-post_init t u accepted in
    (
      trajectory-eq t valid,
      length-trajectory t valid,
      lookup-trajectory t valid,
      (trajectory-ends t valid).0,
      (trajectory-ends t valid).1,
    )

module _ (p q : Decimal) where
  compare_with-IsOk :
      (traj : Decimal) (actual : Option Decimal)
      → has actual ≡ true
      → IsOk (compare_with p q (some traj) actual)
  unfolding compare_with delta_pct
  compare_with-IsOk traj none h = ground arith
  compare_with-IsOk traj (some actual) h = elim (Bool-cases (le_dec traj nought)) [
    | inl zero_or_less ↦ rw zero_or_less tt
    | inr positive ↦
        rw (positive, divide-eq (actual -ᵈ traj) traj (positive_of_guard traj positive).1) tt
  ]

  module _ (t u : SbtiTarget) (accepted : post_init t ≡ ok u) (actuals : Dict ℕ Decimal) where
    assess_status-eq :
        (y : ℕ)
        → latest_year_with_data actuals ≡ some y
        → assess_status t actuals p q ≡ (
            if leb t.baseline_year y && leb y t.target_year
            then compare_with p q (some (trajectory_at t y)) (lookup y actuals)
            else ok no_data)
    unfolding assess_status
    assess_status-eq y h =
        rw (assess_status, h)
          (assess_latest-eq t (IsReduction-post_init t u accepted) actuals p q y)

    -- The assessment of a target that was accepted never raises, whatever the observations.
    pub assess_status-IsOk : IsOk (assess_status t actuals p q)
    unfolding assess_status
    assess_status-IsOk = elim (Option-cases (latest_year_with_data actuals)) [
      | inl empty ↦ rw (assess_status, empty) tt
      | inr (y, found) ↦
          rw (assess_status-eq y found)
            (elim (Bool-cases (leb t.baseline_year y && leb y t.target_year)) [
              | inl inside ↦ rw inside (
                  compare_with-IsOk (trajectory_at t y) (lookup y actuals)
                    (latest_year-lookup actuals y found))
              | inr outside ↦ rw outside tt
            ])
    ]

    -- If the latest year with data is outside the target's window, the answer is no_data.
    pub assess_status-outside :
        (y : ℕ)
        → latest_year_with_data actuals ≡ some y
        → (y < t.baseline_year) ⊎ (t.target_year < y)
        → assess_status t actuals p q ≡ ok no_data
    assess_status-outside y h out = ground (arith, assess_status-eq y h)

    -- If the latest year is in the window and its actual is at most the trajectory's value, which is
    -- positive, and the first band is not negative, then the answer is on_track.
    pub assess_status-on_track :
        (y : ℕ) (actual : Decimal)
        → latest_year_with_data actuals ≡ some y
        → lookup y actuals ≡ some actual
        → t.baseline_year ≤ y
        → y ≤ t.target_year
        → p.neg ≡ false
        → le_dec (trajectory_at t y) nought ≡ false
        → le_dec actual (trajectory_at t y) ≡ true
        → assess_status t actuals p q ≡ ok on_track
    assess_status-on_track y actual h look low high hp positive below =
        assess_status-eq y h
        ∙ rw (le→leb _ _ low, le→leb _ _ high, look)
            (on_track-compare_with p q (trajectory_at t y) actual hp positive below)

    -- If the target value is zero and the latest year with data is the target year, the answer is
    -- no_data, whatever the actual of that year.
    pub assess_status-zero_target :
        latest_year_with_data actuals ≡ some t.target_year
        → t.target_tco2e.coeff ≡ 0
        → assess_status t actuals p q ≡ ok no_data
    unfolding value_at compare_with
    assess_status-zero_target h z = ground (
      arith,
      assess_status-eq t.target_year h,
      (IsReduction-post_init t u accepted).years,
      le_dec_zero t.target_tco2e z,
    )
