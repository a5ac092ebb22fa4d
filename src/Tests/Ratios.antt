-- ===== src/Tests/Ratios.antt =====
-- The intensities of one year of four records.
use ghg_tool.Prelude.{◌≡◌, refl, true, String, ℕ, none, List, [], ◌∷◌, arith}
use ghg_tool.Decimal.{Decimal, dec, le_dec}
use ghg_tool.Result.{ok}
use ghg_tool.Result.Trace.{spread}
use ghg_tool.Domain.Emission.{EmissionRecord, mem}
use ghg_tool.Calc.Helpers.{draft, stamp}
use ghg_tool.Services.Intensity.{
  IntensityReferenceInputs, RunInfo, allowed_scope2_variants, compute_intensities,
}
use ghg_tool.Services.Intensity.Ratios.{three, compute_intensities-three}
use ghg_tool.Tests.Inputs.{factor_of}
use ghg_tool.Tests.Hotspots.{ctx}

abbrev emission : String → ℕ → Decimal → EmissionRecord
emission sub_scope scope amount =
    stamp ctx (draft scope sub_scope "mass-based" "AR6" none none 2024 amount (factor_of "F") [])

abbrev records : List EmissionRecord
records =
    emission "combustion" 1 (dec 90 0)
    ∷ emission "LB" 2 (dec 20 0)
    ∷ emission "MB" 2 (dec 9 0)
    ∷ emission "Cat1" 3 (dec 40 0)
    ∷ []

abbrev reference : IntensityReferenceInputs
reference = record {
  anno = 2024;
  production_tonnes = dec 5000 0;
  revenue_meur = dec 125 1;
  fte = 484;
  hr_confirmation_date = "2025-01-31";
}

abbrev info : RunInfo
info = record {
  correlation_id = 1;
  gwp_set = "AR6";
  regulatory_stream = "CSRD_ESRS_E1";
  created_by = "intensity_service";
  calc_timestamp = record { instant = 5; aware = true };
}

abbrev note : ℕ → String → String → String
note fte date variant = date

compute_intensities-three_example :
    compute_intensities note info records (reference ∷ [])
    ≡ ok (
        spread
          (λ ref. spread (three note info records ref) allowed_scope2_variants)
          (reference ∷ []))
unfolding mem stamp le_dec
compute_intensities-three_example =
    compute_intensities-three note info refl refl records (reference ∷ [])
      (refl, (refl, (refl, (refl, tt)))) ((refl, refl, omega arith), tt)
