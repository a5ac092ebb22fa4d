-- ===== src/Services/Intensity.antt =====
-- application/services/intensity_service.py and domain/entities/intensity_metric.py: the three
-- intensity ratios of each reference year, by both variants of Scope 2. The instant of the run is an
-- argument; so is how the note is printed from the inputs. The default `id` is left out.
pub mod Ratios
use ghg_tool.Prelude.{
  ℕ, Bool, true, false, not, ◌&&◌, ◌||◌, String, Option, none, some, List, [], ◌∷◌, ◌++◌, map, keep,
  ◌==◌, str_eq, if◌then◌else◌,
}
use ghg_tool.Decimal.{Decimal, nought, of_ℕ, le_dec, lt_dec, divide, ◌+ᵈ◌}
use ghg_tool.Domain.Emission.{EmissionRecord, Datetime, mem, allowed_gwp_sets}
use ghg_tool.Domain.Factor.{Uuid}
use ghg_tool.Result.{
  Result, ok, err, value_error, invalid_gwp_set, invalid_intensity_denominator, naive_timestamp,
  zero_division, raise_if, gather, ◌>>=◌, ◌>>◌,
}

pub record IntensityReferenceInputs : Type 0 where
  pub anno : ℕ
  pub production_tonnes : Decimal
  pub revenue_meur : Decimal
  pub fte : ℕ
  pub hr_confirmation_date : String

pub record IntensityMetric : Type 0 where
  pub correlation_id : Uuid
  pub kpi_code : String
  pub anno : ℕ
  pub scope2_variant : String
  pub numerator_tco2e : Decimal
  pub denominator_value : Decimal
  pub denominator_unit : String
  pub intensity_value : Decimal
  pub gwp_set : String
  pub regulatory_stream : String
  pub calc_timestamp : Datetime
  pub created_by : String
  pub disclosure_notes : String

abbrev pub allowed_kpi_codes : List String
allowed_kpi_codes = "KPI-09" ∷ "KPI-10" ∷ "KPI-11" ∷ []

abbrev pub allowed_scope2_variants : List String
allowed_scope2_variants = "LB" ∷ "MB" ∷ []

-- `__post_init__`: the metric itself if all checks pass.
unfoldable pub metric_post_init : IntensityMetric → Result IntensityMetric
metric_post_init m = do
  raise_if (not (mem m.kpi_code allowed_kpi_codes)) value_error
  raise_if (not (mem m.scope2_variant allowed_scope2_variants)) value_error
  raise_if (not (mem m.gwp_set allowed_gwp_sets)) invalid_gwp_set
  raise_if (le_dec m.denominator_value nought) invalid_intensity_denominator
  raise_if (lt_dec m.numerator_tco2e nought) value_error
  raise_if (not m.calc_timestamp.aware) naive_timestamp
  ok m

-- What the metrics of a run share.
pub record RunInfo : Type 0 where
  pub correlation_id : Uuid
  pub gwp_set : String
  pub regulatory_stream : String
  pub created_by : String
  pub calc_timestamp : Datetime

-- Not skipped by the loop.
abbrev pub is_counted : (anno : ℕ) (variant : String) → EmissionRecord → Bool
is_counted anno variant e = e.anno == anno && not (e.scope == 2 && not (str_eq e.sub_scope variant))

unfoldable pub total_from : Decimal → (anno : ℕ) (variant : String) → List EmissionRecord → Decimal
total_from total anno variant [] = total
total_from total anno variant (e ∷ es) =
    total_from (if is_counted anno variant e then total +ᵈ e.tco2e else total) anno variant es

-- `_sum_total`
unfoldable pub sum_total : (anno : ℕ) (variant : String) → List EmissionRecord → Decimal
sum_total = total_from nought

abbrev pub or_zero_division : Option Decimal → Result Decimal
or_zero_division none = err zero_division
or_zero_division (some v) = ok v

module _ (note : ℕ → String → String → String) (info : RunInfo) where
  abbrev pub metric :
      (kpi_code unit variant : String)
      → (numerator denominator value : Decimal) → IntensityReferenceInputs
      → IntensityMetric
  metric kpi_code unit variant numerator denominator value ref = record {
    correlation_id = info.correlation_id;
    kpi_code = kpi_code;
    anno = ref.anno;
    scope2_variant = variant;
    numerator_tco2e = numerator;
    denominator_value = denominator;
    denominator_unit = unit;
    intensity_value = value;
    gwp_set = info.gwp_set;
    regulatory_stream = info.regulatory_stream;
    calc_timestamp = info.calc_timestamp;
    created_by = info.created_by;
    disclosure_notes = note ref.fte ref.hr_confirmation_date variant;
  }

  -- numerator / denominator, then the metric
  abbrev pub ratio_metric :
      (kpi_code unit variant : String)
      → (numerator denominator : Decimal) → IntensityReferenceInputs
      → Result IntensityMetric
  ratio_metric kpi_code unit variant numerator denominator ref = do
    value ← or_zero_division (divide numerator denominator)
    metric_post_init (metric kpi_code unit variant numerator denominator value ref)

  -- `_build_kpis`
  unfoldable pub build_kpis :
      (numerator : Decimal)
      → IntensityReferenceInputs
      → (variant : String) → Result (List IntensityMetric)
  build_kpis numerator ref variant = do
    raise_if (le_dec ref.production_tonnes nought) invalid_intensity_denominator
    raise_if (le_dec ref.revenue_meur nought) invalid_intensity_denominator
    raise_if (le_dec (of_ℕ ref.fte) nought) invalid_intensity_denominator
    tonnes ← ratio_metric "KPI-09" "t" variant numerator ref.production_tonnes ref
    revenue ← ratio_metric "KPI-10" "M EUR" variant numerator ref.revenue_meur ref
    staff ← ratio_metric "KPI-11" "FTE" variant numerator (of_ℕ ref.fte) ref
    ok (tonnes ∷ revenue ∷ staff ∷ [])

  unfoldable pub compute_intensities :
      List EmissionRecord → List IntensityReferenceInputs → Result (List IntensityMetric)
  compute_intensities emissions references =
      let em_list =
        keep
          (λ (e : EmissionRecord).
            str_eq e.gwp_set info.gwp_set && str_eq e.regulatory_stream info.regulatory_stream)
          emissions in
      gather
        (λ (ref : IntensityReferenceInputs).
          gather (λ variant. build_kpis (sum_total ref.anno variant em_list) ref variant)
            allowed_scope2_variants)
        references
