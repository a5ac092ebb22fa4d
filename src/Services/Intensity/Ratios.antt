-- ===== src/Services/Intensity/Ratios.antt =====
-- What the service gives on sound inputs.
use ghg_tool.Prelude.{
  ℕ, ◌<◌, ◌≡◌, refl, ap, ◌∙◌, Bool, true, false, not, ◌&&◌, ◌||◌, ◌==◌, String, List, [], ◌∷◌, map,
  keep, str_eq, arith, All, Bool-cases, inl, inr,
}
use ghg_tool.Decimal.{Decimal, nought, of_ℕ, le_dec, quotient, sum_from, ◌+ᵈ◌}
use ghg_tool.Decimal.Order.{divide-eq, positive_of_guard}
use ghg_tool.Decimal.Sign.{IsNonneg, lt_dec-nought, sum_from-IsNonneg}
use ghg_tool.Domain.Emission.{EmissionRecord, mem, allowed_gwp_sets}
use ghg_tool.Result.{Result, ok, gather}
use ghg_tool.Result.Trace.{spread}
use ghg_tool.Services.Intensity.{
  IntensityReferenceInputs, IntensityMetric, RunInfo, allowed_kpi_codes, allowed_scope2_variants,
  metric, ratio_metric, metric_post_init, total_from, sum_total, build_kpis, compute_intensities,
}

-- A record counts: it is of the run's set and stream, of the year, and of another scope than the second
-- or of the variant.
abbrev pub counts_in : RunInfo → (anno : ℕ) (variant : String) → EmissionRecord → Bool
counts_in info anno variant e =
    str_eq e.gwp_set info.gwp_set
    && str_eq e.regulatory_stream info.regulatory_stream
    && e.anno == anno
    && (not (e.scope == 2) || str_eq e.sub_scope variant)

abbrev pub numerator_of : RunInfo → List EmissionRecord → (anno : ℕ) (variant : String) → Decimal
numerator_of info emissions anno variant =
    sum_from nought
      (map (λ (e : EmissionRecord). e.tco2e) (keep (counts_in info anno variant) emissions))

-- The denominators are above zero.
abbrev pub IsSound : IntensityReferenceInputs → Type 0
IsSound ref =
    (le_dec ref.production_tonnes nought ≡ false)
    × (le_dec ref.revenue_meur nought ≡ false)
    × (0 < ref.fte)

positive-of_ℕ : (n : ℕ) → 0 < n → le_dec (of_ℕ n) nought ≡ false
unfolding le_dec
positive-of_ℕ n h = ground arith

-- A loop whose every round returns.
gather-ok {ℓ κ μ} :
    {A : Type ℓ} {B : Type κ} (f : A → Result (List B)) (g : A → List B) (P : A → Type μ)
    → ((a : A) → P a → f a ≡ ok (g a))
    → (xs : List A) → All P xs
    → gather f xs ≡ ok (spread g xs)
unfolding gather spread
gather-ok f g P h [] p = refl
gather-ok f g P h (x ∷ xs) p = rw (h x p.0) (rw (gather-ok f g P h xs p.1) refl)

module _ (note : ℕ → String → String → String) (info : RunInfo) where
  -- The three metrics of a reference and a variant.
  abbrev pub three : List EmissionRecord → IntensityReferenceInputs → String → List IntensityMetric
  three emissions ref variant =
      let n = numerator_of info emissions ref.anno variant in
      metric note info "KPI-09" "t" variant n ref.production_tonnes
        (quotient n ref.production_tonnes) ref
      ∷ metric note info "KPI-10" "M EUR" variant n ref.revenue_meur (quotient n ref.revenue_meur)
          ref
      ∷ metric note info "KPI-11" "FTE" variant n (of_ℕ ref.fte) (quotient n (of_ℕ ref.fte)) ref
      ∷ []

  total_from-sum :
      (v : Decimal) (anno : ℕ) (variant : String) (emissions : List EmissionRecord)
      → total_from v anno variant (
          keep
            (λ (e : EmissionRecord).
              str_eq e.gwp_set info.gwp_set && str_eq e.regulatory_stream info.regulatory_stream)
            emissions)
        ≡ sum_from v
            (map (λ (e : EmissionRecord). e.tco2e) (keep (counts_in info anno variant) emissions))
  unfolding total_from sum_from
  total_from-sum v anno variant [] = refl
  total_from-sum v anno variant (e ∷ es) =
      ground
        (arith, total_from-sum v anno variant es, total_from-sum (v +ᵈ e.tco2e) anno variant es)

  module _ (gwp : mem info.gwp_set allowed_gwp_sets ≡ true)
      (aware : info.calc_timestamp.aware ≡ true) where
    ratio_metric-ok :
        (kpi_code unit variant : String) (n d : Decimal) (ref : IntensityReferenceInputs)
        → mem kpi_code allowed_kpi_codes ≡ true
        → mem variant allowed_scope2_variants ≡ true
        → IsNonneg n
        → le_dec d nought ≡ false
        → ratio_metric note info kpi_code unit variant n d ref
          ≡ ok (metric note info kpi_code unit variant n d (quotient n d) ref)
    unfolding metric_post_init
    ratio_metric-ok kpi_code unit variant n d ref k v h p =
        rw (divide-eq n d (positive_of_guard d p).1)
          (rw (k, v, gwp, p, lt_dec-nought n h, aware) refl)

    build_kpis-three :
        (n : Decimal) (ref : IntensityReferenceInputs) (variant : String)
        → IsNonneg n
        → IsSound ref
        → mem variant allowed_scope2_variants ≡ true
        → build_kpis note info n ref variant
          ≡ ok (
              metric note info "KPI-09" "t" variant n ref.production_tonnes
                (quotient n ref.production_tonnes)
                ref
              ∷ metric note info "KPI-10" "M EUR" variant n ref.revenue_meur
                  (quotient n ref.revenue_meur)
                  ref
              ∷ metric note info "KPI-11" "FTE" variant n
                  (of_ℕ ref.fte)
                  (quotient n (of_ℕ ref.fte))
                  ref
              ∷ [])
    unfolding build_kpis mem
    build_kpis-three n ref variant h s v =
        let staff = positive-of_ℕ ref.fte s.2 in
        rw (s.0, s.1, staff)
          (rw
            (
              ratio_metric-ok "KPI-09" "t" variant n ref.production_tonnes ref refl v h s.0,
              ratio_metric-ok "KPI-10" "M EUR" variant n ref.revenue_meur ref refl v h s.1,
              ratio_metric-ok "KPI-11" "FTE" variant n (of_ℕ ref.fte) ref refl v h staff,
            )
            refl)

    kept-IsNonneg :
        (anno : ℕ) (variant : String) (emissions : List EmissionRecord)
        → All (λ (e : EmissionRecord). IsNonneg e.tco2e) emissions
        → All IsNonneg
            (map (λ (e : EmissionRecord). e.tco2e) (keep (counts_in info anno variant) emissions))
    kept-IsNonneg anno variant [] h = tt
    kept-IsNonneg anno variant (e ∷ es) h = elim (Bool-cases (counts_in info anno variant e)) [
      | inl counted ↦ rw counted (h.0, kept-IsNonneg anno variant es h.1)
      | inr skipped ↦ rw skipped (kept-IsNonneg anno variant es h.1)
    ]

    rounds :
        (emissions : List EmissionRecord)
        → All (λ (e : EmissionRecord). IsNonneg e.tco2e) emissions
        → (ref : IntensityReferenceInputs) (variant : String) → IsSound ref
        → mem variant allowed_scope2_variants ≡ true
        → build_kpis note info
            (sum_total ref.anno variant (
              keep
                (λ (e : EmissionRecord).
                  str_eq e.gwp_set info.gwp_set
                  && str_eq e.regulatory_stream info.regulatory_stream)
                emissions))
            ref
            variant
          ≡ ok (three emissions ref variant)
    unfolding sum_total
    rounds emissions valid ref variant s known =
        ap (λ n. build_kpis note info n ref variant)
          (total_from-sum nought ref.anno variant emissions)
        ∙ build_kpis-three (numerator_of info emissions ref.anno variant) ref variant
            (sum_from-IsNonneg nought
              (map (λ (e : EmissionRecord). e.tco2e)
                (keep (counts_in info ref.anno variant) emissions))
              refl (kept-IsNonneg ref.anno variant emissions valid))
            s known

    -- For every reference, in order, and for LB and then MB, the service gives the three ratios: the
    -- sum of the counted records over production, revenue and staff; where the set is known, the
    -- instant aware, no record negative and every denominator above zero. A record counts for a year
    -- and a variant if it is of the run's set and stream, and of another scope than the second or of
    -- the variant's sub-scope.
    pub compute_intensities-three :
        (emissions : List EmissionRecord) (references : List IntensityReferenceInputs)
        → All (λ (e : EmissionRecord). IsNonneg e.tco2e) emissions
        → All IsSound references
        → compute_intensities note info emissions references
          ≡ ok (spread (λ ref. spread (three emissions ref) allowed_scope2_variants) references)
    unfolding compute_intensities sum_total mem
    compute_intensities-three emissions references valid sound =
        gather-ok _ (λ ref. spread (three emissions ref) allowed_scope2_variants) IsSound
          (λ ref s.
            gather-ok _ (three emissions ref) (λ v. mem v allowed_scope2_variants ≡ true)
              (λ v known. rounds emissions valid ref v s known) allowed_scope2_variants
              (refl, (refl, tt)))
          references sound
