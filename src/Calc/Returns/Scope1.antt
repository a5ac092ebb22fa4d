-- ===== src/Calc/Returns/Scope1.antt =====
-- Scope 1 returns.
use ghg_tool.Prelude.{ℕ, ◌≡◌, refl, String, some, Bool-cases, inl, inr, str_eq}
use ghg_tool.Decimal.Sign.{IsNonneg, *ᵈ-IsNonneg, +ᵈ-IsNonneg}
use ghg_tool.Domain.Emission.{mem, allowed_sub_scopes}
use ghg_tool.Domain.Factor.{FactorRecord, FactorCatalogPort}
use ghg_tool.Domain.Gwp.{GwpTablePort}
use ghg_tool.Result.Ensures.{IsOk}
use ghg_tool.Calc.Helpers.{Ctx, Scope1Row, or_zero}
use ghg_tool.Calc.Returns.{
  IsReady, IsNeeded, scaled-IsNonneg, taken, no_branch, IsOk-one, IsOk-only_if, IsOk-if_some,
  IsOk-known, with_factor, emit,
}
use ghg_tool.Calc.Scope1.Combustion
use ghg_tool.Calc.Scope1.Combustion.{FuelFactorIds}
use ghg_tool.Calc.Scope1.Process
use ghg_tool.Calc.Scope1.Fugitive

-- A row's quantity is not negative.
abbrev pub IsNonnegRow : Scope1Row → Type 0
IsNonnegRow row = IsNonneg row.quantita

abbrev IsNeededFuel : FuelFactorIds → Type 0
IsNeededFuel ids = IsNeeded ids.co2 × IsNeeded ids.ch4 × IsNeeded ids.n2o

fuel_ids-IsNeeded :
    (fuel : String) (ids : FuelFactorIds)
    → Combustion.fuel_factor_ids fuel ≡ some ids
    → IsNeededFuel ids
unfolding Combustion.fuel_factor_ids mem
fuel_ids-IsNeeded fuel ids h = elim (Bool-cases (str_eq fuel "GAS_NAT")) [
  | inl a ↦ taken IsNeededFuel (rw a at h) (refl, refl, refl)
  | inr a ↦
      let h3 = rw a at h in
      elim (Bool-cases (str_eq fuel "GASOLIO")) [
        | inl a ↦ taken IsNeededFuel (rw a at h3) (refl, refl, refl)
        | inr a ↦
            let h2 = rw a at h3 in
            elim (Bool-cases (str_eq fuel "BENZINA")) [
              | inl a ↦ taken IsNeededFuel (rw a at h2) (refl, refl, refl)
              | inr a ↦ let h1 = rw a at h2 in no_branch IsNeededFuel ids h1
            ]
      ]
]

module _ (catalog : FactorCatalogPort) (gwp : GwpTablePort) (ctx : Ctx)
    (ready : IsReady catalog gwp ctx.regulatory_stream) where
  pub combustion_row-IsOk :
      (row : Scope1Row) → IsNonnegRow row → IsOk (Combustion.row_records catalog gwp ctx row)
  unfolding Combustion.row_records Combustion.build_record mem allowed_sub_scopes
  combustion_row-IsOk row h = IsOk-if_some _ _ λ ids e.
      let needed = fuel_ids-IsNeeded row.combustibile ids e in
      IsOk-one _ (
        with_factor catalog gwp ctx ready ids.co2 _ needed.0 λ co2 n.
          with_factor catalog gwp ctx ready ids.ch4 _ needed.1 λ ch4 m.
            with_factor catalog gwp ctx ready ids.n2o _ needed.2 λ n2o l.
              IsOk-known _ _ ready.ch4.0 ready.ch4.1 (
                IsOk-known _ _ ready.n2o.0 ready.n2o.1 (
                  emit catalog gwp ctx ready _ refl refl refl
                    (+ᵈ-IsNonneg _ _
                      (+ᵈ-IsNonneg _ _ (scaled-IsNonneg _ _ n h)
                        (*ᵈ-IsNonneg _ _ (scaled-IsNonneg _ _ m h) ready.ch4.2))
                      (*ᵈ-IsNonneg _ _ (scaled-IsNonneg _ _ l h) ready.n2o.2))
                    tt (scaled-IsNonneg _ _ n h))))

  pub process_row-IsOk :
      (factor : FactorRecord) (row : Scope1Row)
      → IsNonneg (or_zero factor.value)
      → IsNonnegRow row
      → IsOk (Process.row_records gwp ctx factor row)
  unfolding Process.row_records Process.build_record mem allowed_sub_scopes
  process_row-IsOk factor row n h = IsOk-only_if _ _ λ _. IsOk-one _ (
      IsOk-known _ _ ready.co2.0 ready.co2.1 (
        emit catalog gwp ctx ready _ refl refl refl
          (*ᵈ-IsNonneg _ _ (*ᵈ-IsNonneg _ _ n h) ready.co2.2) tt tt))

  pub site-IsOk : (anno : ℕ) (site : String) → IsOk (Fugitive.site_records gwp anno ctx site)
  unfolding Fugitive.site_records mem allowed_sub_scopes
  site-IsOk anno site = IsOk-one _ (emit catalog gwp ctx ready _ refl refl refl refl refl refl)
