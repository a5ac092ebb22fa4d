-- ===== src/Calc/Returns/Scope3.antt =====
-- Scope 3 returns.
use ghg_tool.Prelude.{ℕ, refl, String, List, Bool-cases, inl, inr}
use ghg_tool.Decimal.{Decimal}
use ghg_tool.Decimal.Sign.{IsNonneg, *ᵈ-IsNonneg}
use ghg_tool.Domain.Emission.{mem, allowed_sub_scopes}
use ghg_tool.Domain.Emission.Validity.{IsNonnegIfAny}
use ghg_tool.Domain.Factor.{FactorRecord, FactorCatalogPort}
use ghg_tool.Domain.Gwp.{GwpTablePort}
use ghg_tool.Result.Ensures.{IsOk, IsOk-gather}
use ghg_tool.Calc.Helpers.{Ctx, Scope3Row, or_zero}
use ghg_tool.Calc.Returns.{
  IsReady, scaled-IsNonneg, IsOk-one, IsOk-two, IsOk-only_if, IsOk-if_some, with_factor, emit,
}
use ghg_tool.Calc.Scope3.PurchasedGoods
use ghg_tool.Calc.Scope3.CapitalGoods
use ghg_tool.Calc.Scope3.FuelEnergy
use ghg_tool.Calc.Scope3.UpstreamTransport
use ghg_tool.Calc.Scope3.Waste
use ghg_tool.Calc.Scope3.BusinessTravel
use ghg_tool.Calc.Scope3.Commuting
use ghg_tool.Calc.Scope3.DownstreamTransport
use ghg_tool.Calc.Scope3.EndOfLife
use ghg_tool.Calc.Scope3.ZeroLines
use ghg_tool.Calc.Returns.Needs.{
  purchasedgoods-IsNeeded, capitalgoods-IsNeeded, upstreamtransport-IsNeeded,
  downstreamtransport-IsNeeded, businesstravel-IsNeeded, waste-IsNeeded, fuel-IsNeeded,
  methodology_for-known, times-IsNonneg, if_any-IsNonneg,
}

module _ (catalog : FactorCatalogPort) (gwp : GwpTablePort) (ctx : Ctx)
    (ready : IsReady catalog gwp ctx.regulatory_stream) where
  pub capital_row-IsOk :
      (row : Scope3Row)
      → IsNonneg row.quantita
      → IsOk (CapitalGoods.row_records catalog gwp ctx row)
  unfolding CapitalGoods.row_records CapitalGoods.build_record mem allowed_sub_scopes
  capital_row-IsOk row h = IsOk-only_if _ _ λ _. IsOk-if_some _ _ λ id e. IsOk-one _ (
      with_factor catalog gwp ctx ready id _ (capitalgoods-IsNeeded row.sottocategoria id e)
        λ factor n. emit catalog gwp ctx ready _ refl refl refl (scaled-IsNonneg _ _ n h) tt tt)

  pub upstream_row-IsOk :
      (row : Scope3Row)
      → IsNonneg row.quantita
      → IsOk (UpstreamTransport.row_records catalog gwp ctx row)
  unfolding UpstreamTransport.row_records UpstreamTransport.build_record mem allowed_sub_scopes
  upstream_row-IsOk row h = IsOk-only_if _ _ λ _. IsOk-if_some _ _ λ id e. IsOk-one _ (
      with_factor catalog gwp ctx ready id _ (upstreamtransport-IsNeeded row.sottocategoria id e)
        λ factor n. emit catalog gwp ctx ready _ refl refl refl (scaled-IsNonneg _ _ n h) tt tt)

  pub downstream_row-IsOk :
      (row : Scope3Row)
      → IsNonneg row.quantita
      → IsOk (DownstreamTransport.row_records catalog gwp ctx row)
  unfolding DownstreamTransport.row_records DownstreamTransport.build_record mem allowed_sub_scopes
  downstream_row-IsOk row h = IsOk-only_if _ _ λ _. IsOk-if_some _ _ λ id e. IsOk-one _ (
      with_factor catalog gwp ctx ready id _ (downstreamtransport-IsNeeded row.sottocategoria id e)
        λ factor n. emit catalog gwp ctx ready _ refl refl refl (scaled-IsNonneg _ _ n h) tt tt)

  pub waste_row-IsOk :
      (row : Scope3Row) → IsNonneg row.quantita → IsOk (Waste.row_records catalog gwp ctx row)
  unfolding Waste.row_records Waste.build_record mem allowed_sub_scopes
  waste_row-IsOk row h = IsOk-only_if _ _ λ _. IsOk-if_some _ _ λ id e. IsOk-one _ (
      with_factor catalog gwp ctx ready id _ (waste-IsNeeded row.sottocategoria id e)
        λ factor n. emit catalog gwp ctx ready _ refl refl refl (scaled-IsNonneg _ _ n h) tt tt)

  pub travel_row-IsOk :
      (resample : Decimal → List Decimal) (row : Scope3Row)
      → IsNonneg row.quantita
      → IsOk (BusinessTravel.row_records resample catalog gwp ctx row)
  unfolding BusinessTravel.row_records BusinessTravel.build_record mem allowed_sub_scopes
  travel_row-IsOk resample row h = IsOk-only_if _ _ λ _. IsOk-if_some _ _ λ id e. IsOk-one _ (
      with_factor catalog gwp ctx ready id _ (businesstravel-IsNeeded row.sottocategoria id e)
        λ factor n. emit catalog gwp ctx ready _ refl refl refl (scaled-IsNonneg _ _ n h) tt tt)

  share-IsNonnegIfAny :
      (id : String) → IsNonnegIfAny (PurchasedGoods.biogenic_share catalog id gwp.code)
  unfolding PurchasedGoods.biogenic_share
  share-IsNonnegIfAny id = elim (Bool-cases (PurchasedGoods.is_biogenic id)) [
    | inl biogenic ↦ rw biogenic (ready.share id)
    | inr other ↦ rw other tt
  ]

  pub purchased_row-IsOk :
      (row : Scope3Row)
      → IsNonneg row.quantita
      → IsOk (PurchasedGoods.row_records catalog gwp ctx row)
  unfolding PurchasedGoods.row_records PurchasedGoods.build_record mem allowed_sub_scopes
  purchased_row-IsOk row h = IsOk-only_if _ _ λ _. IsOk-if_some _ _ λ id e. IsOk-one _ (
      with_factor catalog gwp ctx ready id _ (purchasedgoods-IsNeeded row.sottocategoria id e)
        λ factor n.
          emit catalog gwp ctx ready _ (methodology_for-known id) refl refl
            (scaled-IsNonneg _ _ n h)
            (times-IsNonneg (PurchasedGoods.biogenic_share catalog id gwp.code) row.quantita
              (share-IsNonnegIfAny id) h)
            (if_any-IsNonneg (PurchasedGoods.biogenic_share catalog id gwp.code) _
              (scaled-IsNonneg _ _ n h)))

  pub commuting_row-IsOk :
      (factor : FactorRecord) (row : Scope3Row)
      → IsNonneg (or_zero factor.value)
      → IsNonneg row.quantita
      → IsOk (Commuting.row_records gwp ctx factor row)
  unfolding Commuting.row_records mem allowed_sub_scopes
  commuting_row-IsOk factor row n h = IsOk-only_if _ _ λ _.
      IsOk-only_if _ _ λ _.
        IsOk-one _ (emit catalog gwp ctx ready _ refl refl refl (scaled-IsNonneg _ _ n h) tt tt)

  pub end_of_life_row-IsOk :
      (landfill recycle : FactorRecord) (row : Scope3Row)
      → IsNonneg (or_zero landfill.value)
      → IsNonneg (or_zero recycle.value)
      → IsNonneg row.quantita
      → IsOk (EndOfLife.row_records gwp ctx landfill recycle row)
  unfolding EndOfLife.row_records mem allowed_sub_scopes
  end_of_life_row-IsOk landfill recycle row n m h = IsOk-only_if _ _ λ _.
      IsOk-two _ _
        (emit catalog gwp ctx ready _ refl refl refl
          (scaled-IsNonneg _ _ n (*ᵈ-IsNonneg _ _ h refl)) tt tt)
        (emit catalog gwp ctx ready _ refl refl refl
          (scaled-IsNonneg _ _ m (*ᵈ-IsNonneg _ _ h refl)) tt tt)

  pub fuel_records-IsOk :
      (p : (String × ℕ) × Decimal) → IsNonneg p.1 → IsOk (FuelEnergy.fuel_records catalog gwp ctx p)
  unfolding FuelEnergy.fuel_records FuelEnergy.build_fuel mem allowed_sub_scopes
  fuel_records-IsOk p h = IsOk-if_some _ _ λ id e. IsOk-one _ (
      with_factor catalog gwp ctx ready id _ (fuel-IsNeeded p.0.0 id e)
        λ factor n. emit catalog gwp ctx ready _ refl refl refl (scaled-IsNonneg _ _ n h) tt tt)

  pub elec_records-IsOk :
      (factor : FactorRecord) (p : ℕ × Decimal)
      → IsNonneg (or_zero factor.value)
      → IsNonneg p.1
      → IsOk (FuelEnergy.elec_records catalog gwp ctx factor p)
  unfolding FuelEnergy.elec_records mem allowed_sub_scopes
  elec_records-IsOk factor p n h =
      IsOk-one _ (emit catalog gwp ctx ready _ refl refl refl (scaled-IsNonneg _ _ n h) tt tt)

  pub tnd_records-IsOk :
      (factor : FactorRecord) (p : ℕ × Decimal)
      → IsNonneg (or_zero factor.value)
      → IsNonneg p.1
      → IsOk (FuelEnergy.tnd_year_records catalog gwp ctx factor p)
  unfolding FuelEnergy.tnd_year_records mem allowed_sub_scopes
  tnd_records-IsOk factor p n h =
      IsOk-one _ (emit catalog gwp ctx ready _ refl refl refl (scaled-IsNonneg _ _ n h) tt tt)

  pub cat11-IsOk : (anno : ℕ) → IsOk (ZeroLines.calculate_cat11 gwp anno ctx)
  unfolding ZeroLines.calculate_cat11 mem allowed_sub_scopes
  cat11-IsOk anno = IsOk-one _ (emit catalog gwp ctx ready _ refl refl refl refl refl refl)

  pub omitted-IsOk : (anno : ℕ) → IsOk (ZeroLines.calculate_omitted gwp anno ctx)
  unfolding ZeroLines.calculate_omitted ZeroLines.category_records mem allowed_sub_scopes
  omitted-IsOk anno = IsOk-gather _ _ (
    IsOk-one _ (emit catalog gwp ctx ready _ refl refl refl refl refl refl),
    (
      IsOk-one _ (emit catalog gwp ctx ready _ refl refl refl refl refl refl),
      (
        IsOk-one _ (emit catalog gwp ctx ready _ refl refl refl refl refl refl),
        (
          IsOk-one _ (emit catalog gwp ctx ready _ refl refl refl refl refl refl),
          (IsOk-one _ (emit catalog gwp ctx ready _ refl refl refl refl refl refl), tt),
        ),
      ),
    ),
  )
