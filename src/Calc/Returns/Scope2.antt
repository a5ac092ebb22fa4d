-- ===== src/Calc/Returns/Scope2.antt =====
-- Scope 2 returns.
use ghg_tool.Prelude.{◌≡◌, refl, true, Bool-cases, inl, inr}
use ghg_tool.Decimal.Sign.{IsNonneg}
use ghg_tool.Domain.Emission.{mem, allowed_sub_scopes}
use ghg_tool.Domain.Factor.{FactorRecord, FactorCatalogPort}
use ghg_tool.Domain.Gwp.{GwpTablePort}
use ghg_tool.Result.Ensures.{IsOk}
use ghg_tool.Calc.Helpers.{Ctx, Scope2Row, or_zero}
use ghg_tool.Calc.Returns.{IsReady, scaled-IsNonneg, IsOk-one, emit}
use ghg_tool.Calc.Scope2.LocationBased
use ghg_tool.Calc.Scope2.MarketBased
use ghg_tool.Calc.Scope2.MarketBased.{GoEvidenceCheck}
use ghg_tool.Calc.Scope2.MarketBased.Evidence.{is_backed}

module _ (catalog : FactorCatalogPort) (gwp : GwpTablePort) (ctx : Ctx)
    (ready : IsReady catalog gwp ctx.regulatory_stream) where
  pub location_row-IsOk :
      (factor : FactorRecord) (row : Scope2Row)
      → IsNonneg (or_zero factor.value)
      → IsNonneg row.quantita
      → IsOk (LocationBased.row_records gwp ctx factor row)
  unfolding LocationBased.row_records mem allowed_sub_scopes
  location_row-IsOk factor row n h =
      IsOk-one _ (emit catalog gwp ctx ready _ refl refl refl (scaled-IsNonneg _ _ n h) tt tt)

  pub market_row-IsOk :
      (zero_factor residual_factor : FactorRecord) (checker : GoEvidenceCheck) (row : Scope2Row)
      → IsNonneg (or_zero residual_factor.value)
      → IsNonneg row.quantita
      → is_backed checker row ≡ true
      → IsOk (MarketBased.row_records zero_factor residual_factor gwp checker ctx row)
  unfolding MarketBased.row_records MarketBased.build_mb_record mem allowed_sub_scopes
  market_row-IsOk zf rf checker row n h backed =
      IsOk-one _ (elim (Bool-cases (MarketBased.is_go row.strumento_mb)) [
        | inl go ↦
            rw (go, (rw go at backed)) (emit catalog gwp ctx ready _ refl refl refl refl tt refl)
        | inr other ↦ rw other (
            emit catalog gwp ctx ready _ refl refl refl (scaled-IsNonneg _ _ n h) tt
              (scaled-IsNonneg _ _ n h))
      ])
