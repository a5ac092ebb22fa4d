-- ===== src/Calc/Returns/Whole.antt =====
-- The calculations that look up their factors before they read the rows, and Category 3.
use ghg_tool.Prelude.{◌≡◌, refl, true, Option, List, [], ◌∷◌, All, All-map}
use ghg_tool.Prelude.Sort.{sort, All-sort}
use ghg_tool.Decimal.Sign.{IsNonneg}
use ghg_tool.Domain.Emission.{mem}
use ghg_tool.Domain.Factor.{FactorRecord, FactorCatalogPort}
use ghg_tool.Domain.Gwp.{GwpTablePort}
use ghg_tool.Result.Ensures.{IsOk, IsOk-gather}
use ghg_tool.Calc.Helpers.{Ctx, Scope1Row, Scope2Row, Scope3Row, or_zero}
use ghg_tool.Calc.Scope1.Process
use ghg_tool.Calc.Scope2.LocationBased
use ghg_tool.Calc.Scope2.MarketBased
use ghg_tool.Calc.Scope2.MarketBased.{GoEvidenceCheck, checker_of}
use ghg_tool.Calc.Scope2.MarketBased.Evidence.{is_backed}
use ghg_tool.Calc.Scope3.FuelEnergy
use ghg_tool.Calc.Scope3.FuelEnergy.{SigmaScope1, SigmaScope2, fuel_le, year_le}
use ghg_tool.Calc.Scope3.Commuting
use ghg_tool.Calc.Scope3.EndOfLife
use ghg_tool.Calc.Returns.{IsReady, IsOk-known, with_factor}
use ghg_tool.Calc.Returns.Scope1.{process_row-IsOk}
use ghg_tool.Calc.Returns.Scope2.{location_row-IsOk, market_row-IsOk}
use ghg_tool.Calc.Returns.Scope3.{
  commuting_row-IsOk, end_of_life_row-IsOk, fuel_records-IsOk, elec_records-IsOk, tnd_records-IsOk,
}

module _ (catalog : FactorCatalogPort) (gwp : GwpTablePort) (ctx : Ctx)
    (ready : IsReady catalog gwp ctx.regulatory_stream) where
  pub process-IsOk :
      (rows : List Scope1Row)
      → All (λ r. IsNonneg r.quantita) rows
      → IsOk (Process.calculate catalog gwp ctx rows)
  unfolding Process.calculate mem
  process-IsOk rows h =
      let found = ready.factor "STOICH_CACO3_IPCC_2006" refl in
      IsOk-known _ _ found.0 found.1 (
        rw (ready.process found.0 found.1) (
          IsOk-gather _ rows
            (All-map (λ r n. process_row-IsOk catalog gwp ctx ready found.0 r found.2 n) rows h)))

  pub location-IsOk :
      (rows : List Scope2Row)
      → All (λ r. IsNonneg r.quantita) rows
      → IsOk (LocationBased.calculate catalog gwp ctx rows)
  unfolding LocationBased.calculate mem
  location-IsOk rows h = with_factor catalog gwp ctx ready LocationBased.lb_factor_id _ refl λ f n.
      IsOk-gather _ rows (All-map (λ r m. location_row-IsOk catalog gwp ctx ready f r n m) rows h)

  pub market_rows-IsOk :
      (checker : GoEvidenceCheck) (zf rf : FactorRecord)
      → IsNonneg (or_zero rf.value)
      → (rows : List Scope2Row) → All (λ r. IsNonneg r.quantita) rows
      → All (λ r. is_backed checker r ≡ true) rows
      → All (λ r. IsOk (MarketBased.row_records zf rf gwp checker ctx r)) rows
  market_rows-IsOk checker zf rf n [] h k = tt
  market_rows-IsOk checker zf rf n (r ∷ rows) h k = (
    market_row-IsOk catalog gwp ctx ready zf rf checker r n h.0 k.0,
    market_rows-IsOk checker zf rf n rows h.1 k.1,
  )

  pub market-IsOk :
      (go : Option GoEvidenceCheck) (rows : List Scope2Row)
      → All (λ r. IsNonneg r.quantita) rows
      → All (λ r. is_backed (checker_of go) r ≡ true) rows
      → IsOk (MarketBased.calculate catalog gwp go ctx rows)
  unfolding MarketBased.calculate mem
  market-IsOk go rows h k = with_factor catalog gwp ctx ready MarketBased.go_zero_id _ refl λ zf _.
      with_factor catalog gwp ctx ready MarketBased.residual_id _ refl
        λ rf n. IsOk-gather _ rows (market_rows-IsOk (checker_of go) zf rf n rows h k)

  pub commuting-IsOk :
      (rows : List Scope3Row)
      → All (λ r. IsNonneg r.quantita) rows
      → IsOk (Commuting.calculate catalog gwp ctx rows)
  unfolding Commuting.calculate mem
  commuting-IsOk rows h =
      with_factor catalog gwp ctx ready Commuting.commute_factor_id _ refl λ f n.
        IsOk-gather _ rows
          (All-map (λ r m. commuting_row-IsOk catalog gwp ctx ready f r n m) rows h)

  pub end_of_life-IsOk :
      (rows : List Scope3Row)
      → All (λ r. IsNonneg r.quantita) rows
      → IsOk (EndOfLife.calculate catalog gwp ctx rows)
  unfolding EndOfLife.calculate mem
  end_of_life-IsOk rows h =
      with_factor catalog gwp ctx ready EndOfLife.landfill_factor_id _ refl λ f n.
        with_factor catalog gwp ctx ready EndOfLife.recycle_factor_id _ refl λ g m.
          IsOk-gather _ rows
            (All-map (λ r l. end_of_life_row-IsOk catalog gwp ctx ready f g r n m l) rows h)

  pub fuel_energy-IsOk :
      (s1 : SigmaScope1) (s2 : SigmaScope2)
      → All (λ p. IsNonneg p.1) s1
      → All (λ p. IsNonneg p.1) s2
      → IsOk (FuelEnergy.calculate catalog gwp ctx s1 s2)
  unfolding FuelEnergy.calculate FuelEnergy.fuel_wtt_records FuelEnergy.electricity_wtt_records
      FuelEnergy.tnd_records mem
  fuel_energy-IsOk s1 s2 h k =
      let years = All-sort year_le (λ p. IsNonneg p.1) s2 k in
      IsOk-gather _ _ (
        IsOk-gather _ (sort fuel_le s1) (
            All-map (λ p n. fuel_records-IsOk catalog gwp ctx ready p n) (sort fuel_le s1)
              (All-sort fuel_le (λ p. IsNonneg p.1) s1 h)),
        (
          with_factor catalog gwp ctx ready FuelEnergy.elec_wtt_id _ refl λ f n.
              IsOk-gather _ (sort year_le s2) (
                All-map (λ p m. elec_records-IsOk catalog gwp ctx ready f p n m) (sort year_le s2)
                  years),
          (
            with_factor catalog gwp ctx ready FuelEnergy.tnd_elec_it_id _ refl λ f n.
                IsOk-gather _ (sort year_le s2) (
                  All-map (λ p m. tnd_records-IsOk catalog gwp ctx ready f p n m) (sort year_le s2)
                    years),
            tt,
          ),
        ),
      )
