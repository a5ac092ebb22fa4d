-- ===== src/Calc/Scope3/Commuting.antt =====
-- application/calc/scope3_cat7_commuting.py
use ghg_tool.Prelude.{ℕ, Bool, String, none, some, List, [], ◌∷◌, ◌==◌, if◌then◌else◌, All}
use ghg_tool.Prelude.Text.{codes, lower, strip, codes_eq}
use ghg_tool.Decimal.{◌*ᵈ◌}
use ghg_tool.Domain.Emission.{EmissionRecord, Piece, text, shown, counted}
use ghg_tool.Domain.Factor.{FactorRecord, FactorCatalogPort, require_factor}
use ghg_tool.Domain.Gwp.{GwpTablePort}
use ghg_tool.Result.{Result, gather, ◌>>=◌}
use ghg_tool.Result.Trace.{spread}
use ghg_tool.Result.Ensures.{Ensures}
use ghg_tool.Calc.Helpers.{Ctx, Scope3Row, kg_to_tonne, or_zero, draft, make_emission, one, only_if}
use ghg_tool.Calc.Helpers.Keys.{RowKey, HasKeys, keys_if, key_rules}
use ghg_tool.Calc.Helpers.Stamp.{IsOfRun, of_run_rules}

abbrev pub commute_factor_id : String
commute_factor_id = "COMMUTE_CAR_DEFRA_2025"

-- _FTE_PER_ANNO, as the note prints it
abbrev pub printed_fte : ℕ → Piece
printed_fte anno =
    if anno == 2024 then counted 506 else if anno == 2025 then counted 484 else text "n/a"

unfoldable pub is_car_commuting : String → Bool
is_car_commuting sottocategoria =
    codes_eq (lower (strip (codes sottocategoria))) (codes "commuting_auto")

abbrev pub keys : Scope3Row → List RowKey
keys row =
    keys_if (row.categoria_s3 == 7)
      (keys_if (is_car_commuting row.sottocategoria) ((some row.id, none, "Cat7", row.anno) ∷ []))

unfoldable pub row_records :
    GwpTablePort → Ctx → FactorRecord → Scope3Row → Result (List EmissionRecord)
row_records gwp ctx factor row =
    let km = row.quantita in
    let tco2e = or_zero factor.value *ᵈ km *ᵈ kg_to_tonne in
    only_if (row.categoria_s3 == 7) (
      only_if (is_car_commuting row.sottocategoria) (
        one (
          make_emission ctx (
            draft 3 "Cat7" "distance-based" gwp.code (some row.id) none row.anno tco2e factor (
              text "Cat 7 distance-based commuting: "
              ∷ shown km
              ∷ text " km via "
              ∷ text factor.factor_id
              ∷ text ". FTE="
              ∷ printed_fte row.anno
              ∷ text " (HR official 2026-05-13); km/FTE/yr estimate = 8,800 (methodology baseline)."
              ∷ [])))))

unfoldable pub calculate :
    FactorCatalogPort → GwpTablePort → Ctx → List Scope3Row → Result (List EmissionRecord)
calculate factors gwp ctx rows = do
  factor ← require_factor factors commute_factor_id gwp.code none
  gather (row_records gwp ctx factor) rows

module _ (factors : FactorCatalogPort) (gwp : GwpTablePort) (ctx : Ctx) where
  row-IsOfRun :
      (factor : FactorRecord) (row : Scope3Row)
      → Ensures (All (IsOfRun ctx gwp.code)) (row_records gwp ctx factor row)
  unfolding row_records
  row-IsOfRun factor row = search of_run_rules depth 12

  row-HasKeys :
      (factor : FactorRecord) (row : Scope3Row)
      → HasKeys (keys row) (row_records gwp ctx factor row)
  unfolding row_records
  row-HasKeys factor row = search key_rules depth 12

  pub calculate-IsOfRun :
      (rows : List Scope3Row)
      → Ensures (All (IsOfRun ctx gwp.code)) (calculate factors gwp ctx rows)
  unfolding calculate
  calculate-IsOfRun rows = search (of_run_rules, row-IsOfRun) depth 12

  pub calculate-HasKeys :
      (rows : List Scope3Row) → HasKeys (spread keys rows) (calculate factors gwp ctx rows)
  unfolding calculate
  calculate-HasKeys rows = search (key_rules, row-HasKeys) depth 12
