-- ===== src/Calc/Scope3/BusinessTravel.antt =====
-- application/calc/scope3_cat6_business_travel.py. The pseudo-random generator and the floats are a
-- parameter: `resample pe` is the list of draws `pe * (1.0 + gauss)` of the seeded generator, each
-- float as the Decimal of its text.
pub mod Interval
use ghg_tool.Prelude.{
  ℕ, Bool, true, false, not, ◌&&◌, ◌||◌, String, Option, none, some, List, [], ◌∷◌, ◌++◌, map,
  get_or, str_eq, ◌==◌, if◌then◌else◌, All, ◌≡◌,
}
use ghg_tool.Prelude.Text.{Codes, codes, lower, strip, within, starts, find_codes, first_within}
use ghg_tool.Prelude.Sort.{sort}
use ghg_tool.Decimal.{Decimal, dec, nought, eq_dec, lt_dec, le_dec, ◌*ᵈ◌}
use ghg_tool.Domain.Emission.{EmissionRecord, Note, Piece, text, shown, counted}
use ghg_tool.Domain.Factor.{FactorRecord, FactorCatalogPort, require_factor}
use ghg_tool.Domain.Gwp.{GwpTablePort}
use ghg_tool.Result.{Result, ok, err, go_validation, gather, raise_if, ◌>>=◌, ◌>>◌}
use ghg_tool.Result.Trace.{spread}
use ghg_tool.Result.Ensures.{Ensures}
use ghg_tool.Calc.Helpers.{
  Ctx, Scope2Row, Scope3Row, kg_to_tonne, or_zero, draft, make_emission, one, only_if, if_some,
}
use ghg_tool.Calc.Helpers.Keys.{RowKey, HasKeys, keys_if, keys_some, key_rules}
use ghg_tool.Calc.Helpers.Stamp.{IsOfRun, of_run_rules}

-- `_resolve_factor`: the first key of `_TRAVEL_FACTOR_IDS` that the label contains
unfoldable pub resolve_factor : String → Option String
resolve_factor sottocategoria = first_within (lower (codes sottocategoria)) (
    ("voli", "TRAVEL_SPEND_FLIGHTS_DEFRA_2025")
    ∷ ("auto noleggio", "TRAVEL_SPEND_HIRECAR_DEFRA_2025")
    ∷ ("hotel", "TRAVEL_SPEND_HOTEL_DEFRA_2025")
    ∷ [])

-- max(s, 0.0)
abbrev pub clamp : Decimal → Decimal
clamp s = if lt_dec s nought then nought else s

-- `_bootstrap_ci`: the 25th and the 975th of the sorted draws.
unfoldable pub bootstrap_ci : (Decimal → List Decimal) → Decimal → Decimal × Decimal
bootstrap_ci resample point_estimate =
    if eq_dec point_estimate nought
    then (nought, nought)
    else let samples = sort le_dec (map clamp (resample point_estimate)) in
      (get_or samples 24 nought, get_or samples 974 nought)

abbrev pub keys : Scope3Row → List RowKey
keys row =
    keys_if (row.categoria_s3 == 6)
      (keys_some (resolve_factor row.sottocategoria) ((some row.id, none, "Cat6", row.anno) ∷ []))

module _ (resample : Decimal → List Decimal) (factors : FactorCatalogPort) (gwp : GwpTablePort)
    (ctx : Ctx) where
  -- `_build_record`, after the factor is looked up
  unfoldable pub build_record : Scope3Row → String → Result EmissionRecord
  build_record row factor_id = do
    factor ← require_factor factors factor_id gwp.code none
    let spend = row.quantita
    let tco2e = or_zero factor.value *ᵈ spend *ᵈ kg_to_tonne
    let note =
        text "Cat 6 spend-based DEFRA: "
        ∷ text row.sottocategoria
        ∷ text " ("
        ∷ shown spend
        ∷ text " EUR via "
        ∷ text factor.factor_id
        ∷ text "); bootstrap 95% CI from 1000 resamples (seed=42)."
        ∷ []
    let base = draft 3 "Cat6" "spend-based" gwp.code (some row.id) none row.anno tco2e factor note
    make_emission ctx (record base {
      uncertainty_band_lower = some (bootstrap_ci resample tco2e).0;
      uncertainty_band_upper = some (bootstrap_ci resample tco2e).1;
    })

  unfoldable pub row_records : Scope3Row → Result (List EmissionRecord)
  row_records row =
      only_if (row.categoria_s3 == 6)
        (if_some (resolve_factor row.sottocategoria) λ factor_id. one (build_record row factor_id))

  unfoldable pub calculate : List Scope3Row → Result (List EmissionRecord)
  calculate = gather row_records

module _ (resample : Decimal → List Decimal) (factors : FactorCatalogPort) (gwp : GwpTablePort)
    (ctx : Ctx) where
  row-IsOfRun :
      (row : Scope3Row)
      → Ensures (All (IsOfRun ctx gwp.code)) (row_records resample factors gwp ctx row)
  unfolding row_records build_record
  row-IsOfRun row = search of_run_rules depth 12

  row-HasKeys : (row : Scope3Row) → HasKeys (keys row) (row_records resample factors gwp ctx row)
  unfolding row_records build_record
  row-HasKeys row = search key_rules depth 12

  pub calculate-IsOfRun :
      (rows : List Scope3Row)
      → Ensures (All (IsOfRun ctx gwp.code)) (calculate resample factors gwp ctx rows)
  unfolding calculate
  calculate-IsOfRun rows = search (of_run_rules, row-IsOfRun) depth 12

  pub calculate-HasKeys :
      (rows : List Scope3Row) → HasKeys (spread keys rows) (calculate resample factors gwp ctx rows)
  unfolding calculate
  calculate-HasKeys rows = search (key_rules, row-HasKeys) depth 12
