-- ===== src/Calc/Scope3/FuelEnergy.antt =====
-- application/calc/scope3_cat3_fuel_energy.py: well-to-tank and grid-loss emissions, from the totals of
-- Scope 1 and Scope 2 by year.
use ghg_tool.Prelude.{
  ℕ, Bool, ◌&&◌, ◌||◌, String, Option, none, some, List, [], ◌∷◌, leb, str_eq, if◌then◌else◌, All,
}
use ghg_tool.Prelude.Sort.{sort}
use ghg_tool.Prelude.Dict.{Dict}
use ghg_tool.Prelude.Text.{str_ltb}
use ghg_tool.Decimal.{Decimal, ◌*ᵈ◌}
use ghg_tool.Domain.Emission.{EmissionRecord, text, shown}
use ghg_tool.Domain.Factor.{FactorRecord, FactorCatalogPort, require_factor}
use ghg_tool.Domain.Gwp.{GwpTablePort}
use ghg_tool.Result.{Result, gather, extend_all, ◌>>=◌}
use ghg_tool.Result.Trace.{spread, map-extend_all}
use ghg_tool.Result.Ensures.{Ensures, Ensures-extend_all}
use ghg_tool.Calc.Helpers.{Ctx, kg_to_tonne, or_zero, draft, make_emission, one, if_some}
use ghg_tool.Calc.Helpers.Keys.{RowKey, row_key, HasKeys, keys_some, key_rules}
use ghg_tool.Calc.Helpers.Stamp.{IsOfRun, of_run_rules}

-- Σ by (combustibile, anno), and Σ kWh by anno
abbrev pub SigmaScope1 : Type 0
SigmaScope1 = Dict (String × ℕ) Decimal

abbrev pub SigmaScope2 : Type 0
SigmaScope2 = Dict ℕ Decimal

-- _FUEL_WTT_FACTOR_IDS
unfoldable pub fuel_wtt_factor_id : String → Option String
fuel_wtt_factor_id fuel =
    if str_eq fuel "GAS_NAT"
    then some "WTT_GAS_NAT_DEFRA_2025"
    else if str_eq fuel "GASOLIO"
    then some "WTT_GASOLIO_DEFRA_2025"
    else if str_eq fuel "BENZINA"
    then some "WTT_BENZINA_DEFRA_2025"
    else none

abbrev pub elec_wtt_id : String
elec_wtt_id = "WTT_ELEC_DEFRA_2025"

abbrev pub tnd_elec_it_id : String
tnd_elec_it_id = "TND_ELEC_IT_DEFRA_2025"

-- The order of the keys: `sorted` on (str, int) tuples and on ints. The pairs keep their values, so
-- that `sigma[key]` needs no second lookup.
unfoldable pub fuel_le : (String × ℕ) × Decimal → (String × ℕ) × Decimal → Bool
fuel_le ((f, a), _) ((g, b), _) = str_ltb f g || (str_eq f g && leb a b)

unfoldable pub year_le : ℕ × Decimal → ℕ × Decimal → Bool
year_le (a, _) (b, _) = leb a b

abbrev pub fuel_keys : (String × ℕ) × Decimal → List RowKey
fuel_keys p = keys_some (fuel_wtt_factor_id p.0.0) ((none, none, "Cat3_WTT_FUEL", p.0.1) ∷ [])

abbrev pub elec_keys : ℕ × Decimal → List RowKey
elec_keys p = (none, none, "Cat3_WTT_ELEC", p.0) ∷ []

abbrev pub tnd_keys : ℕ × Decimal → List RowKey
tnd_keys p = (none, none, "Cat3_TND", p.0) ∷ []

abbrev pub keys_of : SigmaScope1 → SigmaScope2 → List (List RowKey)
keys_of s1 s2 =
    spread fuel_keys (sort fuel_le s1)
    ∷ spread elec_keys (sort year_le s2)
    ∷ spread tnd_keys (sort year_le s2)
    ∷ []

module _ (factors : FactorCatalogPort) (gwp : GwpTablePort) (ctx : Ctx) where
  unfoldable pub build_fuel : (String × ℕ) × Decimal → String → Result EmissionRecord
  build_fuel p factor_id = do
    factor ← require_factor factors factor_id gwp.code none
    let tco2e = or_zero factor.value *ᵈ p.1 *ᵈ kg_to_tonne
    make_emission ctx (
        draft 3 "Cat3_WTT_FUEL" "activity-based" gwp.code none none p.0.1 tco2e factor (
          text "Cat 3 WTT "
          ∷ text p.0.0
          ∷ text " (FR-11 Σ Scope 1 source-of-truth): Σ="
          ∷ shown p.1
          ∷ text " via "
          ∷ text factor.factor_id
          ∷ text "."
          ∷ []))

  unfoldable pub fuel_records : (String × ℕ) × Decimal → Result (List EmissionRecord)
  fuel_records p = if_some (fuel_wtt_factor_id p.0.0) λ factor_id. one (build_fuel p factor_id)

  -- `_fuel_wtt_records`
  unfoldable pub fuel_wtt_records : SigmaScope1 → Result (List EmissionRecord)
  fuel_wtt_records sigma = gather fuel_records (sort fuel_le sigma)

  unfoldable pub elec_records : FactorRecord → ℕ × Decimal → Result (List EmissionRecord)
  elec_records factor p =
      let tco2e = or_zero factor.value *ᵈ p.1 *ᵈ kg_to_tonne in
      one (
        make_emission ctx (
          draft 3 "Cat3_WTT_ELEC" "activity-based" gwp.code none none p.0 tco2e factor (
            text "Cat 3 WTT electricity (LB basis): Σ="
            ∷ shown p.1
            ∷ text " kWh via "
            ∷ text factor.factor_id
            ∷ text "."
            ∷ [])))

  -- `_electricity_wtt_records`
  unfoldable pub electricity_wtt_records : SigmaScope2 → Result (List EmissionRecord)
  electricity_wtt_records sigma = do
    factor ← require_factor factors elec_wtt_id gwp.code none
    gather (elec_records factor) (sort year_le sigma)

  unfoldable pub tnd_year_records : FactorRecord → ℕ × Decimal → Result (List EmissionRecord)
  tnd_year_records factor p =
      let tco2e = or_zero factor.value *ᵈ p.1 *ᵈ kg_to_tonne in
      one (
        make_emission ctx (
          draft 3 "Cat3_TND" "activity-based" gwp.code none none p.0 tco2e factor (
            text "Cat 3 T&D electricity (Italy loss rate): Σ="
            ∷ shown p.1
            ∷ text " kWh via "
            ∷ text factor.factor_id
            ∷ text "."
            ∷ [])))

  -- `_tnd_records`
  unfoldable pub tnd_records : SigmaScope2 → Result (List EmissionRecord)
  tnd_records sigma = do
    factor ← require_factor factors tnd_elec_it_id gwp.code none
    gather (tnd_year_records factor) (sort year_le sigma)

  unfoldable pub calculate : SigmaScope1 → SigmaScope2 → Result (List EmissionRecord)
  calculate sigma_scope1 sigma_scope2_kwh = extend_all (
      fuel_wtt_records sigma_scope1
      ∷ electricity_wtt_records sigma_scope2_kwh
      ∷ tnd_records sigma_scope2_kwh
      ∷ [])

  fuel-IsOfRun :
      (p : (String × ℕ) × Decimal) → Ensures (All (IsOfRun ctx gwp.code)) (fuel_records p)
  unfolding fuel_records build_fuel
  fuel-IsOfRun p = search of_run_rules depth 12

  elec-IsOfRun :
      (f : FactorRecord) (p : ℕ × Decimal) → Ensures (All (IsOfRun ctx gwp.code)) (elec_records f p)
  unfolding elec_records
  elec-IsOfRun f p = search of_run_rules

  tnd-IsOfRun :
      (f : FactorRecord) (p : ℕ × Decimal)
      → Ensures (All (IsOfRun ctx gwp.code)) (tnd_year_records f p)
  unfolding tnd_year_records
  tnd-IsOfRun f p = search of_run_rules

  pub calculate-IsOfRun :
      (s1 : SigmaScope1) (s2 : SigmaScope2) → Ensures (All (IsOfRun ctx gwp.code)) (calculate s1 s2)
  unfolding calculate fuel_wtt_records electricity_wtt_records tnd_records
  calculate-IsOfRun s1 s2 = Ensures-extend_all (IsOfRun ctx gwp.code) _ (
    search (of_run_rules, fuel-IsOfRun),
    (search (of_run_rules, elec-IsOfRun), (search (of_run_rules, tnd-IsOfRun), tt)),
  )

  fuel-HasKeys : (p : (String × ℕ) × Decimal) → HasKeys (fuel_keys p) (fuel_records p)
  unfolding fuel_records build_fuel
  fuel-HasKeys p = search key_rules depth 12

  elec-HasKeys : (f : FactorRecord) (p : ℕ × Decimal) → HasKeys (elec_keys p) (elec_records f p)
  unfolding elec_records
  elec-HasKeys f p = search key_rules

  tnd-HasKeys : (f : FactorRecord) (p : ℕ × Decimal) → HasKeys (tnd_keys p) (tnd_year_records f p)
  unfolding tnd_year_records
  tnd-HasKeys f p = search key_rules

  pub calculate-HasKeys :
      (s1 : SigmaScope1) (s2 : SigmaScope2)
      → HasKeys (spread (λ ks. ks) (keys_of s1 s2)) (calculate s1 s2)
  unfolding calculate fuel_wtt_records electricity_wtt_records tnd_records
  calculate-HasKeys s1 s2 = map-extend_all row_key (keys_of s1 s2) _ (
    search (key_rules, fuel-HasKeys),
    (search (key_rules, elec-HasKeys), (search (key_rules, tnd-HasKeys), tt)),
  )
