-- ===== src/Calc/Returns.antt =====
-- When the calculations return: what the catalog, the GWP table and the run's stream must be, and the
-- rule for a record built by `make_emission`.
pub mod Scope1
pub mod Scope2
pub mod Needs
pub mod Scope3
pub mod Whole
pub mod Run
use mathlib.Core.Path.{subst}
use ghg_tool.Prelude.{
  ℕ, ◌≡◌, refl, ap, sym, ◌∙◌, Bool, true, false, ◌&&◌, String, Option, none, some, List, [], ◌∷◌,
  map, arith, leb, All, Bool-cases, inl, inr, if◌then◌else◌,
}
use ghg_tool.Prelude.Text.{Codes, codes, codes_eq, within, find_codes, first_within}
use ghg_tool.Decimal.{Decimal, dec, eq_dec, ◌*ᵈ◌}
use ghg_tool.Decimal.Sign.{IsNonneg, *ᵈ-IsNonneg}
use ghg_tool.Domain.Emission.{
  EmissionRecord, mem, allowed_sub_scopes, allowed_methodologies, allowed_regulatory_streams,
  allowed_gwp_sets,
}
use ghg_tool.Domain.Emission.Validity.{IsNonnegIfAny}
use ghg_tool.Domain.Factor.{FactorRecord, FactorCatalogPort, require_factor}
use ghg_tool.Domain.Gwp.{GwpTablePort}
use ghg_tool.Result.{Result, ok, err, ◌>>=◌}
use ghg_tool.Result.Ensures.{IsOk, IsOk-bind}
use ghg_tool.Calc.Helpers.{
  Ctx, Draft, kg_to_tonne, or_zero, make_emission, one, two, only_if, if_some,
}
use ghg_tool.Calc.Helpers.Stamp.{IsSound, make_emission-IsOk}

-- The factors that the calculations ask for.
abbrev pub factor_ids : List String
factor_ids =
    "COMB_GAS_NAT_CO2_DEFRA_2025" ∷ "COMB_GAS_NAT_CH4_DEFRA_2025" ∷ "COMB_GAS_NAT_N2O_DEFRA_2025"
    ∷ "COMB_GASOLIO_CO2_DEFRA_2025" ∷ "COMB_GASOLIO_CH4_DEFRA_2025" ∷ "COMB_GASOLIO_N2O_DEFRA_2025"
    ∷ "COMB_BENZINA_CO2_DEFRA_2025" ∷ "COMB_BENZINA_CH4_DEFRA_2025" ∷ "COMB_BENZINA_N2O_DEFRA_2025"
    ∷ "STOICH_CACO3_IPCC_2006" ∷ "LB_IT_GRID_ISPRA_2024" ∷ "MB_GO_ZERO" ∷ "MB_IT_RESIDUAL_AIB_2024"
    ∷ "ECOINV_CLAY_V3_10" ∷ "ECOINV_FELDSPAR_V3_10" ∷ "ECOINV_SILICA_V3_10" ∷ "ECOINV_FRIT_V3_10"
    ∷ "ECOINV_PIGMENT_V3_10" ∷ "ECOINV_ADDITIVES_V3_10" ∷ "ECOINV_CARDBOARD_V3_10"
    ∷ "ECOINV_PALLET_V3_10" ∷ "ECOINV_LDPE_V3_10" ∷ "ECOINV_PP_V3_10" ∷ "EXIO_SERVICES_NACE_M"
    ∷ "EXIO_MACHINERY_NACE_C28" ∷ "EXIO_CONSUMABLES_NACE_C27" ∷ "WTT_GAS_NAT_DEFRA_2025"
    ∷ "WTT_GASOLIO_DEFRA_2025" ∷ "WTT_BENZINA_DEFRA_2025" ∷ "WTT_ELEC_DEFRA_2025"
    ∷ "TND_ELEC_IT_DEFRA_2025" ∷ "FREIGHT_HGV_DEFRA_2025" ∷ "FREIGHT_RAIL_DEFRA_2025"
    ∷ "FREIGHT_SEA_DEFRA_2025" ∷ "WASTE_LANDFILL_PERIC_DEFRA_2025"
    ∷ "WASTE_LANDFILL_NONPERIC_DEFRA_2025" ∷ "WASTE_RECYCLE_PERIC_DEFRA_2025"
    ∷ "WASTE_RECYCLE_NONPERIC_DEFRA_2025" ∷ "TRAVEL_SPEND_FLIGHTS_DEFRA_2025"
    ∷ "TRAVEL_SPEND_HIRECAR_DEFRA_2025" ∷ "TRAVEL_SPEND_HOTEL_DEFRA_2025" ∷ "COMMUTE_CAR_DEFRA_2025"
    ∷ "ECOINV_LANDFILL_INERT_V3_10" ∷ "ECOINV_CDW_RECYCLE_V3_10" ∷ []

abbrev pub IsNeeded : String → Type 0
IsNeeded id = mem id factor_ids ≡ true

-- A value that is not negative is returned.
abbrev pub IsAmount : Result Decimal → Type 0
IsAmount m = (v : Decimal) × (m ≡ ok v) × IsNonneg v

-- A factor whose value is not negative is returned.
abbrev pub IsFactor : Result FactorRecord → Type 0
IsFactor m = (f : FactorRecord) × (m ≡ ok f) × IsNonneg (or_zero f.value)

-- The catalog has every factor in the run's GWP set, the table has the three gases, no value is
-- negative, the process factor is 0.4397, and the stream and the GWP set are among those allowed.
pub record IsReady (catalog : FactorCatalogPort) (gwp : GwpTablePort) (stream : String)
    : Type 0 where
  pub factor : (id : String) → IsNeeded id → IsFactor (require_factor catalog id gwp.code none)
  pub share : (id : String) → IsNonnegIfAny (catalog.get_biogenic_share id gwp.code)
  pub co2 : IsAmount (gwp.get "CO2")
  pub ch4 : IsAmount (gwp.get "CH4")
  pub n2o : IsAmount (gwp.get "N2O")
  pub process :
      (f : FactorRecord)
      → require_factor catalog "STOICH_CACO3_IPCC_2006" gwp.code none ≡ ok f
      → eq_dec (or_zero f.value) (dec 4397 4) ≡ true
  pub known_stream : mem stream allowed_regulatory_streams ≡ true
  pub known_set : mem gwp.code allowed_gwp_sets ≡ true

-- The texts and the scope of a draft are among those allowed.
abbrev pub is_known : Draft → Bool
is_known d =
    leb 1 d.scope
    && leb d.scope 3
    && mem d.sub_scope (allowed_sub_scopes d.scope)
    && mem d.methodology allowed_methodologies

some_eq {ℓ} : {A : Type ℓ} (a b : A) → some a ≡ some b → a ≡ b
some_eq a b h = cc

module _ {ℓ κ} {V : Type ℓ} (P : V → Type κ) where
  -- The result of a chain of tests: what the branch taken gives.
  pub taken : {w v : V} → some w ≡ some v → P w → P v
  taken {w = w} {v = v} e here = subst P (some_eq w v e) here

  -- The end of a chain of tests.
  pub no_branch : (v : V) → none ≡ some v → P v
  no_branch v e = absurd cc

  pub find_codes-All :
      (k : Codes) (d : List (String × V)) (v : V)
      → All (λ p. P p.1) d
      → find_codes k d ≡ some v
      → P v
  unfolding find_codes
  find_codes-All k [] v h e = absurd cc
  find_codes-All k ((j, w) ∷ d) v h e = elim (Bool-cases (codes_eq k (codes j))) [
    | inl here ↦ subst P (some_eq w v (rw here at e)) h.0
    | inr later ↦ find_codes-All k d v h.1 (rw later at e)
  ]

  pub first_within-All :
      (k : Codes) (d : List (String × V)) (v : V)
      → All (λ p. P p.1) d
      → first_within k d ≡ some v
      → P v
  unfolding first_within
  first_within-All k [] v h e = absurd cc
  first_within-All k ((j, w) ∷ d) v h e = elim (Bool-cases (within (codes j) k)) [
    | inl here ↦ subst P (some_eq w v (rw here at e)) h.0
    | inr later ↦ first_within-All k d v h.1 (rw later at e)
  ]

pub scaled-IsNonneg : (a q : Decimal) → IsNonneg a → IsNonneg q → IsNonneg (a *ᵈ q *ᵈ kg_to_tonne)
scaled-IsNonneg a q n h = *ᵈ-IsNonneg (a *ᵈ q) kg_to_tonne (*ᵈ-IsNonneg a q n h) refl

pub IsOk-one : (m : Result EmissionRecord) → IsOk m → IsOk (one m)
unfolding one
IsOk-one (ok e) h = tt
IsOk-one (err e) h = h

pub IsOk-two : (m n : Result EmissionRecord) → IsOk m → IsOk n → IsOk (two m n)
unfolding two
IsOk-two (ok e) (ok f) h i = tt
IsOk-two (ok e) (err f) h i = i
IsOk-two (err e) n h i = h

pub IsOk-only_if :
    (b : Bool) (m : Result (List EmissionRecord)) → (b ≡ true → IsOk m) → IsOk (only_if b m)
unfolding only_if
IsOk-only_if true m h = h refl
IsOk-only_if false m h = tt

pub IsOk-if_some {ℓ} :
    {A : Type ℓ} (o : Option A) (f : A → Result (List EmissionRecord))
    → ((a : A) → o ≡ some a → IsOk (f a))
    → IsOk (if_some o f)
unfolding if_some
IsOk-if_some none f h = tt
IsOk-if_some (some a) f h = h a refl

-- The continuation of a call that returns a known value.
pub IsOk-known {ℓ κ} :
    {A : Type ℓ} {B : Type κ} (m : Result A) (f : A → Result B) (a : A)
    → m ≡ ok a
    → IsOk (f a)
    → IsOk (m >>= f)
IsOk-known m f a e h = rw e h

module _ (catalog : FactorCatalogPort) (gwp : GwpTablePort) (ctx : Ctx)
    (ready : IsReady catalog gwp ctx.regulatory_stream) where
  pub with_factor {ℓ} :
      {B : Type ℓ} (id : String) (f : FactorRecord → Result B)
      → IsNeeded id
      → ((factor : FactorRecord) → IsNonneg (or_zero factor.value) → IsOk (f factor))
      → IsOk (require_factor catalog id gwp.code none >>= f)
  with_factor id f needed h =
      let found = ready.factor id needed in
      IsOk-known (require_factor catalog id gwp.code none) f found.0 found.1 (h found.0 found.2)

  pub emit :
      (d : Draft)
      → is_known d ≡ true
      → d.calc_timestamp ≡ none
      → d.gwp_set ≡ gwp.code
      → IsNonneg d.tco2e
      → IsNonnegIfAny d.co2_biogenic_tonne
      → IsNonnegIfAny d.co2_fossil_tonne
      → IsOk (make_emission ctx d)
  emit d known now set amount biogenic fossil = make_emission-IsOk ctx d (record {
    scope_from = ground arith;
    scope_to = ground arith;
    tco2e = amount;
    sub_scope = ground arith;
    methodology = ground arith;
    regulatory_stream = ready.known_stream;
    gwp_set = rw set ready.known_set;
    calc_timestamp = now;
    co2_biogenic = biogenic;
    co2_fossil = fossil;
  })
