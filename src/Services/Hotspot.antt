-- ===== src/Services/Hotspot.antt =====
-- application/services/hotspot_service.py: the ranking of the Scope 3 categories. The history's
-- statistics are those of Services.YoyStats. `top_n` is not negative.
pub mod Ranking
use ghg_tool.Prelude.{
  ℕ, zero, suc, ◌+◌, Bool, true, false, not, ◌&&◌, ◌||◌, String, Option, none, some, List, [], ◌∷◌,
  map, keep, take, leb, ltb, ◌==◌, str_eq, if◌then◌else◌,
}
use ghg_tool.Prelude.Text.{str_ltb}
use ghg_tool.Prelude.Dict.{Dict, string_eq, lookup, update}
use ghg_tool.Prelude.Sort.{sort}
use ghg_tool.Decimal.{
  Decimal, dec, nought, le_dec, lt_dec, abs_dec, sum_from, divide, ◌-ᵈ◌, ◌+ᵈ◌, ◌*ᵈ◌,
}
use ghg_tool.Domain.Emission.{EmissionRecord, Datetime}
use ghg_tool.Domain.Gwp.{distinct}
use ghg_tool.Services.YoyStats.{History, baseline_for, threshold_pct}

abbrev pub concentration_threshold : Decimal
concentration_threshold = dec 80 0

abbrev pub concentration_top_n : ℕ
concentration_top_n = 5

abbrev pub yoy_sigma_multiplier : Decimal
yoy_sigma_multiplier = dec 2 0

abbrev pub yoy_fallback_pct : Decimal
yoy_fallback_pct = dec 20 0

-- label_for, of domain/value_objects/scope3_categories.py
unfoldable pub label_for : String → String
label_for sub_scope =
    if str_eq sub_scope "Cat1"
    then "1 - Beni e servizi acquistati"
    else if str_eq sub_scope "Cat2"
    then "2 - Beni capitali"
    else if str_eq sub_scope "Cat3"
    then "3 - Combustibili/energia WTT+T&D"
    else if str_eq sub_scope "Cat4"
    then "4 - Trasporto upstream"
    else if str_eq sub_scope "Cat5"
    then "5 - Rifiuti in operazioni"
    else if str_eq sub_scope "Cat6"
    then "6 - Viaggi di lavoro"
    else if str_eq sub_scope "Cat7"
    then "7 - Pendolarismo dipendenti"
    else if str_eq sub_scope "Cat9"
    then "9 - Trasporto downstream"
    else if str_eq sub_scope "Cat11"
    then "11 - Uso dei prodotti venduti (Omesso - Immateriale)"
    else if str_eq sub_scope "Cat12"
    then "12 - Fine vita prodotti venduti"
    else sub_scope

pub record HotspotEntry : Type 0 where
  pub rank : ℕ
  pub sub_scope : String
  pub category_label : String
  pub tco2e : Decimal
  pub pct_of_scope3 : Decimal
  pub cumulative_pct : Decimal
  pub yoy_delta_pct : Option Decimal
  pub flag_high_concentration : Bool
  pub flag_yoy_outlier : Bool
  pub outlier_threshold_pct : Decimal
  pub gwp_set : String
  pub calc_timestamp : ℕ
  pub factor_sources : List String

abbrev pub Totals : Type 0
Totals = Dict String Decimal

abbrev pub plus : Decimal → Option Decimal → Decimal
plus q none = nought +ᵈ q
plus q (some v) = v +ᵈ q

unfoldable pub totals_from : Totals → List EmissionRecord → Totals
totals_from totals [] = totals
totals_from totals (r ∷ rs) =
    totals_from (if r.scope == 3 then update r.sub_scope (plus r.tco2e) totals else totals) rs

-- `_aggregate_scope3`
unfoldable pub aggregate_scope3 : List EmissionRecord → Totals
unfolding totals_from
aggregate_scope3 = totals_from []

-- key=lambda kv: (-kv[1], kv[0])
unfoldable pub rank_le : String × Decimal → String × Decimal → Bool
rank_le (k, v) (j, w) = lt_dec w v || (le_dec w v && (str_ltb k j || str_eq k j))

-- The change against the prior year.
unfoldable pub yoy_delta : Option Decimal → Decimal → Option Decimal
yoy_delta none current = none
yoy_delta (some prior) current =
    if le_dec prior nought then none else elim (divide (current -ᵈ prior) prior) [
      | none ↦ none
      | some ratio ↦ some (ratio *ᵈ dec 100 0)
    ]

abbrev pub is_outlier : Option Decimal → Decimal → Bool
is_outlier none threshold = false
is_outlier (some yoy) threshold = lt_dec threshold (abs_dec yoy)

-- What the entries share.
pub record Slice : Type 0 where
  pub total : Decimal
  pub concentrated : Bool
  pub prior_totals : Totals
  pub threshold_of : String → Decimal
  pub gwp_set : String
  pub calc_timestamp : ℕ
  pub factor_sources : List String

-- (value / total) * 100; the total is positive.
abbrev pub share_of : Decimal → Decimal → Decimal
share_of total value = elim (divide value total) [ none ↦ nought | some ratio ↦ ratio *ᵈ dec 100 0 ]

-- The loop that builds the entries, from a rank and the shares so far.
unfoldable pub entries_from : Slice → ℕ → Decimal → List (String × Decimal) → List HotspotEntry
entries_from s rank cumulative [] = []
entries_from s rank cumulative ((sub_scope, value) ∷ ranked) =
    let pct = share_of s.total value in
    let yoy = yoy_delta (lookup sub_scope s.prior_totals) value in
    let threshold = s.threshold_of sub_scope in
    record {
      rank = rank;
      sub_scope = sub_scope;
      category_label = label_for sub_scope;
      tco2e = value;
      pct_of_scope3 = pct;
      cumulative_pct = cumulative +ᵈ pct;
      yoy_delta_pct = yoy;
      flag_high_concentration = s.concentrated;
      flag_yoy_outlier = is_outlier yoy threshold;
      outlier_threshold_pct = threshold;
      gwp_set = s.gwp_set;
      calc_timestamp = s.calc_timestamp;
      factor_sources = s.factor_sources;
    }
    ∷ entries_from s (rank + 1) (cumulative +ᵈ pct) ranked

-- min of the instants, on records that are there
min_instant : ℕ → List EmissionRecord → ℕ
min_instant t [] = t
min_instant t (r ∷ rs) =
    min_instant (if ltb r.calc_timestamp.instant t then r.calc_timestamp.instant else t) rs

unfoldable pub oldest : List EmissionRecord → ℕ
unfolding min_instant
oldest [] = 0
oldest (r ∷ rs) = min_instant r.calc_timestamp.instant rs

abbrev pub uniform : List String → String
uniform [] = ""
uniform (u ∷ []) = u
uniform (u ∷ v ∷ us) = ""

abbrev pub top_sum : List (String × Decimal) → Decimal
top_sum ranked = sum_from nought (map (λ p. p.1) ranked)

unfoldable pub compute_hotspots :
    (fmean stdev : List Decimal → Decimal)
    → (emissions_current emissions_prior : List EmissionRecord) → (top_n : ℕ) → History String
    → List HotspotEntry
compute_hotspots fmean stdev current prior top_n history =
    let records = keep (λ r. r.scope == 3) current in
    let ranked = sort rank_le (aggregate_scope3 records) in
    let total = top_sum ranked in
    if le_dec total nought
    then []
    else take top_n (
        entries_from
          (record {
            total = total;
            concentrated =
                lt_dec concentration_threshold
                  (share_of total (top_sum (take concentration_top_n ranked)));
            prior_totals = aggregate_scope3 prior;
            threshold_of = λ sub_scope.
                threshold_pct yoy_sigma_multiplier yoy_fallback_pct
                  (baseline_for fmean stdev 3 history sub_scope);
            gwp_set = uniform (distinct (map (λ r. r.gwp_set) records));
            calc_timestamp = oldest records;
            factor_sources = distinct (map (λ r. r.factor_source) records);
          })
          1 nought ranked)
