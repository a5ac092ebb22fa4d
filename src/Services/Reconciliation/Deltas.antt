-- ===== src/Services/Reconciliation/Deltas.antt =====
-- The loop of `reconcile`: a delta for each key, the tally of them, and the result.
use ghg_tool.Prelude.{
  ℕ, ◌+◌, Bool, true, false, ◌&&◌, ◌||◌, String, Option, none, some, List, [], ◌∷◌, map,
  if◌then◌else◌,
}
use ghg_tool.Prelude.Dict.{Dict, Eq, nat_eq, string_eq, pair_eq, lookup, update}
use ghg_tool.Prelude.Sort.{sort}
use ghg_tool.Decimal.{Decimal, dec, nought, le_dec, lt_dec, abs_dec, ◌-ᵈ◌, ◌+ᵈ◌, ◌*ᵈ◌}
use ghg_tool.Result.{Result, ok, err, type_error}
use ghg_tool.Services.YoyStats.{YoyStatsBaseline, History, baseline_for, threshold_pct}
use ghg_tool.Services.Reconciliation.{
  Key3, Key, Row, ReconciliationDelta, ReconciliationResult, site_eq, all_causes, or_nought,
  change_pct, pct, infer_cause, by_key, union_keys, key_le, unsortable,
}

-- The arguments of a reconciliation.
pub record Settings : Type 0 where
  pub materiality_pct : Decimal
  pub materiality_tco2e : Decimal
  pub methodology_flags : List Key
  pub baseline_of : Key3 → Option YoyStatsBaseline

-- min(a, b)
abbrev pub min_dec : Decimal → Decimal → Decimal
min_dec a b = if lt_dec b a then b else a

unfoldable pub row_threshold : Settings → Key3 → Decimal
row_threshold s key3 = elim (s.baseline_of key3) [
  | none ↦ s.materiality_pct
  | some b ↦
      if b.is_reliable
      then min_dec (threshold_pct (dec 2 0) s.materiality_pct (some b)) s.materiality_pct
      else s.materiality_pct
]

-- abs(pct_delta) > limit, where there is one
abbrev pub exceeds : Option Decimal → Decimal → Bool
exceeds none limit = false
exceeds (some p) limit = lt_dec limit (abs_dec p)

abbrev pub is_undefined : Option Decimal → Bool
is_undefined none = true
is_undefined (some p) = false

-- abs(abs_delta) >= materiality_tco2e
abbrev pub above_floor : Settings → Decimal → Bool
above_floor s delta = le_dec s.materiality_tco2e (abs_dec delta)

unfoldable pub is_material :
    Settings → (pct_delta : Option Decimal) → (abs_delta limit : Decimal) → Bool
is_material s pct_delta abs_delta limit =
    (exceeds pct_delta limit && above_floor s abs_delta)
    || (is_undefined pct_delta && above_floor s abs_delta)

abbrev pub tco2e_of : Option Row → Option Decimal
tco2e_of none = none
tco2e_of (some row) = row.tco2e

abbrev is_flagged : Key → List Key → Bool
is_flagged k [] = false
is_flagged k (j ∷ flags) = let e : Eq Key = pair_eq in e.beq k j || is_flagged k flags

-- One turn of the loop.
unfoldable pub delta_of : Settings → (prior current : Dict Key Row) → Key → ReconciliationDelta
delta_of s prior current k =
    let p = tco2e_of (lookup k prior) in
    let c = tco2e_of (lookup k current) in
    let abs_delta = or_nought c -ᵈ or_nought p in
    let limit = row_threshold s k.0 in
    record {
      key = k;
      prior_tco2e = p;
      current_tco2e = c;
      abs_delta = abs_delta;
      pct_delta = pct p c;
      cause_category =
          infer_cause (lookup k prior) (lookup k current) (is_flagged k s.methodology_flags);
      material = is_material s (pct p c) abs_delta limit;
      threshold_pct_used = limit;
    }

-- What the loop adds up.
pub record Tally : Type 0 where
  pub total_prior : Decimal
  pub total_current : Decimal
  pub material_count : ℕ
  pub single_row_tripped : Bool
  pub cause_breakdown : Dict String Decimal

abbrev pub plus_to : Decimal → Option Decimal → Decimal
plus_to v none = nought +ᵈ v
plus_to v (some total) = total +ᵈ v

abbrev pub trips : Settings → ReconciliationDelta → Bool
trips s d = exceeds d.pct_delta (s.materiality_pct *ᵈ dec 2 0) && above_floor s d.abs_delta

abbrev pub add_delta : Settings → Tally → ReconciliationDelta → Tally
add_delta s t d = record {
  total_prior = t.total_prior +ᵈ or_nought d.prior_tco2e;
  total_current = t.total_current +ᵈ or_nought d.current_tco2e;
  material_count = t.material_count + (if d.material then 1 else 0);
  single_row_tripped = t.single_row_tripped || trips s d;
  cause_breakdown = update d.cause_category (plus_to (abs_dec d.abs_delta)) t.cause_breakdown;
}

unfoldable pub tally_from : Settings → Tally → List ReconciliationDelta → Tally
tally_from s t [] = t
tally_from s t (d ∷ ds) = tally_from s (add_delta s t d) ds

abbrev pub empty_tally : Tally
empty_tally = record {
  total_prior = nought;
  total_current = nought;
  material_count = 0;
  single_row_tripped = false;
  cause_breakdown = map (λ c. (c, nought)) all_causes;
}

unfoldable pub result_of : Settings → List ReconciliationDelta → ReconciliationResult
result_of s rows =
    let t = tally_from s empty_tally rows in
    let total_pct = change_pct t.total_prior t.total_current in
    record {
      total_prior = t.total_prior;
      total_current = t.total_current;
      total_abs_delta = t.total_current -ᵈ t.total_prior;
      total_delta_pct = total_pct;
      rows = rows;
      material_count = t.material_count;
      restatement_required = exceeds total_pct s.materiality_pct || t.single_row_tripped;
      cause_breakdown = t.cause_breakdown;
    }

unfoldable pub reconcile :
    Settings → (snapshot_emissions current_emissions : List Row) → Result ReconciliationResult
reconcile s snapshot_emissions current_emissions =
    let prior = by_key snapshot_emissions in
    let current = by_key current_emissions in
    let keys = union_keys prior current in
    if unsortable keys
    then err type_error
    else ok (result_of s (map (delta_of s prior current) (sort key_le keys)))

-- historical_by_year, from which the baselines come; without one there are none.
module _ (fmean stdev : List Decimal → Decimal) where
  unfoldable pub baselines : History Key3 → Key3 → Option YoyStatsBaseline
  baselines history key3 = baseline_for fmean stdev 3 history key3
