-- ===== src/Services/YoyStats.antt =====
-- application/services/yoy_stats.py: the year-on-year changes of each group over a history, and the
-- threshold that they give. `fmean` and `stdev` of the statistics module, on the floats of the
-- changes and back by their text, are parameters. The keys of a group are those of the caller; the
-- order of the result's keys is not used by any caller and is that of their first occurrence.
use ghg_tool.Prelude.{
  ℕ, Bool, true, false, Option, none, some, List, [], ◌∷◌, ◌++◌, length, leb, if◌then◌else◌,
}
use ghg_tool.Prelude.Dict.{Dict, Eq, nat_eq, lookup}
use ghg_tool.Prelude.Sort.{sort}
use ghg_tool.Decimal.{Decimal, dec, nought, abs_dec, divide, ◌-ᵈ◌, ◌+ᵈ◌, ◌*ᵈ◌}

pub record YoyStatsBaseline : Type 0 where
  pub sample_size : ℕ
  pub mean_pct : Decimal
  pub sigma_pct : Decimal
  pub is_reliable : Bool

-- A history by year.
abbrev pub History : Type 0 → Type 0
History K = Dict ℕ (Dict K Decimal)

abbrev year_le {ℓ} : {A : Type ℓ} → ℕ × A → ℕ × A → Bool
year_le p q = leb p.0 q.0

-- (next - prev) / prev * 100, where both are there and the first is not zero
unfoldable pub change : Option Decimal → Option Decimal → List Decimal
change none next = []
change (some prev) none = []
change (some prev) (some next) = elim (divide (next -ᵈ prev) prev) [
  | none ↦ []
  | some ratio ↦ (ratio *ᵈ dec 100 0) ∷ []
]

module _ {K : Type 0} ⦃e : Eq K⦄ where
  -- The changes of one key over consecutive years.
  unfoldable pub deltas_from : K → Option Decimal → History K → List Decimal
  deltas_from k prev [] = []
  deltas_from k prev ((y, inner) ∷ years) =
      let next = lookup k inner in change prev next ++ deltas_from k next years

  unfoldable pub deltas_of : K → History K → List Decimal
  deltas_of k history = deltas_from k none (sort year_le history)

module _ (fmean stdev : List Decimal → Decimal) where
  unfoldable pub baseline_of : (min_sample : ℕ) → List Decimal → YoyStatsBaseline
  baseline_of min_sample [] = record {
    sample_size = 0;
    mean_pct = nought;
    sigma_pct = nought;
    is_reliable = leb min_sample 0;
  }
  baseline_of min_sample (d ∷ []) = record {
    sample_size = 1;
    mean_pct = d;
    sigma_pct = nought;
    is_reliable = leb min_sample 1;
  }
  baseline_of min_sample (d ∷ c ∷ ds) = record {
    sample_size = length (d ∷ c ∷ ds);
    mean_pct = fmean (d ∷ c ∷ ds);
    sigma_pct = stdev (d ∷ c ∷ ds);
    is_reliable = leb min_sample (length (d ∷ c ∷ ds));
  }

abbrev has {ℓ} : {A : Type ℓ} → Option A → Bool
has none = false
has (some a) = true

module _ {K : Type 0} ⦃e : Eq K⦄ where
  -- k in all_keys
  unfoldable pub in_history : K → History K → Bool
  in_history k [] = false
  in_history k ((y, inner) ∷ years) =
      let later = in_history k years in if has (lookup k inner) then true else later

  -- compute_yoy_baseline(history).get(k)
  unfoldable pub baseline_for :
      (fmean stdev : List Decimal → Decimal)
      → (min_sample : ℕ) → History K
      → K
      → Option YoyStatsBaseline
  baseline_for fmean stdev min_sample history k =
      if in_history k history
      then some (baseline_of fmean stdev min_sample (deltas_of k history))
      else none

-- `threshold_pct`
unfoldable pub threshold_pct :
    (sigma_multiplier fallback_pct : Decimal) → Option YoyStatsBaseline → Decimal
threshold_pct sigma_multiplier fallback_pct none = fallback_pct
threshold_pct sigma_multiplier fallback_pct (some b) =
    if b.is_reliable then abs_dec b.mean_pct +ᵈ sigma_multiplier *ᵈ b.sigma_pct else fallback_pct
