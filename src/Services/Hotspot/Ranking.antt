-- ===== src/Services/Hotspot/Ranking.antt =====
-- What the ranking holds: the totals by category, in the order of the ranking, cut at `top_n`.
use mathlib.Core.List.{Perm}
use ghg_tool.Prelude.{
  eq_iff, ℕ, zero, suc, ◌+◌, ◌≤◌, ◌≡◌, refl, ap, ◌∙◌, Bool, true, false, ◌&&◌, String, List, [],
  ◌∷◌, map, keep, take, length, arith, ◌==◌, str_eq,
}
use ghg_tool.Prelude.Dict.{string_eq, lookup, update, lookup-update}
use ghg_tool.Prelude.Sort.{sort, Perm-sort, InOrder, sort-InOrder}
use ghg_tool.Decimal.{Decimal, nought, le_dec, lt_dec, sum_from}
use ghg_tool.Decimal.Order.{le_dec_total, le_dec_trans}
use ghg_tool.Domain.Emission.{EmissionRecord}
use ghg_tool.Calc.Helpers.{or_zero}
use ghg_tool.Services.YoyStats.{History}
use ghg_tool.Services.Hotspot.{
  HotspotEntry, Slice, Totals, plus, totals_from, aggregate_scope3, rank_le, entries_from, top_sum,
  compute_hotspots,
}

totals_from-lookup :
    (k : String) (totals : Totals) (rs : List EmissionRecord)
    → or_zero (lookup k (totals_from totals rs))
      ≡ sum_from
          (or_zero (lookup k totals))
          (map (λ r. r.tco2e) (keep (λ r. r.scope == 3 && str_eq r.sub_scope k) rs))
unfolding totals_from sum_from
totals_from-lookup k totals [] = refl
totals_from-lookup k totals (r ∷ rs) = ground (
  arith,
  totals_from-lookup k totals rs,
  totals_from-lookup k (update r.sub_scope (plus r.tco2e) totals) rs,
  lookup-update r.sub_scope k (plus r.tco2e) totals,
  eq_iff r.sub_scope k,
)

-- The total of a category is the sum, from the left, of the amounts of its Scope 3 records.
pub aggregate_scope3-lookup :
    (k : String) (rs : List EmissionRecord)
    → or_zero (lookup k (aggregate_scope3 rs))
      ≡ sum_from nought (map (λ r. r.tco2e) (keep (λ r. r.scope == 3 && str_eq r.sub_scope k) rs))
unfolding aggregate_scope3 lookup
aggregate_scope3-lookup k rs = totals_from-lookup k [] rs

-- The ranks 1, 2, 3, ... of a list.
abbrev pub ranks_from : {A : Type 0} → ℕ → List A → List ℕ
ranks_from n [] = []
ranks_from n (x ∷ xs) = n ∷ ranks_from (n + 1) xs

abbrev pub scored : HotspotEntry → String × Decimal
scored e = (e.sub_scope, e.tco2e)

entries-scored :
    (s : Slice) (n : ℕ) (c : Decimal) (ranked : List (String × Decimal))
    → map scored (entries_from s n c ranked) ≡ ranked
unfolding entries_from
entries-scored s n c [] = refl
entries-scored s n c ((k, v) ∷ ranked) = ap (λ xs. (k, v) ∷ xs) (entries-scored s (n + 1) _ ranked)

entries-ranks :
    (s : Slice) (n : ℕ) (c : Decimal) (ranked : List (String × Decimal))
    → map (λ e. e.rank) (entries_from s n c ranked) ≡ ranks_from n ranked
unfolding entries_from
entries-ranks s n c [] = refl
entries-ranks s n c ((k, v) ∷ ranked) = ap (λ xs. n ∷ xs) (entries-ranks s (n + 1) _ ranked)

map-take {ℓ κ} :
    {A : Type ℓ} {B : Type κ} (f : A → B) (n : ℕ) (xs : List A)
    → map f (take n xs) ≡ take n (map f xs)
map-take f zero xs = refl
map-take f (suc n) [] = refl
map-take f (suc n) (x ∷ xs) = ap (λ ys. f x ∷ ys) (map-take f n xs)

length-take {ℓ} : {A : Type ℓ} (n : ℕ) (xs : List A) → length (take n xs) ≤ n
length-take zero xs = omega arith
length-take (suc n) [] = omega arith
length-take (suc n) (x ∷ xs) = omega (arith, length-take n xs)

-- The ranking of a year's records.
abbrev pub ranking : List EmissionRecord → List (String × Decimal)
ranking current = sort rank_le (aggregate_scope3 (keep (λ r. r.scope == 3) current))

-- The amount of the first is the other's or more.
abbrev pub not_less : String × Decimal → String × Decimal → Bool
not_less p q = le_dec q.1 p.1

rank_le-not_less : (p q : String × Decimal) → rank_le p q ≡ true → not_less p q ≡ true
unfolding rank_le lt_dec
rank_le-not_less p q h = ground (arith, le_dec_total p.1 q.1)

rank_le-flips : (p q : String × Decimal) → rank_le p q ≡ false → not_less q p ≡ true
unfolding rank_le lt_dec
rank_le-flips p q h = ground (arith, le_dec_total p.1 q.1)

ranking-InOrder : (current : List EmissionRecord) → InOrder not_less (ranking current)
ranking-InOrder current =
    sort-InOrder rank_le not_less rank_le-not_less rank_le-flips
      (λ p q r h k. le_dec_trans r.1 q.1 p.1 k h) _

-- If the year's Scope 3 total is positive, the entries are the first top_n of the ranking, with the
-- ranks 1, 2, 3, ..., at most top_n of them; the ranking is a permutation of the totals by category,
-- and no total in it is above an earlier one.
pub compute_hotspots-ranking :
    (fmean stdev : List Decimal → Decimal) (current prior : List EmissionRecord) (top_n : ℕ)
    (history : History String)
    → le_dec (top_sum (ranking current)) nought ≡ false
    → (map scored (compute_hotspots fmean stdev current prior top_n history)
        ≡ take top_n (ranking current))
      × (map (λ e. e.rank) (compute_hotspots fmean stdev current prior top_n history)
          ≡ take top_n (ranks_from 1 (ranking current)))
      × (length (compute_hotspots fmean stdev current prior top_n history) ≤ top_n)
      × Perm (ranking current) (aggregate_scope3 (keep (λ r. r.scope == 3) current))
      × InOrder not_less (ranking current)
unfolding compute_hotspots
compute_hotspots-ranking fmean stdev current prior top_n history positive = rw positive (
  map-take scored top_n _ ∙ ap (take top_n) (entries-scored _ 1 nought (ranking current)),
  map-take (λ e. e.rank) top_n _ ∙ ap (take top_n) (entries-ranks _ 1 nought (ranking current)),
  length-take top_n _,
  Perm-sort rank_le _,
  ranking-InOrder current,
)
