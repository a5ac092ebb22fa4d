-- ===== src/Services/Reconciliation/Tallies.antt =====
-- The totals, the count and the breakdown of a result are those of its rows.
use ghg_tool.Prelude.{
  ◌+◌, ◌≡◌, refl, ap, ◌∙◌, Bool, false, ◌||◌, String, List, [], ◌∷◌, map, keep, count_if, str_eq,
  eq_iff, arith,
}
use ghg_tool.Prelude.Sort.{sort}
use ghg_tool.Prelude.Dict.{string_eq, lookup, lookup-update}
use ghg_tool.Decimal.{Decimal, nought, abs_dec, sum_from}
use ghg_tool.Result.{ok}
use ghg_tool.Services.Reconciliation.{
  Row, ReconciliationDelta, ReconciliationResult, or_nought, change_pct, by_key, union_keys,
  unsortable, key_le,
}
use ghg_tool.Services.Reconciliation.Deltas.{
  Settings, Tally, exceeds, trips, plus_to, add_delta, tally_from, empty_tally, result_of,
  reconcile, delta_of,
}

abbrev pub any_trips : Settings → List ReconciliationDelta → Bool
any_trips s [] = false
any_trips s (d ∷ ds) = trips s d || any_trips s ds

abbrev pub priors : List ReconciliationDelta → List Decimal
priors = map (λ (d : ReconciliationDelta). or_nought d.prior_tco2e)

abbrev pub currents : List ReconciliationDelta → List Decimal
currents = map (λ (d : ReconciliationDelta). or_nought d.current_tco2e)

-- The sizes of the deltas of one cause.
abbrev pub sizes : String → List ReconciliationDelta → List Decimal
sizes cause ds =
    map (λ (d : ReconciliationDelta). abs_dec d.abs_delta)
      (keep (λ (d : ReconciliationDelta). str_eq d.cause_category cause) ds)

module _ (s : Settings) where
  tally-prior :
      (t : Tally) (ds : List ReconciliationDelta)
      → (tally_from s t ds).total_prior ≡ sum_from t.total_prior (priors ds)
  unfolding tally_from sum_from
  tally-prior t [] = refl
  tally-prior t (d ∷ ds) = tally-prior (add_delta s t d) ds

  tally-current :
      (t : Tally) (ds : List ReconciliationDelta)
      → (tally_from s t ds).total_current ≡ sum_from t.total_current (currents ds)
  unfolding tally_from sum_from
  tally-current t [] = refl
  tally-current t (d ∷ ds) = tally-current (add_delta s t d) ds

  tally-count :
      (t : Tally) (ds : List ReconciliationDelta)
      → (tally_from s t ds).material_count
        ≡ t.material_count + count_if (λ (d : ReconciliationDelta). d.material) ds
  unfolding tally_from
  tally-count t [] = omega arith
  tally-count t (d ∷ ds) = tally-count (add_delta s t d) ds ∙ omega arith

  tally-tripped :
      (t : Tally) (ds : List ReconciliationDelta)
      → (tally_from s t ds).single_row_tripped ≡ (t.single_row_tripped || any_trips s ds)
  unfolding tally_from
  tally-tripped t [] = ground arith
  tally-tripped t (d ∷ ds) = tally-tripped (add_delta s t d) ds ∙ ground arith

  tally-breakdown :
      (cause : String) (t : Tally) (ds : List ReconciliationDelta)
      → or_nought (lookup cause (tally_from s t ds).cause_breakdown)
        ≡ sum_from (or_nought (lookup cause t.cause_breakdown)) (sizes cause ds)
  unfolding tally_from sum_from
  tally-breakdown cause t [] = refl
  tally-breakdown cause t (d ∷ ds) =
      tally-breakdown cause (add_delta s t d) ds
      ∙ ground (
        arith,
        lookup-update d.cause_category cause (plus_to (abs_dec d.abs_delta)) t.cause_breakdown,
        eq_iff d.cause_category cause,
      )

empty-breakdown : (cause : String) → or_nought (lookup cause empty_tally.cause_breakdown) ≡ nought
unfolding lookup
empty-breakdown cause = ground arith

-- The figures of a result are those of its rows: the totals before and now are the sums of the
-- amounts, a missing one counting as zero; the count is that of the material rows; each cause has the
-- sum of the sizes of its rows' deltas; and a restatement is required if the change of the totals
-- exceeds the threshold, or a row exceeds twice the threshold and the floor.
pub record IsTallied (s : Settings) (r : ReconciliationResult) : Type 0 where
  pub prior : r.total_prior ≡ sum_from nought (priors r.rows)
  pub current : r.total_current ≡ sum_from nought (currents r.rows)
  pub count : r.material_count ≡ count_if (λ (d : ReconciliationDelta). d.material) r.rows
  pub breakdown :
      (cause : String)
      → or_nought (lookup cause r.cause_breakdown) ≡ sum_from nought (sizes cause r.rows)
  pub restatement :
      r.restatement_required
      ≡ (exceeds (change_pct r.total_prior r.total_current) s.materiality_pct || any_trips s r.rows)

module _ (s : Settings) where
  result_of-IsTallied : (rows : List ReconciliationDelta) → IsTallied s (result_of s rows)
  unfolding result_of
  result_of-IsTallied rows = record {
    prior = tally-prior s empty_tally rows;
    current = tally-current s empty_tally rows;
    count = tally-count s empty_tally rows ∙ omega arith;
    breakdown = λ cause.
        tally-breakdown s cause empty_tally rows
        ∙ ap (λ total. sum_from total (sizes cause rows)) (empty-breakdown cause);
    restatement =
        ap
          (λ tripped.
            exceeds
              (change_pct (tally_from s empty_tally rows).total_prior
                (tally_from s empty_tally rows).total_current)
              s.materiality_pct
            || tripped)
          (tally-tripped s empty_tally rows);
  }

  -- A reconciliation raises only where two keys cannot be ordered; otherwise it gives a result, whose
  -- totals, count of material rows, breakdown by cause and restatement flag are those of its rows,
  -- and whose rows are the deltas of the keys of both sides, in order.
  pub reconcile-IsTallied :
      (snapshot current : List Row)
      → unsortable (union_keys (by_key snapshot) (by_key current)) ≡ false
      → (r : ReconciliationResult) × (reconcile s snapshot current ≡ ok r)
        × IsTallied s r
        × (r.rows
            ≡ map
                (delta_of s (by_key snapshot) (by_key current))
                (sort key_le (union_keys (by_key snapshot) (by_key current))))
  unfolding reconcile result_of
  reconcile-IsTallied snapshot current sortable =
      let rows : List ReconciliationDelta =
        map (delta_of s (by_key snapshot) (by_key current))
          (sort key_le (union_keys (by_key snapshot) (by_key current))) in
      (result_of s rows, rw sortable refl, result_of-IsTallied rows, refl)
