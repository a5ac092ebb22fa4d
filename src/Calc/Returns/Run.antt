-- ===== src/Calc/Returns/Run.antt =====
-- The whole run returns.
use ghg_tool.Prelude.{
  ℕ, ◌≡◌, ◌≢◌, refl, ap, sym, ◌∙◌, Bool, true, false, String, List, [], ◌∷◌, ◌++◌, map, All,
  All-map, All-of-each,
}
use ghg_tool.Decimal.{Decimal}
use ghg_tool.Decimal.Sign.{IsNonneg}
use ghg_tool.Domain.Emission.{EmissionRecord}
use ghg_tool.Domain.Factor.{FactorCatalogPort}
use ghg_tool.Domain.Gwp.{GwpTablePort, assert_single_gwp_set}
use ghg_tool.Domain.Gwp.Policy.{AllEq, assert_single_gwp_set-ok_iff}
use ghg_tool.Result.{Result, ok, extend_all, ◌>>=◌}
use ghg_tool.Result.Ensures.{IsOk, IsOk-bind, IsOk-gather, Ensures-extend_all}
use ghg_tool.Result.Trace.{spread, map-extend_all}
use ghg_tool.Calc.Helpers.{Ctx, Scope3Row}
use ghg_tool.Calc.Helpers.Keys.{row_key}
use ghg_tool.Calc.Helpers.Stamp.{IsOfRun}
use ghg_tool.Calc.Scope1.Combustion
use ghg_tool.Calc.Scope1.Fugitive
use ghg_tool.Calc.Scope2.MarketBased.{checker_of}
use ghg_tool.Calc.Scope2.MarketBased.Evidence.{is_backed}
use ghg_tool.Calc.Scope3.PurchasedGoods
use ghg_tool.Calc.Scope3.CapitalGoods
use ghg_tool.Calc.Scope3.UpstreamTransport
use ghg_tool.Calc.Scope3.Waste
use ghg_tool.Calc.Scope3.BusinessTravel
use ghg_tool.Calc.Scope3.DownstreamTransport
use ghg_tool.Calc.Orchestrator.{CalcRunInputs, common_ctx, calls, run}
use ghg_tool.Calc.Orchestrator.OfRun.{calls-IsOfRun}
use ghg_tool.Calc.Orchestrator.Coverage.{run_keys, calls-KeysMatch}
use ghg_tool.Calc.Orchestrator.Sigma.{sigma_scope1-IsNonneg, sigma_scope2-IsNonneg}
use ghg_tool.Calc.Returns.{IsReady, IsOk-known}
use ghg_tool.Calc.Returns.Scope1.{combustion_row-IsOk, site-IsOk}
use ghg_tool.Calc.Returns.Scope3.{
  capital_row-IsOk, upstream_row-IsOk, downstream_row-IsOk, waste_row-IsOk, travel_row-IsOk,
  purchased_row-IsOk, cat11-IsOk, omitted-IsOk,
}
use ghg_tool.Calc.Returns.Whole.{
  process-IsOk, location-IsOk, market-IsOk, commuting-IsOk, end_of_life-IsOk, fuel_energy-IsOk,
}

-- No quantity is negative, and every guarantee of origin passes the evidence check.
pub record IsGood (inputs : CalcRunInputs) : Type 0 where
  pub scope1 : All (λ r. IsNonneg r.quantita) inputs.scope1_rows
  pub scope2 : All (λ r. IsNonneg r.quantita) inputs.scope2_rows
  pub scope3 : All (λ r. IsNonneg r.quantita) inputs.scope3_rows
  pub backed : All (λ r. is_backed (checker_of inputs.go_evidence) r ≡ true) inputs.scope2_rows

is_empty {ℓ} : {A : Type ℓ} → List A → Bool
is_empty [] = true
is_empty (x ∷ xs) = false

is_empty-append {ℓ} :
    {A : Type ℓ} (xs ys : List A) → is_empty ys ≡ false → is_empty (xs ++ ys) ≡ false
unfolding is_empty
is_empty-append [] ys h = h
is_empty-append (x ∷ xs) ys h = refl

true_not_false : true ≡ false → ⊥
true_not_false e = absurd cc

nonempty-map {ℓ κ μ} :
    {A : Type ℓ} {B : Type κ} {C : Type μ} (f : A → B) (g : A → C) (xs : List A) (ks : List B)
    → map f xs ≡ ks
    → is_empty ks ≡ false
    → map g xs ≢ []
unfolding is_empty
nonempty-map f g [] ks e h = absurd (true_not_false (ap is_empty e ∙ h))
nonempty-map f g (x ∷ xs) ks e h = λ k. absurd (true_not_false (sym (ap is_empty k)))

AllEq-map :
    (ctx : Ctx) (code : String) (rows : List EmissionRecord)
    → All (IsOfRun ctx code) rows
    → AllEq code (map (λ r. r.gwp_set) rows)
AllEq-map ctx code [] h = tt
AllEq-map ctx code (r ∷ rows) h = (h.0.gwp_set, AllEq-map ctx code rows h.1)

module _ (resample : Decimal → List Decimal) (clock : ℕ) (catalog : FactorCatalogPort)
    (gwp : GwpTablePort) (inputs : CalcRunInputs) where
  run_keys-nonempty : is_empty (spread (λ ks. ks) (run_keys inputs)) ≡ false
  unfolding spread run_keys is_empty
  run_keys-nonempty = search is_empty-append depth 20

  calls-IsOk :
      IsReady catalog gwp inputs.regulatory_stream
      → IsGood inputs
      → All (λ m. IsOk m) (calls resample clock catalog gwp inputs)
  unfolding calls Fugitive.calculate Combustion.calculate PurchasedGoods.calculate
      CapitalGoods.calculate UpstreamTransport.calculate Waste.calculate BusinessTravel.calculate
      DownstreamTransport.calculate
  calls-IsOk ready good =
      let ctx = common_ctx clock inputs in
      let row3 =
        λ (f : Scope3Row → Result (List EmissionRecord))
            (h : (r : Scope3Row) → IsNonneg r.quantita → IsOk (f r)).
          IsOk-gather f inputs.scope3_rows (All-map h inputs.scope3_rows good.scope3) in
      (
        IsOk-gather _ _
            (All-of-each _ (λ site. site-IsOk catalog gwp ctx ready inputs.anno site) inputs.sites),
        (
          IsOk-gather _ _ (
              All-map (λ r n. combustion_row-IsOk catalog gwp ctx ready r n) inputs.scope1_rows
                good.scope1),
          (
            process-IsOk catalog gwp ctx ready inputs.scope1_rows good.scope1,
            (
              location-IsOk catalog gwp ctx ready inputs.scope2_rows good.scope2,
              (
                market-IsOk catalog gwp ctx ready inputs.go_evidence inputs.scope2_rows good.scope2
                    good.backed,
                (
                  row3 _ (purchased_row-IsOk catalog gwp ctx ready),
                  (
                    row3 _ (capital_row-IsOk catalog gwp ctx ready),
                    (
                      fuel_energy-IsOk catalog gwp ctx ready _ _
                          (sigma_scope1-IsNonneg inputs.scope1_rows good.scope1)
                          (sigma_scope2-IsNonneg inputs.scope2_rows good.scope2),
                      (
                        row3 _ (upstream_row-IsOk catalog gwp ctx ready),
                        (
                          row3 _ (waste_row-IsOk catalog gwp ctx ready),
                          (
                            row3 _ (travel_row-IsOk catalog gwp ctx ready resample),
                            (
                              commuting-IsOk catalog gwp ctx ready inputs.scope3_rows good.scope3,
                              (
                                row3 _ (downstream_row-IsOk catalog gwp ctx ready),
                                (
                                  end_of_life-IsOk catalog gwp ctx ready inputs.scope3_rows
                                      good.scope3,
                                  (
                                    cat11-IsOk catalog gwp ctx ready inputs.anno,
                                    (omitted-IsOk catalog gwp ctx ready inputs.anno, tt),
                                  ),
                                ),
                              ),
                            ),
                          ),
                        ),
                      ),
                    ),
                  ),
                ),
              ),
            ),
          ),
        ),
      )

  -- If the catalog has every factor that the calculations ask for, with no negative value or biogenic
  -- share and a process factor of 0.4397, the table has the gases, none negative, the stream and the
  -- GWP set are among those allowed, no quantity is negative and every row that names a guarantee of
  -- origin passes the evidence check, then the run returns records.
  pub run-IsOk :
      IsReady catalog gwp inputs.regulatory_stream
      → IsGood inputs
      → IsOk (run resample clock catalog gwp inputs)
  unfolding run
  run-IsOk ready good =
      let ms = calls resample clock catalog gwp inputs in
      IsOk-bind (extend_all ms)
        (λ rows. assert_single_gwp_set (map (λ r. r.gwp_set) rows) >>= λ _. ok rows)
        (IsOk-gather _ ms (calls-IsOk ready good))
        λ rows e.
          IsOk-known _ _ gwp.code
            ((assert_single_gwp_set-ok_iff gwp.code (map (λ r. r.gwp_set) rows)).1 (
              nonempty-map row_key (λ r. r.gwp_set) rows (spread (λ ks. ks) (run_keys inputs))
                  ((map-extend_all row_key (run_keys inputs) ms
                      (calls-KeysMatch resample clock catalog gwp inputs)).at
                    rows e)
                  run_keys-nonempty,
              AllEq-map (common_ctx clock inputs) gwp.code rows (
                  (Ensures-extend_all (IsOfRun (common_ctx clock inputs) gwp.code) ms
                      (calls-IsOfRun resample clock catalog gwp inputs)).at
                    rows e),
            ))
            tt
