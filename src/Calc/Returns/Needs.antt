-- ===== src/Calc/Returns/Needs.antt =====
-- The factors that the Scope 3 calculations pick are among those that a catalog must have, and the
-- values of Category 1's biogenic memo.
use ghg_tool.Prelude.{
  ◌≡◌, refl, true, ◌&&◌, ◌||◌, not, String, Option, none, some, Bool-cases, inl, inr, str_eq,
}
use ghg_tool.Prelude.Text.{codes, lower, starts, within}
use ghg_tool.Decimal.{Decimal}
use ghg_tool.Decimal.Sign.{IsNonneg}
use ghg_tool.Domain.Emission.{mem, allowed_methodologies}
use ghg_tool.Domain.Emission.Validity.{IsNonnegIfAny}
use ghg_tool.Calc.Returns.{
  IsNeeded, scaled-IsNonneg, find_codes-All, first_within-All, taken, no_branch,
}
use ghg_tool.Calc.Scope3.PurchasedGoods
use ghg_tool.Calc.Scope3.CapitalGoods
use ghg_tool.Calc.Scope3.FuelEnergy
use ghg_tool.Calc.Scope3.UpstreamTransport
use ghg_tool.Calc.Scope3.Waste
use ghg_tool.Calc.Scope3.BusinessTravel
use ghg_tool.Calc.Scope3.DownstreamTransport

pub purchasedgoods-IsNeeded : (s id : String) → PurchasedGoods.factor_for s ≡ some id → IsNeeded id
unfolding PurchasedGoods.factor_for mem
purchasedgoods-IsNeeded s id = find_codes-All IsNeeded _ _ id (
  refl,
  (refl, (refl, (refl, (refl, (refl, (refl, (refl, (refl, (refl, (refl, (refl, tt))))))))))),
)

pub capitalgoods-IsNeeded : (s id : String) → CapitalGoods.factor_for s ≡ some id → IsNeeded id
unfolding CapitalGoods.factor_for mem
capitalgoods-IsNeeded s id = find_codes-All IsNeeded _ _ id (refl, (refl, tt))

pub upstreamtransport-IsNeeded :
    (s id : String) → UpstreamTransport.resolve_mode s ≡ some id → IsNeeded id
unfolding UpstreamTransport.resolve_mode mem
upstreamtransport-IsNeeded s id =
    first_within-All IsNeeded _ _ id
      (refl, (refl, (refl, (refl, (refl, (refl, (refl, (refl, tt))))))))

pub downstreamtransport-IsNeeded :
    (s id : String) → DownstreamTransport.resolve_mode s ≡ some id → IsNeeded id
unfolding DownstreamTransport.resolve_mode mem
downstreamtransport-IsNeeded s id =
    first_within-All IsNeeded _ _ id (refl, (refl, (refl, (refl, tt))))

pub businesstravel-IsNeeded :
    (s id : String) → BusinessTravel.resolve_factor s ≡ some id → IsNeeded id
unfolding BusinessTravel.resolve_factor mem
businesstravel-IsNeeded s id = first_within-All IsNeeded _ _ id (refl, (refl, (refl, tt)))

pub waste-IsNeeded : (s id : String) → Waste.resolve_waste_factor s ≡ some id → IsNeeded id
unfolding Waste.resolve_waste_factor mem
waste-IsNeeded s id h =
    let label = lower (codes s) in
    let perilous = within (codes "pericol") label && not (within (codes "non pericol") label) in
    let landfill = within (codes "discarica") label || within (codes "landfill") label in
    let recycle = within (codes "ricicl") label || within (codes "recycl") label in
    elim (Bool-cases (landfill && perilous)) [
      | inl a ↦ taken IsNeeded (rw a at h) refl
      | inr a ↦
          let h4 = rw a at h in
          elim (Bool-cases (landfill)) [
            | inl a ↦ taken IsNeeded (rw a at h4) refl
            | inr a ↦
                let h3 = rw a at h4 in
                elim (Bool-cases (recycle && perilous)) [
                  | inl a ↦ taken IsNeeded (rw a at h3) refl
                  | inr a ↦
                      let h2 = rw a at h3 in
                      elim (Bool-cases (recycle)) [
                        | inl a ↦ taken IsNeeded (rw a at h2) refl
                        | inr a ↦ let h1 = rw a at h2 in no_branch IsNeeded id h1
                      ]
                ]
          ]
    ]

pub fuel-IsNeeded : (fuel id : String) → FuelEnergy.fuel_wtt_factor_id fuel ≡ some id → IsNeeded id
unfolding FuelEnergy.fuel_wtt_factor_id mem
fuel-IsNeeded fuel id h = elim (Bool-cases (str_eq fuel "GAS_NAT")) [
  | inl a ↦ taken IsNeeded (rw a at h) refl
  | inr a ↦
      let h3 = rw a at h in
      elim (Bool-cases (str_eq fuel "GASOLIO")) [
        | inl a ↦ taken IsNeeded (rw a at h3) refl
        | inr a ↦
            let h2 = rw a at h3 in
            elim (Bool-cases (str_eq fuel "BENZINA")) [
              | inl a ↦ taken IsNeeded (rw a at h2) refl
              | inr a ↦ let h1 = rw a at h2 in no_branch IsNeeded id h1
            ]
      ]
]

pub methodology_for-known :
    (id : String)
    → (true && true && true && mem (PurchasedGoods.methodology_for id) allowed_methodologies) ≡ true
unfolding PurchasedGoods.methodology_for mem
methodology_for-known id = elim (Bool-cases (starts (codes "ECOINV_") (codes id))) [
  | inl mass ↦ rw mass refl
  | inr spend ↦ rw spend refl
]

pub times-IsNonneg :
    (share : Option Decimal) (q : Decimal)
    → IsNonnegIfAny share
    → IsNonneg q
    → IsNonnegIfAny (PurchasedGoods.times share q)
unfolding PurchasedGoods.times
times-IsNonneg none q h k = tt
times-IsNonneg (some share) q h k = scaled-IsNonneg share q h k

pub if_any-IsNonneg :
    (share : Option Decimal) (total : Decimal)
    → IsNonneg total
    → IsNonnegIfAny (PurchasedGoods.if_any share total)
unfolding PurchasedGoods.if_any
if_any-IsNonneg none total h = tt
if_any-IsNonneg (some share) total h = h
