-- ===== src/Services/Recalculation.antt =====
-- application/services/recalculation_policy.py: whether a change of the base year's total requires its
-- recalculation.
use ghg_tool.Prelude.{
  ℕ, ◌<◌, ◌≡◌, refl, Bool, false, String, Option, none, some, List, [], ◌∷◌, if◌then◌else◌, arith,
  Bool-cases, inl, inr,
}
use ghg_tool.Decimal.{Decimal, dec, nought, le_dec, lt_dec, eq_dec, abs_dec, divide, quotient, ◌-ᵈ◌}
use ghg_tool.Decimal.Sign.{IsNonneg, lt_dec-nought}
use ghg_tool.Decimal.Order.{divide-eq}
use ghg_tool.Decimal.Zero.{abs_dec-IsZero, -ᵈ-self, quotient-IsZero, lt_dec-IsZero}
use ghg_tool.Result.{Result, ok, err, value_error, zero_division, raise_if, ◌>>=◌, ◌>>◌}

abbrev pub recalculation_threshold : Decimal
recalculation_threshold = dec 5 2

abbrev pub base_year : ℕ
base_year = 2024

pub record RecalculationDecision : Type 0 where
  pub triggered : Bool
  pub base_year_of : ℕ
  pub old_total_tco2e : Decimal
  pub new_total_tco2e : Decimal
  pub relative_delta : Decimal
  pub threshold_pct : Decimal
  pub reason_code : Option String
  pub notify_roles : List String

-- `_relative_delta`
unfoldable pub relative_delta : (old new : Decimal) → Result Decimal
relative_delta old new =
    if eq_dec old nought
    then ok (if eq_dec new nought then nought else dec 1 0)
    else elim (divide (abs_dec (new -ᵈ old)) old) [ none ↦ err zero_division | some v ↦ ok v ]

abbrev pub decision : (old new delta : Decimal) → Option String → RecalculationDecision
decision old new delta reason_code =
    let triggered = lt_dec recalculation_threshold delta in
    record {
      triggered = triggered;
      base_year_of = base_year;
      old_total_tco2e = old;
      new_total_tco2e = new;
      relative_delta = delta;
      threshold_pct = recalculation_threshold;
      reason_code = if triggered then reason_code else none;
      notify_roles = if triggered then "admin" ∷ "editor" ∷ [] else [];
    }

unfoldable pub evaluate : (old new : Decimal) → Option String → Result RecalculationDecision
evaluate old new reason_code = do
  raise_if (lt_dec old nought) value_error
  raise_if (lt_dec new nought) value_error
  delta ← relative_delta old new
  ok (decision old new delta reason_code)

-- A total other than zero has a coefficient.
nonzero : (x : Decimal) → IsNonneg x → eq_dec x nought ≡ false → 0 < x.coeff
unfolding eq_dec le_dec
nonzero x h e = ground arith

-- The share by which the total changed, of a base that is not zero; of a zero base, none or all.
abbrev pub share_changed : (old new : Decimal) → Decimal
share_changed old new =
    if eq_dec old nought
    then if eq_dec new nought then nought else dec 1 0
    else quotient (abs_dec (new -ᵈ old)) old

-- What a decision on two totals says: it is triggered where the share that changed is above 5 %, and
-- only then names the reason and whom to notify.
pub record Decides (old new : Decimal) (reason_code : Option String) (d : RecalculationDecision)
    : Type 0 where
  pub totals : (d.old_total_tco2e ≡ old) × (d.new_total_tco2e ≡ new)
  pub share : d.relative_delta ≡ share_changed old new
  pub crossed : d.triggered ≡ lt_dec (dec 5 2) (share_changed old new)
  pub reason : d.reason_code ≡ (if d.triggered then reason_code else none)
  pub notified : d.notify_roles ≡ (if d.triggered then "admin" ∷ "editor" ∷ [] else [])

evaluate-share :
    (old new : Decimal) (reason_code : Option String)
    → IsNonneg old
    → IsNonneg new
    → evaluate old new reason_code ≡ ok (decision old new (share_changed old new) reason_code)
unfolding evaluate relative_delta
evaluate-share old new reason_code h k = elim (Bool-cases (eq_dec old nought)) [
  | inl zero ↦ rw (lt_dec-nought old h, lt_dec-nought new k, zero) refl
  | inr other ↦
      rw (lt_dec-nought old h, lt_dec-nought new k, other)
        (rw (divide-eq (abs_dec (new -ᵈ old)) old (nonzero old h other)) refl)
]

decision-Decides :
    (old new : Decimal) (reason_code : Option String)
    → Decides old new reason_code (decision old new (share_changed old new) reason_code)
decision-Decides old new reason_code = record {
  totals = (refl, refl);
  share = refl;
  crossed = refl;
  reason = refl;
  notified = refl;
}

unchanged : (total : Decimal) → lt_dec recalculation_threshold (share_changed total total) ≡ false
unchanged total = elim (Bool-cases (eq_dec total nought)) [
  | inl zero ↦ rw zero (lt_dec-IsZero recalculation_threshold nought refl refl)
  | inr other ↦ rw other (
      lt_dec-IsZero recalculation_threshold (quotient (abs_dec (total -ᵈ total)) total) refl (
        quotient-IsZero (abs_dec (total -ᵈ total)) total
          (abs_dec-IsZero (total -ᵈ total) (-ᵈ-self total))))
]

-- On totals that are not negative the policy always decides, without a division by zero: it is
-- triggered exactly where the size of the change over the old total is above 5 %, a zero total that
-- becomes another counting as a change by 100 %, and only then names the reason and the roles to
-- notify; and a total that has not changed never triggers it.
pub evaluate-decision :
    (old new : Decimal) (reason_code : Option String)
    → IsNonneg old
    → IsNonneg new
    → ((d : RecalculationDecision) × (evaluate old new reason_code ≡ ok d)
        × Decides old new reason_code d)
      × ((d : RecalculationDecision) × (evaluate old old reason_code ≡ ok d)
          × (d.triggered ≡ false))
evaluate-decision old new reason_code h k = (
  (
    decision old new (share_changed old new) reason_code,
    evaluate-share old new reason_code h k,
    decision-Decides old new reason_code,
  ),
  (
    decision old old (share_changed old old) reason_code,
    evaluate-share old old reason_code h h,
    unchanged old,
  ),
)
