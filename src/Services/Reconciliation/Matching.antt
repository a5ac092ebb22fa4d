-- ===== src/Services/Reconciliation/Matching.antt =====
-- Which rows a delta compares, and what comes of comparing a state with itself.
use mathlib.Core.Path.{subst}
use ghg_tool.Prelude.{
  ◌<◌, ◌≡◌, refl, sym, ap, ◌∙◌, Bool, true, false, Option, none, some, List, [], ◌∷◌, map, count_if,
  arith, if◌then◌else◌, All,
}
use ghg_tool.Prelude.Dict.{Dict, Eq, nat_eq, string_eq, pair_eq, lookup, update, lookup-update}
use ghg_tool.Prelude.Sort.{sort}
use ghg_tool.Decimal.{Decimal, nought, abs_dec, sum_from, divide, quotient, dec, ◌-ᵈ◌, ◌*ᵈ◌}
use ghg_tool.Decimal.Zero.{
  IsZero, -ᵈ-self, abs_dec-IsZero, *ᵈ-IsZero, quotient-IsZero, lt_dec-IsZero, le_dec-IsZero,
}
use ghg_tool.Result.{ok}
use ghg_tool.Services.Reconciliation.{
  Key, Row, ReconciliationDelta, ReconciliationResult, site_eq, or_nought, change_pct, index_from,
  by_key, union_keys, unsortable, key_le,
}
use ghg_tool.Services.Reconciliation.Deltas.{
  Settings, exceeds, above_floor, is_material, tco2e_of, delta_of, reconcile,
}
use ghg_tool.Services.Reconciliation.Tallies.{any_trips, priors, currents, reconcile-IsTallied}

abbrev pub same_key : Key → Key → Bool
same_key j k = let e : Eq Key = pair_eq in e.beq j k

-- The last row with a key.
abbrev or_else : Option Row → Option Row → Option Row
or_else none other = other
or_else (some row) other = some row

or_else-pick :
    (o : Option Row) (b : Bool) (row : Row) (rest : Option Row)
    → or_else o (if b then some row else rest)
      ≡ or_else (or_else o (if b then some row else none)) rest
or_else-pick none true row rest = refl
or_else-pick none false row rest = refl
or_else-pick (some r) b row rest = refl

or_else-none : (o : Option Row) → or_else o none ≡ o
or_else-none none = refl
or_else-none (some row) = refl

abbrev pub last_with : Key → List Row → Option Row
last_with k [] = none
last_with k (row ∷ rows) =
    or_else (last_with k rows) (if same_key row.key k then some row else none)

index_from-lookup :
    (k : Key) (d : Dict Key Row) (rows : List Row)
    → lookup k (index_from d rows) ≡ or_else (last_with k rows) (lookup k d)
unfolding index_from
index_from-lookup k d [] = refl
index_from-lookup k d (row ∷ rows) =
    index_from-lookup k (update row.key (λ old. row) d) rows
    ∙ ap (or_else (last_with k rows)) (lookup-update row.key k (λ old. row) d)
    ∙ or_else-pick (last_with k rows) (same_key row.key k) row (lookup k d)

pub by_key-last : (k : Key) (rows : List Row) → lookup k (by_key rows) ≡ last_with k rows
unfolding by_key lookup
by_key-last k rows = index_from-lookup k [] rows ∙ or_else-none (last_with k rows)

-- The delta compares the last rows of its key.
pub record ComparesLast (snapshot current : List Row) (d : ReconciliationDelta) : Type 0 where
  pub prior : d.prior_tco2e ≡ tco2e_of (last_with d.key snapshot)
  pub now : d.current_tco2e ≡ tco2e_of (last_with d.key current)
  pub difference : d.abs_delta ≡ or_nought d.current_tco2e -ᵈ or_nought d.prior_tco2e

module _ (s : Settings) (snapshot current : List Row) where
  delta_of-ComparesLast :
      (k : Key) → ComparesLast snapshot current (delta_of s (by_key snapshot) (by_key current) k)
  unfolding delta_of
  delta_of-ComparesLast k = record {
    prior = ap tco2e_of (by_key-last k snapshot);
    now = ap tco2e_of (by_key-last k current);
    difference = refl;
  }

  All-deltas :
      (ks : List Key)
      → All (ComparesLast snapshot current) (map (delta_of s (by_key snapshot) (by_key current)) ks)
  All-deltas [] = tt
  All-deltas (k ∷ ks) = (delta_of-ComparesLast k, All-deltas ks)

  -- If the keys can be ordered, a reconciliation gives a result, each of whose deltas compares the last
  -- row of its key on either side, and whose two totals are the sums of the amounts of the deltas:
  -- where several rows of one side have the same key, all but the last are left out of the deltas and
  -- of both totals.
  pub reconcile-ComparesLast :
      unsortable (union_keys (by_key snapshot) (by_key current)) ≡ false
      → (r : ReconciliationResult) × (reconcile s snapshot current ≡ ok r)
        × (r.total_prior ≡ sum_from nought (priors r.rows))
        × (r.total_current ≡ sum_from nought (currents r.rows))
        × All (ComparesLast snapshot current) r.rows
  reconcile-ComparesLast sortable =
      let given = reconcile-IsTallied s snapshot current sortable in
      (
        given.0,
        given.1,
        given.2.prior,
        given.2.current,
        subst (All (ComparesLast snapshot current)) (sym given.3)
            (All-deltas (sort key_le (union_keys (by_key snapshot) (by_key current)))),
      )

-- A delta of no size.
record IsStill (d : ReconciliationDelta) : Type 0 where
  same : d.prior_tco2e ≡ d.current_tco2e
  zero_delta : IsZero d.abs_delta
  unmaterial : d.material ≡ false

module _ (s : Settings) (floor_sign : s.materiality_tco2e.neg ≡ false)
    (floor : 0 < s.materiality_tco2e.coeff) where
  above_floor-zero : (x : Decimal) → IsZero x → above_floor s x ≡ false
  above_floor-zero x z =
      le_dec-IsZero s.materiality_tco2e (abs_dec x) floor_sign floor (abs_dec-IsZero x z)

  delta_of-IsStill : (d : Dict Key Row) (k : Key) → IsStill (delta_of s d d k)
  unfolding delta_of is_material
  delta_of-IsStill d k =
      let v = or_nought (tco2e_of (lookup k d)) in
      record {
        same = refl;
        zero_delta = -ᵈ-self v;
        unmaterial = rw (above_floor-zero (v -ᵈ v) (-ᵈ-self v)) (ground arith);
      }

  abbrev stills : Dict Key Row → List Key → List ReconciliationDelta
  stills d = map (delta_of s d d)

  stills-count :
      (d : Dict Key Row) (ks : List Key)
      → count_if (λ (e : ReconciliationDelta). e.material) (stills d ks) ≡ 0
  stills-count d [] = refl
  stills-count d (k ∷ ks) =
      rw ((delta_of-IsStill d k).unmaterial) (omega (arith, stills-count d ks))

  stills-trips : (d : Dict Key Row) (ks : List Key) → any_trips s (stills d ks) ≡ false
  stills-trips d [] = refl
  stills-trips d (k ∷ ks) =
      rw (above_floor-zero (delta_of s d d k).abs_delta (delta_of-IsStill d k).zero_delta)
        (ground (arith, stills-trips d ks))

  stills-currents :
      (d : Dict Key Row) (ks : List Key) → currents (stills d ks) ≡ priors (stills d ks)
  unfolding delta_of
  stills-currents d [] = refl
  stills-currents d (k ∷ ks) =
      ap (λ vs. or_nought (tco2e_of (lookup k d)) ∷ vs) (stills-currents d ks)

  change_pct-still :
      (t limit : Decimal) → limit.neg ≡ false → exceeds (change_pct t t) limit ≡ false
  unfolding change_pct divide
  change_pct-still t limit h = ground (
    arith,
    lt_dec-IsZero limit (abs_dec (quotient (t -ᵈ t) t *ᵈ dec 100 0)) h (
        abs_dec-IsZero (quotient (t -ᵈ t) t *ᵈ dec 100 0)
          (*ᵈ-IsZero (quotient (t -ᵈ t) t) (dec 100 0) (quotient-IsZero (t -ᵈ t) t (-ᵈ-self t)))),
  )

  -- A state reconciled with itself, as every unchanged snapshot is, has no material row and requires no
  -- restatement, where the floor is above zero and the threshold is not below it.
  pub reconcile-unchanged :
      s.materiality_pct.neg ≡ false
      → (rows : List Row) → unsortable (union_keys (by_key rows) (by_key rows)) ≡ false
      → (r : ReconciliationResult) × (reconcile s rows rows ≡ ok r)
        × (r.material_count ≡ 0)
        × (r.restatement_required ≡ false)
  reconcile-unchanged limit rows sortable =
      let given = reconcile-IsTallied s rows rows sortable in
      let d = by_key rows in
      let ks = sort key_le (union_keys d d) in
      let equal : given.0.total_current ≡ given.0.total_prior =
        given.2.current
        ∙ ap (λ ds. sum_from nought (currents ds)) given.3
        ∙ ap (sum_from nought) (stills-currents d ks)
        ∙ ap (λ ds. sum_from nought (priors ds)) (sym given.3)
        ∙ sym given.2.prior in
      (
        given.0,
        given.1,
        given.2.count
            ∙ ap (count_if (λ (e : ReconciliationDelta). e.material)) given.3
            ∙ stills-count d ks,
        given.2.restatement
            ∙ rw equal (
                rw (change_pct-still given.0.total_prior s.materiality_pct limit)
                  (ap (any_trips s) given.3 ∙ stills-trips d ks)),
      )
