-- ===== src/Result/Ensures.antt =====
-- What a result satisfies if it is no error, with a rule for each way to build one, and when a loop
-- succeeds.
use mathlib.Core.Path.{subst}
use ghg_tool.Prelude.{◌≡◌, refl, ap, Bool, true, false, List, [], ◌∷◌, ◌++◌, All, All-append}
use ghg_tool.Result.{Error, Result, ok, err, raise_if, gather, extend_all, ◌>>=◌, ◌>>◌}

-- Every value returned satisfies `P`.
pub record Ensures {ℓ κ} {A : Type ℓ} (P : A → Type κ) (r : Result A) : Type (ℓ ⊔ κ) where
  pub at : (a : A) → r ≡ ok a → P a

-- The call returns.
abbrev pub IsOk {ℓ} : {A : Type ℓ} → Result A → Type 0
IsOk (ok a) = Unit
IsOk (err e) = ⊥

abbrev ok_or {ℓ} : {A : Type ℓ} → A → Result A → A
ok_or d (ok a) = a
ok_or d (err e) = d

pub ok-injective {ℓ} : {A : Type ℓ} (a b : A) → ok a ≡ ok b → a ≡ b
ok-injective a b e = ap (ok_or a) e

pub IsOk-value {ℓ} : {A : Type ℓ} (r : Result A) → IsOk r → (a : A) × (r ≡ ok a)
IsOk-value (ok a) h = (a, refl)
IsOk-value (err e) h = absurd h

module _ {ℓ κ} {A : Type ℓ} {P : A → Type κ} where
  pub Ensures-ok : (a : A) → P a → Ensures P (ok a)
  Ensures-ok a p = record { at = λ b e. subst P (ok-injective a b e) p }

  pub Ensures-err : (e : Error) → Ensures P (err e)
  Ensures-err e = record { at = λ b h. absurd (cc) }

  pub Ensures-raise_if :
      (b : Bool) (e : Error) (m : Result A)
      → (b ≡ false → Ensures P m)
      → Ensures P (raise_if b e >> m)
  Ensures-raise_if true e m h = Ensures-err e
  Ensures-raise_if false e m h = h refl

module _ {ℓ κ μ} {A : Type ℓ} {B : Type κ} {P : B → Type μ} where
  -- The rest of the block may use what the first call returned.
  pub Ensures-bind :
      (m : Result A) (f : A → Result B)
      → ((a : A) → m ≡ ok a → Ensures P (f a))
      → Ensures P (m >>= f)
  Ensures-bind (ok a) f h = h a refl
  Ensures-bind (err e) f h = Ensures-err e

-- If every round returns rows that satisfy `P`, so does the loop.
module _ {ℓ κ μ} {A : Type ℓ} {B : Type κ} {P : B → Type μ} (f : A → Result (List B)) where
  pub Ensures-gather :
      ((x : A) → Ensures (All P) (f x)) → (xs : List A) → Ensures (All P) (gather f xs)
  unfolding gather
  Ensures-gather h [] = Ensures-ok [] tt
  Ensures-gather h (x ∷ xs) =
      Ensures-bind (f x) (λ ys. gather f xs >>= λ zs. ok (ys ++ zs))
        λ ys hy.
          Ensures-bind (gather f xs) (λ zs. ok (ys ++ zs))
            λ zs hz.
              Ensures-ok (ys ++ zs)
                (All-append P ys zs ((h x).at ys hy) ((Ensures-gather h xs).at zs hz))

module _ {ℓ κ} {B : Type ℓ} (P : B → Type κ) where
  pub Ensures-extend_all :
      (ms : List (Result (List B))) → All (Ensures (All P)) ms → Ensures (All P) (extend_all ms)
  unfolding gather
  Ensures-extend_all [] h = Ensures-ok [] tt
  Ensures-extend_all (m ∷ ms) h =
      Ensures-bind m (λ ys. extend_all ms >>= λ zs. ok (ys ++ zs))
        λ ys hy.
          Ensures-bind (extend_all ms) (λ zs. ok (ys ++ zs))
            λ zs hz.
              Ensures-ok (ys ++ zs)
                (All-append P ys zs (h.0.at ys hy) ((Ensures-extend_all ms h.1).at zs hz))

module _ {ℓ κ} {A : Type ℓ} {B : Type κ} where
  pub IsOk-bind :
      (m : Result A) (f : A → Result B)
      → IsOk m
      → ((a : A) → m ≡ ok a → IsOk (f a))
      → IsOk (m >>= f)
  IsOk-bind (ok a) f h k = k a refl
  IsOk-bind (err e) f h k = h

module _ {ℓ κ} {A : Type ℓ} {B : Type κ} where
  -- The loop returns if every round does.
  pub IsOk-gather :
      (f : A → Result (List B)) (xs : List A) → All (λ x. IsOk (f x)) xs → IsOk (gather f xs)
  unfolding gather
  IsOk-gather f [] h = tt
  IsOk-gather f (x ∷ xs) h =
      IsOk-bind (f x) (λ ys. gather f xs >>= λ zs. ok (ys ++ zs)) h.0
        λ ys _. IsOk-bind (gather f xs) (λ zs. ok (ys ++ zs)) (IsOk-gather f xs h.1) λ zs _. tt
