-- ===== src/Result/Trace.antt =====
-- Which rows a loop has processed: the keys of its output, in order.
use mathlib.Core.List.{map-append}
use ghg_tool.Prelude.{◌≡◌, refl, List, [], ◌∷◌, ◌++◌, map, All}
use ghg_tool.Result.{Result, ok, err, gather, extend_all, ◌>>=◌}
use ghg_tool.Result.Ensures.{Ensures, Ensures-ok, Ensures-bind}

module _ {ℓ κ} {A : Type ℓ} {B : Type κ} where
  -- The concatenation of what each element gives.
  unfoldable pub spread : (A → List B) → List A → List B
  spread f [] = []
  spread f (x ∷ xs) = f x ++ spread f xs

module _ {ℓ κ μ} {A : Type ℓ} {B : Type κ} {K : Type μ} (key : B → K) (f : A → Result (List B))
    (keys : A → List K) where
  -- If each round's rows have the keys `keys x`, the loop's have them all, in order.
  pub map-gather :
      ((x : A) → Ensures (λ ys. map key ys ≡ keys x) (f x))
      → (xs : List A) → Ensures (λ ys. map key ys ≡ spread keys xs) (gather f xs)
  unfolding gather spread
  map-gather h [] = Ensures-ok [] refl
  map-gather h (x ∷ xs) =
      Ensures-bind (f x) (λ ys. gather f xs >>= λ zs. ok (ys ++ zs))
        λ ys hy.
          Ensures-bind (gather f xs) (λ zs. ok (ys ++ zs))
            λ zs hz.
              Ensures-ok (ys ++ zs) (rw (map-append, (h x).at ys hy, (map-gather h xs).at zs hz))

module _ {B K : Type 0} (key : B → K) where
  -- The calls' rows have these keys, call by call.
  abbrev pub KeysMatch : List (List K) → List (Result (List B)) → Type 0
  KeysMatch [] [] = Unit
  KeysMatch [] (m ∷ ms) = ⊥
  KeysMatch (ks ∷ kss) [] = ⊥
  KeysMatch (ks ∷ kss) (m ∷ ms) = Ensures (λ ys. map key ys ≡ ks) m × KeysMatch kss ms

  -- All rows of successive calls have the keys of each call, one call after the other.
  pub map-extend_all :
      (kss : List (List K)) (ms : List (Result (List B)))
      → KeysMatch kss ms
      → Ensures (λ ys. map key ys ≡ spread (λ ks. ks) kss) (extend_all ms)
  unfolding gather spread
  map-extend_all [] [] h = Ensures-ok [] refl
  map-extend_all [] (m ∷ ms) h = absurd h
  map-extend_all (ks ∷ kss) [] h = absurd h
  map-extend_all (ks ∷ kss) (m ∷ ms) h =
      Ensures-bind m (λ ys. extend_all ms >>= λ zs. ok (ys ++ zs))
        λ ys hy.
          Ensures-bind (extend_all ms) (λ zs. ok (ys ++ zs))
            λ zs hz.
              Ensures-ok (ys ++ zs)
                (rw (map-append, h.0.at ys hy, (map-extend_all kss ms h.1).at zs hz))

-- A block that returned: its first call did, and so did the rest.
pub ok_of_bind {ℓ κ} :
    {A : Type ℓ} {B : Type κ} (m : Result A) (f : A → Result B) (b : B)
    → (m >>= f) ≡ ok b
    → (a : A) × (m ≡ ok a) × (f a ≡ ok b)
ok_of_bind (ok a) f b h = (a, refl, h)
ok_of_bind (err e) f b h = absurd cc

-- If the loop returns, every round did.
pub All-of_gather {ℓ κ μ} :
    {A : Type ℓ} {B : Type κ} (P : A → Type μ) (f : A → Result (List B))
    → ((x : A) (ys : List B) → f x ≡ ok ys → P x)
    → (xs : List A) (zs : List B) → gather f xs ≡ ok zs
    → All P xs
unfolding gather
All-of_gather P f h [] zs e = tt
All-of_gather P f h (x ∷ xs) zs e =
    let here = ok_of_bind (f x) (λ ys. gather f xs >>= λ ws. ok (ys ++ ws)) zs e in
    let later = ok_of_bind (gather f xs) (λ ws. ok (here.0 ++ ws)) zs here.2 in
    (h x here.0 here.1, All-of_gather P f h xs later.0 later.1)
