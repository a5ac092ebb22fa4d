-- ===== src/Access/RateLimit/Middleware.antt =====
-- What the middleware lets through: exempt paths, and callers by the key that it reads.
use Prim.Native.String.{◌++◌ as str_append}
use ghg_tool.Prelude.{
  ℕ, ◌≤◌, ◌<◌, ◌≡◌, refl, Bool, true, false, String, Option, none, some, List, [], ◌∷◌, str_eq,
  arith, if◌then◌else◌, Bool-cases, inl, inr,
}
use ghg_tool.Prelude.Text.{Codes}
use ghg_tool.Prelude.Dict.{string_eq, lookup}
use ghg_tool.Access.RateLimit.{
  InMemorySlidingWindow, Request, Response, call_next, too_many_requests, is_allowed, is_exempt,
  drop_expired, bucket_of, admit, respond, bearer_token, claimed_sub, extract_rate_key, dispatch,
  new_counter,
}
use ghg_tool.Access.RateLimit.Window.{Call, InOrder, serve}
use ghg_tool.Access.RateLimit.Bound.{admitted, span, serve-bounded}

abbrev head : List Bool → Bool
head [] = true
head (a ∷ asked) = a

abbrev tail : List Bool → List Bool
tail [] = []
tail (a ∷ asked) = asked

InOrder-low : (m n : ℕ) (calls : List Call) → m ≤ n → InOrder n calls → InOrder m calls
InOrder-low m n [] h a = tt
InOrder-low m n (call ∷ calls) h a = (omega (arith, a.0), a.1)

-- A request and when it arrives.
abbrev pub Arrival : Type 0
Arrival = Request × ℕ

abbrev pub ArriveInOrder : ℕ → List Arrival → Type 0
ArriveInOrder last [] = Unit
ArriveInOrder last ((r, now) ∷ arrivals) = (last ≤ now) × ArriveInOrder now arrivals

module _ (unverified_sub : Codes → Option String) where
  abbrev pub dispatch_all : InMemorySlidingWindow → List Arrival → List Response
  dispatch_all c [] = []
  dispatch_all c ((r, now) ∷ arrivals) =
      let d = dispatch unverified_sub c r now in d.0 ∷ dispatch_all d.1 arrivals

  -- The calls of the counter that requests make.
  abbrev pub calls_of : List Arrival → List Call
  calls_of [] = []
  calls_of ((r, now) ∷ arrivals) =
      let rest = calls_of arrivals in
      if is_exempt r then rest else (extract_rate_key unverified_sub r, now) ∷ rest

  -- The calls of the requests that were counted and passed on.
  abbrev passed_by : Response → Call → List Call → List Call
  passed_by call_next call rest = call ∷ rest
  passed_by too_many_requests call rest = rest

  abbrev pub passed : List Arrival → List Response → List Call
  passed [] answers = []
  passed (a ∷ arrivals) [] = []
  passed ((r, now) ∷ arrivals) (answer ∷ answers) =
      let rest = passed arrivals answers in
      if is_exempt r then rest else passed_by answer (extract_rate_key unverified_sub r, now) rest

  passed_by-respond :
      (a : Bool) (call : Call) (rest : List Call)
      → passed_by (respond a) call rest ≡ (if a then call ∷ rest else rest)
  passed_by-respond true call rest = refl
  passed_by-respond false call rest = refl

  passed-dispatch_all :
      (c : InMemorySlidingWindow) (arrivals : List Arrival)
      → passed arrivals (dispatch_all c arrivals)
        ≡ admitted (calls_of arrivals) (serve c (calls_of arrivals))
  unfolding dispatch
  passed-dispatch_all c [] = refl
  passed-dispatch_all c ((r, now) ∷ arrivals) = elim (Bool-cases (is_exempt r)) [
    | inl exempt ↦ rw exempt (passed-dispatch_all c arrivals)
    | inr counted ↦
        rw
          (
            counted,
            passed-dispatch_all (is_allowed c (extract_rate_key unverified_sub r) now).1 arrivals,
          )
          (passed_by-respond (is_allowed c (extract_rate_key unverified_sub r) now).0 _ _)
  ]

  calls_of-InOrder :
      (last : ℕ) (arrivals : List Arrival)
      → ArriveInOrder last arrivals
      → InOrder last (calls_of arrivals)
  calls_of-InOrder last [] h = tt
  calls_of-InOrder last ((r, now) ∷ arrivals) h = elim (Bool-cases (is_exempt r)) [
    | inl exempt ↦
        rw exempt (InOrder-low last now (calls_of arrivals) h.0 (calls_of-InOrder now arrivals h.1))
    | inr counted ↦ rw counted (h.0, calls_of-InOrder now arrivals h.1)
  ]

  -- Each request's answer, from the answers to the calls: an exempt request makes no call and is
  -- passed on.
  abbrev pub answers : List Arrival → List Bool → List Response
  answers [] asked = []
  answers ((r, now) ∷ arrivals) asked =
      let unasked = answers arrivals asked in
      let later = answers arrivals (tail asked) in
      if is_exempt r then call_next ∷ unasked else respond (head asked) ∷ later

  -- Of the requests that are not exempt and have one rate key, the middleware passes on at most
  -- `limit` in any stretch of time as long as the window, whatever else arrives.
  pub dispatch_all-bounded :
      (window limit : ℕ) (arrivals : List Arrival)
      → ArriveInOrder 0 arrivals
      → (key : String) (now : ℕ)
      → span window now key (passed arrivals (dispatch_all (new_counter window limit) arrivals))
        ≤ limit
  dispatch_all-bounded window limit arrivals h key now =
      rw (passed-dispatch_all (new_counter window limit) arrivals)
        (serve-bounded window limit (calls_of arrivals) (calls_of-InOrder 0 arrivals h) key now)

  extract_rate_key-claimed :
      (r : Request) (token : Codes) (sub : String)
      → r.user_sub ≡ none
      → bearer_token r.authorization ≡ some token
      → unverified_sub token ≡ some sub
      → str_eq sub "" ≡ false
      → extract_rate_key unverified_sub r ≡ str_append "user:" sub
  unfolding extract_rate_key claimed_sub
  extract_rate_key-claimed r token sub unknown header claimed real = ground arith

  -- A request that names no verified user, and whose bearer token claims a subject that has no
  -- bucket yet, is passed on, however often its host has called: neither the signature of the token
  -- nor the host's own bucket is looked at.
  pub dispatch-fresh_subject :
      (c : InMemorySlidingWindow) (r : Request) (now : ℕ) (token : Codes) (sub : String)
      → 0 < c.limit
      → r.user_sub ≡ none
      → bearer_token r.authorization ≡ some token
      → unverified_sub token ≡ some sub
      → str_eq sub "" ≡ false
      → lookup (str_append "user:" sub) c.buckets ≡ none
      → (dispatch unverified_sub c r now).0 ≡ call_next
  unfolding dispatch is_allowed admit bucket_of drop_expired
  dispatch-fresh_subject c r now token sub h unknown header claimed real fresh =
      ground (arith, extract_rate_key-claimed r token sub unknown header claimed real)
