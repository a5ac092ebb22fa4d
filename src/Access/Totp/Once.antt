-- ===== src/Access/Totp/Once.antt =====
-- What a partial token and a password are good for: one pair of tokens, in one time step.
use ghg_tool.Prelude.{
  ℕ, ◌≤◌, ◌≡◌, refl, Bool, true, false, ◌||◌, String, Option, none, some, List, ◌∷◌, leb, eq_iff,
  arith, Bool-cases, inl, inr, if◌then◌else◌,
}
use ghg_tool.Prelude.Every.{member}
use ghg_tool.Access.Auth.{Call}
use ghg_tool.Access.Sessions.{Sessions}
use ghg_tool.Access.Tokens.{
  Jwt, Claims, Decoded, claims_of, expired, forbidden_algorithm, invalid_token, decode_token,
}
use ghg_tool.Access.Totp.{
  TotpRow, TotpWorld, TotpReply, Pyotp, current_totp_counter, fetch_totp_row, secret_of,
  verify_otp_no_replay, check_row, mark_partial_jti_consumed, tokens, not_configured,
}
use ghg_tool.Access.Totp.Challenge.{
  TotpRequest, opened, open_session, issue_pair, challenge_row, challenge_marked, challenge_exp,
  challenge, run, partial_exp, set_cache,
}
use ghg_tool.Access.Totp.Grows.{counts, is_spent, is_spent-set_counter}
use ghg_tool.Access.Totp.Run.{run-Grows}

-- The reply is a pair of tokens.
abbrev pub is_pair : {j : Jwt} → TotpReply j → Bool
is_pair (tokens access refresh) = true
is_pair reply = false

counts-lower :
    (lower step : ℕ) (found : Option TotpRow)
    → lower ≤ step
    → counts step found ≡ true
    → counts lower found ≡ true
counts-lower lower step none order h = h
counts-lower lower step (some row) order h = ground arith

module _ (o : Pyotp) (j : Jwt) where
  -- A pair was given only with the step spent and the partial token used.
  abbrev Spends : (step : ℕ) → Claims → TotpReply j × TotpWorld → Type 0
  Spends step c p =
      is_pair p.0 ≡ true
      → (is_spent step c.sub p.1.users ≡ true) × (member c.jti p.1.consumed ≡ true)

  either-Spends :
      (step : ℕ) (c : Claims) (test : Bool) (x y : TotpReply j × TotpWorld)
      → Spends step c x
      → Spends step c y
      → Spends step c (if test then x else y)
  either-Spends step c true x y sx sy = sx
  either-Spends step c false x y sx sy = sy

  module _ (step : ℕ) (c : Claims) (w : TotpWorld) where
    opened-Spends :
        (v : TotpWorld) (reply : TotpReply j) (rows : Option Sessions)
        → (is_spent step c.sub v.users ≡ true) × (member c.jti v.consumed ≡ true)
        → Spends step c (opened o j w v reply rows)
    opened-Spends v reply none spent = λ given. ground arith
    opened-Spends v reply (some rows) spent = λ given. spent

    open_session-Spends :
        (v : TotpWorld) (call : Call) (d : Decoded) (reply : TotpReply j)
        → (is_spent step c.sub v.users ≡ true) × (member c.jti v.consumed ≡ true)
        → Spends step c (open_session o j w v call d reply)
    open_session-Spends v call (claims_of a) reply spent = opened-Spends v reply _ spent
    open_session-Spends v call expired reply spent = λ given. ground arith
    open_session-Spends v call forbidden_algorithm reply spent = λ given. ground arith
    open_session-Spends v call invalid_token reply spent = λ given. ground arith

    issue_pair-Spends :
        (call : Call) (rows : List TotpRow)
        → is_spent step c.sub rows ≡ true
        → Spends step c (issue_pair o j w call c rows)
    unfolding issue_pair
    issue_pair-Spends call rows spent =
        open_session-Spends (record w { users = rows; consumed = c.jti ∷ w.consumed }) call _ _
          (spent, ground (arith, eq_iff c.jti c.jti))

  check_row-Spends :
      (w : TotpWorld) (call : Call) (otp : String) (c : Claims) (row : TotpRow) (s : Option String)
      → fetch_totp_row c.sub w.users ≡ some row
      → Spends
          (current_totp_counter call.now)
          c
          (check_row o j w call.now otp row not_configured s c.sub (issue_pair o j w call c))
  unfolding verify_otp_no_replay
  check_row-Spends w call otp c row none found = λ given. ground arith
  check_row-Spends w call otp c row (some secret) found =
      elim (Bool-cases (o.verify secret otp call.now)) [
        | inr wrong ↦ rw wrong (λ given. ground arith)
        | inl right ↦
            rw right
              (elim (Bool-cases (leb (current_totp_counter call.now) row.totp_last_counter)) [
                | inl used ↦ rw used (λ given. ground arith)
                | inr new ↦ rw new (
                    issue_pair-Spends (current_totp_counter call.now) c w call _ (
                      is_spent-set_counter c.sub (current_totp_counter call.now) w.users row found))
              ])
      ]

  challenge_row-Spends :
      (w : TotpWorld) (call : Call) (otp : String) (c : Claims) (found : Option TotpRow)
      → fetch_totp_row c.sub w.users ≡ found
      → Spends (current_totp_counter call.now) c (challenge_row o j w call otp c found)
  challenge_row-Spends w call otp c none h = λ given. ground arith
  challenge_row-Spends w call otp c (some row) h =
      either-Spends (current_totp_counter call.now) c row.totp_enabled _ _
        (check_row-Spends w call otp c row (secret_of row) h) (λ given. ground arith)

  challenge_marked-Spends :
      (w : TotpWorld) (call : Call) (otp : String) (c : Claims) (first_use : Bool)
      → Spends (current_totp_counter call.now) c (challenge_marked o j w call otp c first_use)
  challenge_marked-Spends w call otp c false = λ given. ground arith
  challenge_marked-Spends w call otp c true =
      either-Spends (current_totp_counter call.now) c (member c.jti w.consumed) _ _
        (λ given. ground arith)
        (challenge_row-Spends w call otp c (fetch_totp_row c.sub w.users) refl)

  challenge_exp-Spends :
      (w : TotpWorld) (call : Call) (worker : ℕ) (otp : String) (c : Claims) (exp : Option ℕ)
      → Spends (current_totp_counter call.now) c (challenge_exp o j w call worker otp c exp)
  challenge_exp-Spends w call worker otp c none = λ given. ground arith
  challenge_exp-Spends w call worker otp c (some exp) =
      let marked = mark_partial_jti_consumed c.jti exp call.now (w.caches worker) in
      challenge_marked-Spends (record w { caches = set_cache worker marked.1 w.caches }) call otp c
        marked.0

  challenge-Spends :
      (w : TotpWorld) (call : Call) (worker : ℕ) (token : j.Token) (otp : String) (c : Claims)
      → decode_token j token call.now ≡ claims_of c
      → Spends (current_totp_counter call.now) c (challenge o j w call worker token otp)
  unfolding challenge
  challenge-Spends w call worker token otp c h = rw h (
      either-Spends (current_totp_counter call.now) c c.pre_2fa _ _
        (challenge_exp-Spends w call worker otp c (partial_exp c.exp)) (λ given. ground arith))

  -- A used partial token, or a spent step, gives no pair.
  abbrev is_refused : Call → Claims → TotpWorld → Bool
  is_refused call c w =
      member c.jti w.consumed || is_spent (current_totp_counter call.now) c.sub w.users

  either-refused :
      (test : Bool) (x y : TotpReply j × TotpWorld)
      → is_pair x.0 ≡ false
      → is_pair y.0 ≡ false
      → is_pair (if test then x else y).0 ≡ false
  either-refused true x y rx ry = rx
  either-refused false x y rx ry = ry

  check_row-refused :
      (w : TotpWorld) (now : ℕ) (otp : String) (row : TotpRow) (s : Option String) (id : String)
      (next : List TotpRow → TotpReply j × TotpWorld)
      → leb (current_totp_counter now) row.totp_last_counter ≡ true
      → is_pair (check_row o j w now otp row not_configured s id next).0 ≡ false
  unfolding verify_otp_no_replay
  check_row-refused w now otp row none id next spent = refl
  check_row-refused w now otp row (some secret) id next spent =
      elim (Bool-cases (o.verify secret otp now)) [
        | inl right ↦ rw (right, spent) refl
        | inr wrong ↦ rw wrong refl
      ]

  challenge_row-refused :
      (w : TotpWorld) (call : Call) (otp : String) (c : Claims) (found : Option TotpRow)
      → counts (current_totp_counter call.now) found ≡ true
      → is_pair (challenge_row o j w call otp c found).0 ≡ false
  challenge_row-refused w call otp c none spent = refl
  challenge_row-refused w call otp c (some row) spent =
      either-refused row.totp_enabled _ _
        (check_row-refused w call.now otp row (secret_of row) c.sub (issue_pair o j w call c) spent)
        refl

  challenge_marked-refused :
      (w : TotpWorld) (call : Call) (otp : String) (c : Claims) (first_use : Bool)
      → is_refused call c w ≡ true
      → is_pair (challenge_marked o j w call otp c first_use).0 ≡ false
  challenge_marked-refused w call otp c false refused = refl
  challenge_marked-refused w call otp c true refused = elim (Bool-cases (member c.jti w.consumed)) [
    | inl used ↦ rw used refl
    | inr new ↦
        rw new (challenge_row-refused w call otp c (fetch_totp_row c.sub w.users) (ground arith))
  ]

  challenge_exp-refused :
      (w : TotpWorld) (call : Call) (worker : ℕ) (otp : String) (c : Claims) (exp : Option ℕ)
      → is_refused call c w ≡ true
      → is_pair (challenge_exp o j w call worker otp c exp).0 ≡ false
  challenge_exp-refused w call worker otp c none refused = refl
  challenge_exp-refused w call worker otp c (some exp) refused =
      let marked = mark_partial_jti_consumed c.jti exp call.now (w.caches worker) in
      challenge_marked-refused (record w { caches = set_cache worker marked.1 w.caches }) call otp c
        marked.0 refused

  challenge-refused :
      (w : TotpWorld) (call : Call) (worker : ℕ) (token : j.Token) (otp : String) (c : Claims)
      → decode_token j token call.now ≡ claims_of c
      → is_refused call c w ≡ true
      → is_pair (challenge o j w call worker token otp).0 ≡ false
  unfolding challenge
  challenge-refused w call worker token otp c h refused = rw h (
      either-refused c.pre_2fa _ _
        (challenge_exp-refused w call worker otp c (partial_exp c.exp) refused) refl)

  module _ (w : TotpWorld) (first second : Call) (worker other : ℕ) (token again : j.Token)
      (otp otp2 : String) (c d : Claims) (read : decode_token j token first.now ≡ claims_of c)
      (read2 : decode_token j again second.now ≡ claims_of d)
      (given : is_pair (challenge o j w first worker token otp).0 ≡ true)
      (between : List (Call × TotpRequest j)) where
    abbrev later : TotpWorld
    later = run o j (challenge o j w first worker token otp).1 between

    -- After a challenge that gave a pair of tokens, and any calls of the four routes, no challenge
    -- with a token of the same identifier gives a pair, at whatever time and to whichever worker.
    pub challenge-one_token :
        d.jti ≡ c.jti → is_pair (challenge o j later second other again otp2).0 ≡ false
    challenge-one_token same = challenge-refused later second other again otp2 d read2 (
        let used =
          (run-Grows o j (challenge o j w first worker token otp).1 between).1 c.jti
            (challenge-Spends w first worker token otp c read given).1 in
        rw same (rw used refl))

    -- After a challenge that gave a pair of tokens, and any calls of the four routes, no challenge
    -- of the same user gives a pair in the same time step of 30 seconds or an earlier one, whichever partial token and
    -- password it brings, and whichever secret has been enrolled since.
    pub challenge-one_step :
        d.sub ≡ c.sub
        → current_totp_counter second.now ≤ current_totp_counter first.now
        → is_pair (challenge o j later second other again otp2).0 ≡ false
    challenge-one_step same order = challenge-refused later second other again otp2 d read2 (
        let spent =
          (run-Grows o j (challenge o j w first worker token otp).1 between).0
            (current_totp_counter first.now) c.sub
            (challenge-Spends w first worker token otp c read given).0 in
        let low = counts-lower _ _ _ order spent in rw same (ground (arith, low)))
