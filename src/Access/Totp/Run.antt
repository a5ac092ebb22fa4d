-- ===== src/Access/Totp/Run.antt =====
-- That a sequence of calls takes nothing back.
use ghg_tool.Prelude.{
  ℕ, ◌≡◌, refl, Bool, true, false, String, Option, none, some, List, [], ◌∷◌, leb, arith,
  Bool-cases, inl, inr, if◌then◌else◌,
}
use ghg_tool.Prelude.Every.{member}
use ghg_tool.Access.Auth.{Call}
use ghg_tool.Access.Sessions.{Sessions}
use ghg_tool.Access.Tokens.{
  Jwt, Claims, Decoded, claims_of, expired, forbidden_algorithm, invalid_token, decode_token,
}
use ghg_tool.Access.Totp.{
  TotpRow, TotpWorld, TotpReply, Pyotp, current_totp_counter, fetch_totp_row, update_totp_row,
  set_secret, set_enabled, set_disabled, secret_of, verify_otp_no_replay, enroll_row, verify_row,
  disable_row, check_row, enroll, verify, disable, not_configured, not_started, not_enabled,
  server_error, mark_partial_jti_consumed,
}
use ghg_tool.Access.Totp.Challenge.{
  TotpRequest, enrolling, verifying, disabling, challenging, opened, open_session, issue_pair,
  challenge_row, challenge_marked, challenge_exp, challenge_decoded, challenge, respond, run,
  partial_exp, set_cache,
}
use ghg_tool.Access.Totp.Grows.{UsersGrow, UsersGrow-update, UsersGrow-set_counter}

abbrev pub Grows : TotpWorld → TotpWorld → Type 0
Grows w v =
    (UsersGrow w.users v.users)
    × ((jti : String) → member jti w.consumed ≡ true → member jti v.consumed ≡ true)

stays : (w : TotpWorld) → Grows w w
stays w = (λ step id h. h, λ jti h. h)

module _ (o : Pyotp) (j : Jwt) where
  either-Grows :
      (w : TotpWorld) (test : Bool) (x y : TotpReply j × TotpWorld)
      → Grows w x.1
      → Grows w y.1
      → Grows w (if test then x else y).1
  either-Grows w true x y gx gy = gx
  either-Grows w false x y gx gy = gy

  check_row-Grows :
      (w : TotpWorld) (now : ℕ) (otp : String) (row : TotpRow) (missing : TotpReply j)
      (s : Option String) (id : String) (next : List TotpRow → TotpReply j × TotpWorld)
      → fetch_totp_row id w.users ≡ some row
      → ((rows : List TotpRow) → UsersGrow w.users rows → Grows w (next rows).1)
      → Grows w (check_row o j w now otp row missing s id next).1
  unfolding verify_otp_no_replay
  check_row-Grows w now otp row missing none id next found then_grows = stays w
  check_row-Grows w now otp row missing (some secret) id next found then_grows =
      elim (Bool-cases (o.verify secret otp now)) [
        | inr wrong ↦ rw wrong (stays w)
        | inl right ↦
            rw right (elim (Bool-cases (leb (current_totp_counter now) row.totp_last_counter)) [
              | inl used ↦ rw used (stays w)
              | inr new ↦ rw new (
                  then_grows _ (
                    UsersGrow-set_counter id (current_totp_counter now) w.users row found
                      (ground arith)))
            ])
      ]

  -- A change of a row that leaves its identifier and its counter.
  update-Grows :
      (w : TotpWorld) (sub : String) (f : TotpRow → TotpRow)
      → ((row : TotpRow) → (f row).id ≡ row.id)
      → ((row : TotpRow) → (f row).totp_last_counter ≡ row.totp_last_counter)
      → (rows : List TotpRow) → UsersGrow w.users rows
      → Grows w (record w { users = update_totp_row sub f rows })
  update-Grows w sub f kept same rows grown = (
    λ step id h.
        UsersGrow-update sub f rows kept (λ r found. ground (arith, same r)) step id
          (grown step id h),
    λ jti h. h,
  )

  set_secret-Grows :
      (w : TotpWorld) (sub secret : String) (rows : List TotpRow)
      → UsersGrow w.users rows
      → Grows w (record w { users = update_totp_row sub (set_secret secret) rows })
  set_secret-Grows w sub secret = update-Grows w sub (set_secret secret) (λ r. refl) (λ r. refl)

  enroll_row-Grows :
      (w : TotpWorld) (now : ℕ) (sub secret : String) (current : Option String)
      (found : Option TotpRow)
      → fetch_totp_row sub w.users ≡ found
      → Grows w (enroll_row o j w now sub secret current found).1
  enroll_row-Grows w now sub secret current none h =
      set_secret-Grows w sub secret w.users (λ step id h. h)
  enroll_row-Grows w now sub secret none (some row) h =
      either-Grows w row.totp_enabled _ _ (stays w)
        (set_secret-Grows w sub secret w.users (λ step id h. h))
  enroll_row-Grows w now sub secret (some otp) (some row) h =
      either-Grows w row.totp_enabled _ _
        (check_row-Grows w now otp row server_error row.totp_secret sub _ h
          (set_secret-Grows w sub secret))
        (set_secret-Grows w sub secret w.users (λ step id h. h))

  verify_row-Grows :
      (w : TotpWorld) (now : ℕ) (sub otp : String) (found : Option TotpRow)
      → fetch_totp_row sub w.users ≡ found
      → Grows w (verify_row o j w now sub otp found).1
  verify_row-Grows w now sub otp none h = stays w
  verify_row-Grows w now sub otp (some row) h =
      check_row-Grows w now otp row not_started (secret_of row) sub _ h
        (update-Grows w sub (set_enabled now) (λ r. refl) (λ r. refl))

  disable_row-Grows :
      (w : TotpWorld) (now : ℕ) (sub otp : String) (found : Option TotpRow)
      → fetch_totp_row sub w.users ≡ found
      → Grows w (disable_row o j w now sub otp found).1
  disable_row-Grows w now sub otp none h = stays w
  disable_row-Grows w now sub otp (some row) h =
      either-Grows w row.totp_enabled _ _
        (check_row-Grows w now otp row not_enabled (secret_of row) sub _ h
          (update-Grows w sub set_disabled (λ r. refl) (λ r. refl)))
        (stays w)

  opened-Grows :
      (w v : TotpWorld) (reply : TotpReply j) (rows : Option Sessions)
      → Grows w v
      → Grows w (opened o j w v reply rows).1
  opened-Grows w v reply none grown = stays w
  opened-Grows w v reply (some rows) grown = grown

  open_session-Grows :
      (w v : TotpWorld) (call : Call) (d : Decoded) (reply : TotpReply j)
      → Grows w v
      → Grows w (open_session o j w v call d reply).1
  open_session-Grows w v call (claims_of c) reply grown = opened-Grows w v reply _ grown
  open_session-Grows w v call expired reply grown = stays w
  open_session-Grows w v call forbidden_algorithm reply grown = stays w
  open_session-Grows w v call invalid_token reply grown = stays w

  issue_pair-Grows :
      (w : TotpWorld) (call : Call) (c : Claims) (rows : List TotpRow)
      → UsersGrow w.users rows
      → Grows w (issue_pair o j w call c rows).1
  unfolding issue_pair
  issue_pair-Grows w call c rows grown =
      open_session-Grows w (record w { users = rows; consumed = c.jti ∷ w.consumed }) call _ _
        (grown, λ jti h. ground arith)

  challenge_row-Grows :
      (w : TotpWorld) (call : Call) (otp : String) (c : Claims) (found : Option TotpRow)
      → fetch_totp_row c.sub w.users ≡ found
      → Grows w (challenge_row o j w call otp c found).1
  challenge_row-Grows w call otp c none h = stays w
  challenge_row-Grows w call otp c (some row) h =
      either-Grows w row.totp_enabled _ _
        (check_row-Grows w call.now otp row not_configured (secret_of row) c.sub _ h
          (issue_pair-Grows w call c))
        (stays w)

  challenge_marked-Grows :
      (w : TotpWorld) (call : Call) (otp : String) (c : Claims) (first_use : Bool)
      → Grows w (challenge_marked o j w call otp c first_use).1
  challenge_marked-Grows w call otp c false = stays w
  challenge_marked-Grows w call otp c true =
      either-Grows w (member c.jti w.consumed) _ _ (stays w)
        (challenge_row-Grows w call otp c (fetch_totp_row c.sub w.users) refl)

  challenge_exp-Grows :
      (w : TotpWorld) (call : Call) (worker : ℕ) (otp : String) (c : Claims) (exp : Option ℕ)
      → Grows w (challenge_exp o j w call worker otp c exp).1
  challenge_exp-Grows w call worker otp c none = stays w
  challenge_exp-Grows w call worker otp c (some exp) =
      let marked = mark_partial_jti_consumed c.jti exp call.now (w.caches worker) in
      challenge_marked-Grows (record w { caches = set_cache worker marked.1 w.caches }) call otp c
        marked.0

  challenge_decoded-Grows :
      (w : TotpWorld) (call : Call) (worker : ℕ) (otp : String) (d : Decoded)
      → Grows w (challenge_decoded o j w call worker otp d).1
  challenge_decoded-Grows w call worker otp (claims_of c) =
      either-Grows w c.pre_2fa _ _ (challenge_exp-Grows w call worker otp c (partial_exp c.exp))
        (stays w)
  challenge_decoded-Grows w call worker otp expired = stays w
  challenge_decoded-Grows w call worker otp forbidden_algorithm = stays w
  challenge_decoded-Grows w call worker otp invalid_token = stays w

  respond-Grows :
      (w : TotpWorld) (call : Call) (request : TotpRequest j)
      → Grows w (respond o j w call request).1
  unfolding respond enroll verify disable challenge
  respond-Grows w call (enrolling sub secret current) =
      enroll_row-Grows w call.now sub secret current _ refl
  respond-Grows w call (verifying sub otp) = verify_row-Grows w call.now sub otp _ refl
  respond-Grows w call (disabling sub otp) = disable_row-Grows w call.now sub otp _ refl
  respond-Grows w call (challenging worker token otp) =
      challenge_decoded-Grows w call worker otp (decode_token j token call.now)

  pub run-Grows :
      (w : TotpWorld) (requests : List (Call × TotpRequest j)) → Grows w (run o j w requests)
  unfolding run
  run-Grows w [] = stays w
  run-Grows w ((call, request) ∷ requests) =
      let one = respond-Grows w call request in
      let rest = run-Grows (respond o j w call request).1 requests in
      (λ step id h. rest.0 step id (one.0 step id h), λ jti h. rest.1 jti (one.1 jti h))
