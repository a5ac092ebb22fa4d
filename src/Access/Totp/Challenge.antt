-- ===== src/Access/Totp/Challenge.antt =====
-- `challenge` of api/routers/totp.py, and the sequences of calls that the workers serve. A cache is
-- of one worker; the tables are shared.
use ghg_tool.Prelude.{
  ℕ, Bool, true, false, ◌==◌, String, Option, none, some, List, [], ◌∷◌, if◌then◌else◌,
}
use ghg_tool.Prelude.Every.{member}
use ghg_tool.Access.Auth.{Call}
use ghg_tool.Access.Sessions.{Sessions, insert_auth_session}
use ghg_tool.Access.Tokens.{
  Jwt, Claims, ExpClaim, absent, number, textual, Decoded, claims_of, expired, forbidden_algorithm,
  invalid_token, decode_token, access_token_ttl, create_access_token, create_refresh_token,
}
use ghg_tool.Access.Totp.{
  TotpRow, TotpWorld, TotpReply, Pyotp, Cache, mark_partial_jti_consumed, fetch_totp_row, secret_of,
  check_row, enroll, verify, disable, tokens, not_configured, invalid_partial_token,
  not_a_partial_token, partial_token_replayed, server_error,
}

-- float(claims.get("exp", 0))
abbrev pub partial_exp : ExpClaim → Option ℕ
partial_exp absent = some 0
partial_exp (number exp) = some exp
partial_exp (textual read) = read

abbrev pub set_cache : (worker : ℕ) → Cache → ((worker : ℕ) → Cache) → (worker : ℕ) → Cache
set_cache worker cache caches k = if k == worker then cache else caches k

-- A route of the factor and what its caller sends.
module _ (j : Jwt) where
  pub data TotpRequest : Type 0 where
    enrolling : (sub secret : String) → (current_otp : Option String) → TotpRequest
    verifying : (sub otp : String) → TotpRequest
    disabling : (sub otp : String) → TotpRequest
    challenging : (worker : ℕ) (partial_token : j.Token) (otp : String) → TotpRequest

module _ (o : Pyotp) (j : Jwt) where
  -- The transaction's end: the session row was inserted, or all is rolled back.
  abbrev pub opened :
      TotpWorld → TotpWorld → TotpReply j → Option Sessions → TotpReply j × TotpWorld
  opened before w reply none = (server_error, before)
  opened before w reply (some rows) = (reply, record w { sessions = rows })

  abbrev pub open_session :
      TotpWorld → TotpWorld → Call → Decoded → TotpReply j → TotpReply j × TotpWorld
  open_session before w call (claims_of c) reply = opened before w reply (
      insert_auth_session call.session_id c.sub c.tenant_id c.jti call.client_ip call.user_agent
        w.sessions)
  open_session before w call expired reply = (server_error, before)
  open_session before w call forbidden_algorithm reply = (server_error, before)
  open_session before w call invalid_token reply = (server_error, before)

  -- The full pair of tokens, and the session row of the first.
  unfoldable pub issue_pair : TotpWorld → Call → Claims → List TotpRow → TotpReply j × TotpWorld
  issue_pair w call c rows =
      let access =
        create_access_token j c.sub c.role c.tenant_id call.access_jti false call.now
          access_token_ttl in
      open_session w (record w { users = rows; consumed = c.jti ∷ w.consumed }) call
        (decode_token j access call.now)
        (tokens access (create_refresh_token j c.sub c.tenant_id call.refresh_jti call.now))

  abbrev pub challenge_row :
      TotpWorld → Call → (otp : String) → Claims → Option TotpRow → TotpReply j × TotpWorld
  challenge_row w call otp c none = (not_configured, w)
  challenge_row w call otp c (some row) =
      if row.totp_enabled
      then check_row o j w call.now otp row not_configured (secret_of row) c.sub
          (issue_pair w call c)
      else (not_configured, w)

  -- After the worker's cache has been asked.
  abbrev pub challenge_marked :
      TotpWorld → Call → (otp : String) → Claims → (first_use : Bool) → TotpReply j × TotpWorld
  challenge_marked w call otp c false = (partial_token_replayed, w)
  challenge_marked w call otp c true =
      if member c.jti w.consumed
      then (partial_token_replayed, w)
      else challenge_row w call otp c (fetch_totp_row c.sub w.users)

  abbrev pub challenge_exp :
      TotpWorld → Call → (worker : ℕ) (otp : String) → Claims → Option ℕ → TotpReply j × TotpWorld
  challenge_exp w call worker otp c none = (server_error, w)
  challenge_exp w call worker otp c (some exp) =
      let marked = mark_partial_jti_consumed c.jti exp call.now (w.caches worker) in
      challenge_marked (record w { caches = set_cache worker marked.1 w.caches }) call otp c
        marked.0

  abbrev pub challenge_decoded :
      TotpWorld → Call → (worker : ℕ) (otp : String) → Decoded → TotpReply j × TotpWorld
  challenge_decoded w call worker otp (claims_of c) =
      if c.pre_2fa
      then challenge_exp w call worker otp c (partial_exp c.exp)
      else (not_a_partial_token, w)
  challenge_decoded w call worker otp expired = (invalid_partial_token, w)
  challenge_decoded w call worker otp forbidden_algorithm = (invalid_partial_token, w)
  challenge_decoded w call worker otp invalid_token = (invalid_partial_token, w)

  -- `challenge`
  unfoldable pub challenge :
      TotpWorld
      → Call
      → (worker : ℕ) (partial_token : j.Token) (otp : String) → TotpReply j × TotpWorld
  challenge w call worker partial_token otp =
      challenge_decoded w call worker otp (decode_token j partial_token call.now)

  unfoldable pub respond : TotpWorld → Call → TotpRequest j → TotpReply j × TotpWorld
  respond w call (enrolling sub secret current_otp) = enroll o j w call.now sub secret current_otp
  respond w call (verifying sub otp) = verify o j w call.now sub otp
  respond w call (disabling sub otp) = disable o j w call.now sub otp
  respond w call (challenging worker partial_token otp) = challenge w call worker partial_token otp

  unfoldable pub run : TotpWorld → List (Call × TotpRequest j) → TotpWorld
  run w [] = w
  run w ((call, request) ∷ requests) = run (respond w call request).1 requests
