-- ===== src/Access/Totp/Replay.antt =====
-- What becomes of a password that has been used, in the time step after.
use ghg_tool.Prelude.{
  ℕ, ◌+◌, ◌<◌, ◌≡◌, suc, refl, ap, ◌∙◌, Bool, true, false, not, String, none, some, [], ◌∷◌, keep,
  leb, ltb, str_eq, arith, eq_iff,
}
use ghg_tool.Prelude.Every.{member}
use ghg_tool.Access.Auth.{Call}
use ghg_tool.Access.Auth.Issue.{new_access, decode_token-access}
use ghg_tool.Access.Sessions.{SessionRow, find_jti, kept_agent, insert_auth_session}
use ghg_tool.Access.Tokens.{
  Jwt, JwtLaws, decode_token-encode, access_claims, partial_token_ttl, create_access_token,
  create_refresh_token,
}
use ghg_tool.Access.Totp.{
  TotpRow, TotpWorld, TotpReply, Pyotp, PyotpLaws, Cache, cached, current_totp_counter,
  fetch_totp_row, update_totp_row, set_counter, secret_of, verify_otp_no_replay,
  mark_partial_jti_consumed, tokens,
}
use ghg_tool.Access.Totp.Challenge.{issue_pair, challenge, set_cache}
use ghg_tool.Access.Totp.Grows.{fetch-update, fetch-id}

cached-keep :
    (jti : String) (test : String × ℕ → Bool) (cache : Cache)
    → cached jti cache ≡ false
    → cached jti (keep test cache) ≡ false
cached-keep jti test [] h = h
cached-keep jti test ((k, v) ∷ cache) h = ground (arith, cached-keep jti test cache)

set_cache-other :
    (jti key : String) (exp now worker : ℕ) (caches : (worker : ℕ) → Cache)
    → str_eq jti key ≡ false
    → cached key (caches worker) ≡ false
    → cached key (
        set_cache worker
          ((jti, exp) ∷ keep (λ (p : String × ℕ). not (ltb p.1 now)) (caches worker))
          caches
          worker)
      ≡ false
set_cache-other jti key exp now worker caches apart new =
    ground (arith, cached-keep key (λ p. not (ltb p.1 now)) (caches worker) new)

-- The row of the session, and the entries that a cache keeps.
abbrev session_of : Call → (sub tenant_id : String) → SessionRow
session_of call sub tenant_id = record {
  id = call.session_id;
  user_id = sub;
  tenant_id = tenant_id;
  jti = call.access_jti;
  ip_address = call.client_ip;
  user_agent = kept_agent call.user_agent;
  revoked_at = none;
  revoked_by = none;
}

abbrev live : (now : ℕ) → Cache → Cache
live now = keep (λ (p : String × ℕ). not (ltb p.1 now))

-- A partial token of the login, its identifier and its instant.
abbrev pub partial_token : (j : Jwt) → (sub role tenant_id jti : String) → (issued : ℕ) → j.Token
partial_token j sub role tenant_id jti issued =
    create_access_token j sub role tenant_id jti true issued partial_token_ttl

module _ (o : Pyotp) (j : Jwt) (laws : JwtLaws j) (sub role tenant_id secret : String) where
  abbrev pub pair : Call → TotpReply j
  pair call =
      tokens (new_access j call sub role tenant_id)
        (create_refresh_token j sub tenant_id call.refresh_jti call.now)

  abbrev after : TotpWorld → Call → (worker : ℕ) (jti : String) (issued : ℕ) → TotpWorld
  after w call worker jti issued = record {
    users = update_totp_row sub (set_counter (current_totp_counter call.now)) w.users;
    consumed = jti ∷ w.consumed;
    sessions = session_of call sub tenant_id ∷ w.sessions;
    caches =
        set_cache worker ((jti, issued + partial_token_ttl) ∷ live call.now (w.caches worker))
          w.caches;
  }

  challenge-pair :
      (w : TotpWorld) (call : Call) (worker : ℕ) (jti : String) (issued : ℕ) (otp : String)
      (row : TotpRow)
      → call.now < issued + partial_token_ttl
      → cached jti (w.caches worker) ≡ false
      → member jti w.consumed ≡ false
      → fetch_totp_row sub w.users ≡ some row
      → row.totp_enabled ≡ true
      → secret_of row ≡ some secret
      → o.verify secret otp call.now ≡ true
      → leb (current_totp_counter call.now) row.totp_last_counter ≡ false
      → find_jti call.access_jti w.sessions ≡ none
      → challenge o j w call worker (partial_token j sub role tenant_id jti issued) otp
        ≡ (pair call, after w call worker jti issued)
  unfolding challenge create_access_token access_claims mark_partial_jti_consumed
      verify_otp_no_replay issue_pair insert_auth_session
  challenge-pair w call worker jti issued otp row live_token new unused found enabled stored fits
        fresh_step fresh =
      rw
        (decode_token-encode j laws
          (access_claims sub role tenant_id jti true issued partial_token_ttl) call.now
          (ground arith))
        (rw (cached-keep jti _ (w.caches worker) new, unused, found)
          (rw (stored, enabled, fits, fresh_step)
            (rw (decode_token-access j laws call sub role tenant_id call.now (omega arith), fresh)
              refl)))

  -- The password of a time step is accepted in that step and again in the next one: two challenges of
  -- a user with it at one worker, the first in the step and the second in the one after, with two
  -- partial tokens that have neither been used nor expired, both give a pair of tokens; where the
  -- user's second factor is enabled, its counter is below the step, and the access tokens' identifiers
  -- are new.
  pub challenge-again :
      PyotpLaws o
      → (w : TotpWorld) (first second : Call) (worker : ℕ) (jti jti2 : String) (issued issued2 : ℕ)
        (row : TotpRow)
      → row.totp_last_counter < current_totp_counter first.now
      → current_totp_counter second.now ≡ suc (current_totp_counter first.now)
      → first.now < issued + partial_token_ttl
      → second.now < issued2 + partial_token_ttl
      → cached jti (w.caches worker) ≡ false
      → cached jti2 (w.caches worker) ≡ false
      → member jti w.consumed ≡ false
      → member jti2 w.consumed ≡ false
      → str_eq jti jti2 ≡ false
      → fetch_totp_row sub w.users ≡ some row
      → row.totp_enabled ≡ true
      → secret_of row ≡ some secret
      → find_jti first.access_jti w.sessions ≡ none
      → find_jti second.access_jti w.sessions ≡ none
      → str_eq first.access_jti second.access_jti ≡ false
      → let otp = o.at secret (current_totp_counter first.now) in
        let one =
          challenge o j w first worker (partial_token j sub role tenant_id jti issued) otp in
        (one.0 ≡ pair first)
        × ((challenge o j one.1 second worker
              (partial_token j sub role tenant_id jti2 issued2)
              otp).0
            ≡ pair second)
  unfolding find_jti
  challenge-again otp_laws w first second worker jti jti2 issued issued2 row below next live live2
        new new2 unused unused2 apart found enabled stored fresh fresh2 apart_access =
      let otp = o.at secret (current_totp_counter first.now) in
      let one =
        challenge-pair w first worker jti issued otp row live new unused found enabled stored
          (otp_laws.verify-at secret _ first.now (omega arith) (omega arith))
          (ground (arith, below)) fresh in
      let two =
        challenge-pair (after w first worker jti issued) second worker jti2 issued2 otp
          (set_counter (current_totp_counter first.now) row) live2
          (set_cache-other jti jti2 (issued + partial_token_ttl) first.now worker w.caches apart
            new2)
          (ground (arith, eq_iff jti jti2, eq_iff jti2 jti, unused2, apart))
          (fetch-update sub sub (set_counter (current_totp_counter first.now)) (λ r. refl) w.users
            ∙ rw found (rw (fetch-id sub w.users row found) refl))
          enabled stored
          (otp_laws.verify-at secret _ second.now (ground (arith, next)) (ground (arith, next)))
          (ground (arith, next)) (rw apart_access fresh2) in
      (ap (λ p. p.0) one, rw one (ap (λ p. p.0) two))
