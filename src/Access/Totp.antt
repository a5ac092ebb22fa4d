-- ===== src/Access/Totp.antt =====
-- api/routers/totp.py: the second factor, on the columns of ref.users that its routes read, the table
-- auth.consumed_partial_jti, each worker's cache of used tokens, and the sessions. The package pyotp,
-- which checks a password of six digits, is a parameter with its documented behaviour; a new secret is
-- drawn by the caller. A call that raises answers with the error and, as its transaction is rolled
-- back, leaves the tables, but not the cache. An expiry that is a text is taken where `int` reads it.
-- The URL of an enrolment and its picture, the audit and the log lines are left out.
pub mod Challenge
pub mod Grows
pub mod Run
pub mod Once
pub mod Replay
use ghg_tool.Prelude.{
  ℕ, ◌/◌, ◌≤◌, ◌≡◌, suc, Bool, true, false, not, ◌==◌, String, Option, none, some, List, [], ◌∷◌,
  map, keep, leb, ltb, str_eq, if◌then◌else◌,
}
use ghg_tool.Prelude.Every.{member}
use ghg_tool.Access.Auth.{Call}
use ghg_tool.Access.Sessions.{Sessions, insert_auth_session}
use ghg_tool.Access.Tokens.{
  Jwt, Claims, ExpClaim, absent, number, textual, Decoded, claims_of, expired, forbidden_algorithm,
  invalid_token, decode_token, access_token_ttl, create_access_token, create_refresh_token,
}

pub record TotpRow : Type 0 where
  pub id : String
  pub totp_secret : Option String
  pub totp_enabled : Bool
  pub totp_enrolled_at : Option ℕ
  pub totp_last_counter : ℕ

-- `_current_totp_counter`: the number of the time step of 30 seconds.
abbrev pub current_totp_counter : (now : ℕ) → ℕ
current_totp_counter now = now / 30

-- The package: the password of a secret at a time step, and the check with a window of one step.
pub record Pyotp : Type 0 where
  pub at : (secret : String) → (step : ℕ) → String
  pub verify : (secret otp : String) → (now : ℕ) → Bool

pub record PyotpLaws (o : Pyotp) : Type 0 where
  pub verify-at :
      (secret : String) (step now : ℕ)
      → step ≤ suc (current_totp_counter now)
      → current_totp_counter now ≤ suc step
      → o.verify secret (o.at secret step) now ≡ true

-- A cache's entries: the identifier of a partial token and its expiry.
abbrev pub Cache : Type 0
Cache = List (String × ℕ)

abbrev pub cached : String → Cache → Bool
cached jti [] = false
cached jti ((k, v) ∷ cache) = if str_eq k jti then true else cached jti cache

-- `_mark_partial_jti_consumed`
unfoldable pub mark_partial_jti_consumed : (jti : String) (exp now : ℕ) → Cache → Bool × Cache
mark_partial_jti_consumed jti exp now cache =
    let kept = keep (λ (p : String × ℕ). not (ltb p.1 now)) cache in
    if cached jti kept then (false, kept) else (true, (jti, exp) ∷ kept)

pub record TotpWorld : Type 0 where
  pub users : List TotpRow
  pub consumed : List String
  pub sessions : Sessions
  pub caches : (worker : ℕ) → Cache

-- `_fetch_totp_row`
unfoldable pub fetch_totp_row : String → List TotpRow → Option TotpRow
fetch_totp_row id [] = none
fetch_totp_row id (row ∷ rows) = if str_eq row.id id then some row else fetch_totp_row id rows

-- UPDATE ref.users SET ... WHERE id = :uid
unfoldable pub update_totp_row : String → (TotpRow → TotpRow) → List TotpRow → List TotpRow
update_totp_row id f = map (λ (row : TotpRow). if str_eq row.id id then f row else row)

-- An empty secret counts as none.
abbrev pub secret_of : TotpRow → Option String
secret_of row = elim row.totp_secret [
  | none ↦ none
  | some secret ↦ if str_eq secret "" then none else some secret
]

abbrev pub set_counter : ℕ → TotpRow → TotpRow
set_counter counter row = record row { totp_last_counter = counter }

abbrev pub set_secret : String → TotpRow → TotpRow
set_secret secret row = record row { totp_secret = some secret; totp_enabled = false }

abbrev pub set_enabled : (now : ℕ) → TotpRow → TotpRow
set_enabled now row = record row { totp_enabled = true; totp_enrolled_at = some now }

abbrev pub set_disabled : TotpRow → TotpRow
set_disabled row = record row { totp_enabled = false; totp_enrolled_at = none }

pub data OtpCheck : Type 0 where
  otp_accepted : List TotpRow → OtpCheck
  otp_invalid otp_already_used : OtpCheck

module _ (j : Jwt) where
  pub data TotpReply : Type 0 where
    enrolled : (secret : String) → TotpReply
    activated deactivated : TotpReply
    tokens : (access refresh : j.Token) → TotpReply
    current_otp_required invalid_otp used_otp : TotpReply
    not_started not_enabled not_configured : TotpReply
    invalid_partial_token not_a_partial_token partial_token_replayed : TotpReply
    server_error : TotpReply

module _ (o : Pyotp) where
  -- `_verify_otp_no_replay`
  unfoldable pub verify_otp_no_replay :
      (user_id secret otp : String) (last_counter now : ℕ) → List TotpRow → OtpCheck
  verify_otp_no_replay user_id secret otp last_counter now rows =
      if o.verify secret otp now
      then if leb (current_totp_counter now) last_counter
        then otp_already_used
        else otp_accepted (update_totp_row user_id (set_counter (current_totp_counter now)) rows)
      else otp_invalid

  module _ (j : Jwt) where
    -- The answer to a check, and what follows an accepted password.
    abbrev pub after_check :
        TotpWorld → (List TotpRow → TotpReply j × TotpWorld) → OtpCheck → TotpReply j × TotpWorld
    after_check w next (otp_accepted rows) = next rows
    after_check w next otp_invalid = (invalid_otp, w)
    after_check w next otp_already_used = (used_otp, w)

    -- The check against the secret of a row.
    abbrev pub check_row :
        TotpWorld
        → (now : ℕ) (otp : String) → TotpRow
        → (missing : TotpReply j) → Option String
        → (user_id : String) → (List TotpRow → TotpReply j × TotpWorld)
        → TotpReply j × TotpWorld
    check_row w now otp row missing none user_id next = (missing, w)
    check_row w now otp row missing (some secret) user_id next =
        after_check w next
          (verify_otp_no_replay user_id secret otp row.totp_last_counter now w.users)

    abbrev pub store_secret :
        TotpWorld → (sub secret : String) → List TotpRow → TotpReply j × TotpWorld
    store_secret w sub secret rows =
        (enrolled secret, record w { users = update_totp_row sub (set_secret secret) rows })

    -- Of an enabled user, whose own password is asked for; the package refuses a missing secret.
    abbrev pub enroll_again :
        TotpWorld
        → (now : ℕ) (sub secret : String) → TotpRow
        → Option String
        → TotpReply j × TotpWorld
    enroll_again w now sub secret row none = (current_otp_required, w)
    enroll_again w now sub secret row (some otp) =
        check_row w now otp row server_error row.totp_secret sub (store_secret w sub secret)

    abbrev pub enroll_row :
        TotpWorld
        → (now : ℕ) (sub secret : String) → Option String
        → Option TotpRow
        → TotpReply j × TotpWorld
    enroll_row w now sub secret current_otp none = store_secret w sub secret w.users
    enroll_row w now sub secret current_otp (some row) =
        if row.totp_enabled
        then enroll_again w now sub secret row current_otp
        else store_secret w sub secret w.users

    -- `enroll`
    unfoldable pub enroll :
        TotpWorld
        → (now : ℕ) (sub secret : String) → (current_otp : Option String) → TotpReply j × TotpWorld
    enroll w now sub secret current_otp =
        enroll_row w now sub secret current_otp (fetch_totp_row sub w.users)

    abbrev pub verify_row :
        TotpWorld → (now : ℕ) (sub otp : String) → Option TotpRow → TotpReply j × TotpWorld
    verify_row w now sub otp none = (not_started, w)
    verify_row w now sub otp (some row) =
        check_row w now otp row not_started (secret_of row) sub
          (λ rows. (activated, record w { users = update_totp_row sub (set_enabled now) rows }))

    -- `verify`
    unfoldable pub verify : TotpWorld → (now : ℕ) (sub otp : String) → TotpReply j × TotpWorld
    verify w now sub otp = verify_row w now sub otp (fetch_totp_row sub w.users)

    abbrev pub disable_row :
        TotpWorld → (now : ℕ) (sub otp : String) → Option TotpRow → TotpReply j × TotpWorld
    disable_row w now sub otp none = (not_enabled, w)
    disable_row w now sub otp (some row) =
        if row.totp_enabled
        then check_row w now otp row not_enabled (secret_of row) sub
            (λ rows. (deactivated, record w { users = update_totp_row sub set_disabled rows }))
        else (not_enabled, w)

    -- `disable`
    unfoldable pub disable : TotpWorld → (now : ℕ) (sub otp : String) → TotpReply j × TotpWorld
    disable w now sub otp = disable_row w now sub otp (fetch_totp_row sub w.users)
