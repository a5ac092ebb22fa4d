-- ===== src/Tests/Codes.antt =====
-- A user with a second factor. A password of six digits is "000000" in an even time step and "111111"
-- in an odd one.
use ghg_tool.Prelude.{
  ℕ, ◌-◌, ◌%◌, ◌≤◌, ◌≡◌, suc, refl, ap, true, false, ◌||◌, ◌==◌, ◌⊎◌, inl, inr, String, some, [],
  ◌∷◌, str_eq, eq_iff, arith, Bool-cases, if◌then◌else◌,
}
use ghg_tool.Access.Auth.{Call}
use ghg_tool.Access.Sessions.{find_jti, insert_auth_session}
use ghg_tool.Access.Tokens.{decode_token, access_claims, create_access_token, Claims}
use ghg_tool.Prelude.Text.{lower, codes_eq}
use ghg_tool.Access.Totp.{
  TotpRow, TotpWorld, Pyotp, PyotpLaws, current_totp_counter, fetch_totp_row, verify_otp_no_replay,
  mark_partial_jti_consumed,
}
use ghg_tool.Access.Totp.Challenge.{challenge, enrolling, run, issue_pair}
use ghg_tool.Access.Totp.Once.{is_pair, challenge-one_token, challenge-one_step}
use ghg_tool.Access.Totp.Replay.{challenge-again, pair, partial_token}
use ghg_tool.Tests.Logins.{plain_jwt, plain_jwt-JwtLaws, call_at}

abbrev digits : (secret : String) → (step : ℕ) → String
digits secret step = if step % 2 == 0 then "000000" else "111111"

-- The step before, that of the instant and the step after.
abbrev two_digits : Pyotp
two_digits = record {
  at = digits;
  verify = λ secret otp now.
      str_eq otp (digits secret (current_totp_counter now))
      || str_eq otp (digits secret (suc (current_totp_counter now)))
      || str_eq otp (digits secret (current_totp_counter now - 1));
}

near : (step n : ℕ) → step ≤ suc n → n ≤ suc step → (step ≡ n) ⊎ ((step ≡ suc n) ⊎ (step ≡ n - 1))
near step n above below = elim (Bool-cases (step == n)) [
  | inl same ↦ inl (ground arith)
  | inr other ↦ elim (Bool-cases (step == suc n)) [
    | inl after ↦ inr (inl (ground arith))
    | inr before ↦ inr (inr (ground arith))
  ]
]

among :
    (x a b c : String)
    → (x ≡ a) ⊎ ((x ≡ b) ⊎ (x ≡ c))
    → (str_eq x a || str_eq x b || str_eq x c) ≡ true
among x a b c (inl first) = ground (arith, (eq_iff x a).1 first)
among x a b c (inr (inl second)) = ground (arith, (eq_iff x b).1 second)
among x a b c (inr (inr third)) = ground (arith, (eq_iff x c).1 third)

digits-near :
    (secret : String) (step n : ℕ)
    → (step ≡ n) ⊎ ((step ≡ suc n) ⊎ (step ≡ n - 1))
    → (digits secret step ≡ digits secret n)
      ⊎ ((digits secret step ≡ digits secret (suc n))
          ⊎ (digits secret step ≡ digits secret (n - 1)))
digits-near secret step n (inl same) = inl (ap (digits secret) same)
digits-near secret step n (inr (inl after)) = inr (inl (ap (digits secret) after))
digits-near secret step n (inr (inr before)) = inr (inr (ap (digits secret) before))

two_digits-PyotpLaws : PyotpLaws two_digits
two_digits-PyotpLaws = record {
  verify-at = λ secret step now above below.
      among _ _ _ _ (digits-near secret step _ (near step (current_totp_counter now) above below));
}

abbrev row : TotpRow
row = record {
  id = "u1";
  totp_secret = some "JBSWY3DPEHPK3PXP";
  totp_enabled = true;
  totp_enrolled_at = some 100;
  totp_last_counter = 5;
}

abbrev world : TotpWorld
world = record { users = row ∷ []; consumed = []; sessions = []; caches = λ worker. [] }

-- In the steps 40 and 41.
abbrev first_call : Call
first_call = call_at 1210 "s1" "t1" "r1"

abbrev second_call : Call
second_call = call_at 1235 "s2" "t2" "r2"

abbrev partial : String → Claims
partial jti = partial_token plain_jwt "u1" "editor" "n1" jti 1200

challenge-again_example :
    ((challenge two_digits plain_jwt world first_call 0 (partial "p1") "000000").0
      ≡ pair two_digits plain_jwt plain_jwt-JwtLaws "u1" "editor" "n1" "JBSWY3DPEHPK3PXP"
          first_call)
    × ((challenge two_digits plain_jwt
          (challenge two_digits plain_jwt world first_call 0 (partial "p1") "000000").1
          second_call
          0
          (partial "p2")
          "000000").0
        ≡ pair two_digits plain_jwt plain_jwt-JwtLaws "u1" "editor" "n1" "JBSWY3DPEHPK3PXP"
            second_call)
unfolding fetch_totp_row find_jti
challenge-again_example =
    challenge-again two_digits plain_jwt plain_jwt-JwtLaws "u1" "editor" "n1" "JBSWY3DPEHPK3PXP"
      two_digits-PyotpLaws world first_call second_call 0 "p1" "p2" 1200 1200 row (omega arith) refl
      (omega arith) (omega arith) refl refl refl refl refl refl refl refl refl refl refl

-- Between the challenges, an attempt to enroll another secret, in the same step and in the next.
abbrev late_call : Call
late_call = call_at 1225 "s2" "t2" "r2"

abbrev entered : TotpWorld
entered = (challenge two_digits plain_jwt world first_call 0 (partial "p1") "000000").1

challenge-one_step_example :
    is_pair
      (challenge two_digits plain_jwt
        (run two_digits plain_jwt entered
          ((late_call, enrolling "u1" "KRSXG5CTMVRXEZLU" (some "000000")) ∷ []))
        late_call
        1
        (partial "p2")
        "111111").0
    ≡ false
unfolding decode_token codes_eq lower create_access_token access_claims challenge
    mark_partial_jti_consumed fetch_totp_row verify_otp_no_replay issue_pair insert_auth_session
    find_jti
challenge-one_step_example =
    challenge-one_step two_digits plain_jwt world first_call late_call 0 1 (partial "p1")
      (partial "p2") "000000" "111111" (partial "p1") (partial "p2") refl refl refl
      ((late_call, enrolling "u1" "KRSXG5CTMVRXEZLU" (some "000000")) ∷ []) refl (omega arith)

challenge-one_token_example :
    is_pair
      (challenge two_digits plain_jwt
        (run two_digits plain_jwt entered
          ((second_call, enrolling "u1" "KRSXG5CTMVRXEZLU" (some "111111")) ∷ []))
        (call_at 1270 "s3" "t3" "r3")
        1
        (partial "p1")
        "000000").0
    ≡ false
unfolding decode_token codes_eq lower create_access_token access_claims challenge
    mark_partial_jti_consumed fetch_totp_row verify_otp_no_replay issue_pair insert_auth_session
    find_jti
challenge-one_token_example =
    challenge-one_token two_digits plain_jwt world first_call (call_at 1270 "s3" "t3" "r3") 0 1
      (partial "p1") (partial "p1") "000000" "000000" (partial "p1") (partial "p1") refl refl refl
      ((second_call, enrolling "u1" "KRSXG5CTMVRXEZLU" (some "111111")) ∷ []) refl
