-- ===== src/Access/CurrentUser/Granted.antt =====
-- What is known of every user that the dependency lets in.
use Prim.Native.String.{◌++◌ as str_append}
use ghg_tool.Prelude.{
  ◌⊎◌, none, str_eq, Option, ℕ, ◌≡◌, refl, Bool, true, false, ◌&&◌, String, some, arith, Bool-cases,
  inl, inr,
}
use ghg_tool.Access.Redis.{RedisLike}
use ghg_tool.Access.Blacklist.{Answer, known, unavailable, is_revoked, answer_of, make_key}
use ghg_tool.Access.SessionCheck.{is_one_of}
use ghg_tool.Access.Tokens.{
  Jwt, Claims, Decoded, claims_of, expired, forbidden_algorithm, invalid_token, decode_token,
}
use ghg_tool.Access.CurrentUser.{
  CurrentUser, granted, all_roles, user_of, unless_revoked, check_user, decoded_user,
  get_current_user,
}

module _ (is_uuid : String → Bool) (j : Jwt) (r : RedisLike) where
  -- The token gave the user's claims, and they passed every check.
  pub record IsAdmitted (token : j.Token) (now : ℕ) (store : r.Store) (user : CurrentUser)
      (c : Claims) : Type 0 where
    pub decodes : decode_token j token now ≡ claims_of c
    pub role : is_one_of c.role all_roles ≡ true
    pub complete : c.pre_2fa ≡ false
    pub unrevoked :
        (str_eq c.jti "" ≡ true)
        ⊎ (r.exists (str_append "jwt:blacklist:" c.jti) now store ≡ some false)
    pub ids : (is_uuid c.sub && is_uuid c.tenant_id) ≡ true
    pub own : user ≡ record { sub = c.sub; role = c.role; tenant_id = c.tenant_id; jti = c.jti }

  user_of-granted :
      (c : Claims) (user : CurrentUser)
      → user_of is_uuid c ≡ granted user
      → ((is_uuid c.sub && is_uuid c.tenant_id) ≡ true)
        × (user ≡ record { sub = c.sub; role = c.role; tenant_id = c.tenant_id; jti = c.jti })
  unfolding user_of
  user_of-granted c user h = ground arith

  unless_revoked-granted :
      (a : Answer) (c : Claims) (user : CurrentUser)
      → unless_revoked is_uuid a c ≡ granted user
      → (a ≡ known false) × (user_of is_uuid c ≡ granted user)
  unless_revoked-granted (known true) c user h = ground arith
  unless_revoked-granted (known false) c user h = (refl, h)
  unless_revoked-granted unavailable c user h = ground arith

  answered : (o : Option Bool) → answer_of r o ≡ known false → o ≡ some false
  answered none h = ground arith
  answered (some found) h = ground arith

  unrevoked_lem :
      (jti : String) (now : ℕ) (store : r.Store)
      → is_revoked r jti now store ≡ known false
      → (str_eq jti "" ≡ true) ⊎ (r.exists (str_append "jwt:blacklist:" jti) now store ≡ some false)
  unfolding is_revoked make_key
  unrevoked_lem jti now store h = elim (Bool-cases (str_eq jti "")) [
    | inl none_given ↦ inl none_given
    | inr given ↦ inr (answered _ (rw given at h))
  ]

  check_user-granted :
      (c : Claims) (now : ℕ) (store : r.Store) (user : CurrentUser)
      → check_user is_uuid j r c now store ≡ granted user
      → (is_one_of c.role all_roles ≡ true)
        × (c.pre_2fa ≡ false)
        × (unless_revoked is_uuid (is_revoked r c.jti now store) c ≡ granted user)
  unfolding check_user
  check_user-granted c now store user h = elim (Bool-cases (is_one_of c.role all_roles)) [
    | inl fine ↦ elim (Bool-cases c.pre_2fa) [
      | inl partial ↦ ground arith
      | inr whole ↦ (fine, whole, ground arith)
    ]
    | inr alien ↦ ground arith
  ]

  admitted :
      (token : j.Token) (now : ℕ) (store : r.Store) (user : CurrentUser) (d : Decoded)
      → decode_token j token now ≡ d
      → decoded_user is_uuid j r d now store ≡ granted user
      → (c : Claims) × IsAdmitted token now store user c
  admitted token now store user (claims_of c) e h =
      let checked = check_user-granted c now store user h in
      let passed = unless_revoked-granted (is_revoked r c.jti now store) c user checked.2 in
      let given = user_of-granted c user passed.1 in
      (
        c,
        record {
          decodes = e;
          role = checked.0;
          complete = checked.1;
          unrevoked = unrevoked_lem c.jti now store passed.0;
          ids = given.0;
          own = given.1;
        },
      )
  admitted token now store user expired e h = ground arith
  admitted token now store user forbidden_algorithm e h = ground arith
  admitted token now store user invalid_token e h = ground arith

  -- Only a token that decodes lets a user in, one whose role is among the three, that is not the
  -- partial token of a login with a second factor, whose subject and tenant are UUIDs, and of whose
  -- identifier, if it has one, the store answers that it has no entry: a store that does not answer
  -- lets no token in that has an identifier. The user has the claims of the token.
  pub get_current_user-granted :
      (token : j.Token) (now : ℕ) (store : r.Store) (user : CurrentUser)
      → get_current_user is_uuid j r (some token) now store ≡ granted user
      → (c : Claims) × IsAdmitted token now store user c
  unfolding get_current_user
  get_current_user-granted token now store user h =
      admitted token now store user (decode_token j token now) refl h
