-- ===== src/Access/CurrentUser.antt =====
-- api/dependencies/auth.py: the user of a request, by its token and the blacklist; and
-- api/middleware/rbac.py, which asks for a role or a permission. Whether a text is a UUID is for the
-- package uuid, here a parameter.
pub mod Granted
use ghg_tool.Prelude.{
  ℕ, ◌≡◌, refl, arith, Bool, true, false, ◌||◌, ◌&&◌, String, Option, none, some, List, [], ◌∷◌,
  str_eq, if◌then◌else◌,
}
use ghg_tool.Access.Tokens.{
  Jwt, Claims, Decoded, claims_of, expired, forbidden_algorithm, invalid_token, decode_token,
}
use ghg_tool.Access.Redis.{RedisLike}
use ghg_tool.Access.Blacklist.{Answer, known, unavailable, is_revoked}
use ghg_tool.Access.SessionCheck.{is_one_of}
use ghg_tool.Access.Rbac.{is_permitted}

pub record CurrentUser : Type 0 where
  pub sub : String
  pub role : String
  pub tenant_id : String
  pub jti : String

-- The user, or 401, 403, 503.
pub data Access (A : Type 0) : Type 0 where
  granted : A → Access A
  unauthorized forbidden service_unavailable : Access A

abbrev pub all_roles : List String
all_roles = "editor" ∷ "admin" ∷ "viewer" ∷ []

module _ (is_uuid : String → Bool) where
  -- The checks of the model's fields, then the user.
  unfoldable pub user_of : Claims → Access CurrentUser
  user_of c =
      if is_uuid c.sub && is_uuid c.tenant_id
      then granted (record { sub = c.sub; role = c.role; tenant_id = c.tenant_id; jti = c.jti })
      else unauthorized

  abbrev unless_revoked : Answer → Claims → Access CurrentUser
  unless_revoked unavailable c = service_unavailable
  unless_revoked (known true) c = unauthorized
  unless_revoked (known false) c = user_of c

  module _ (j : Jwt) (r : RedisLike) where
    -- The checks on claims that decoded, in their order. No identifier: the blacklist is not asked.
    unfoldable pub check_user : Claims → (now : ℕ) → r.Store → Access CurrentUser
    check_user c now store =
        if is_one_of c.role all_roles
        then if c.pre_2fa then unauthorized else unless_revoked (is_revoked r c.jti now store) c
        else unauthorized

    abbrev decoded_user : Decoded → (now : ℕ) → r.Store → Access CurrentUser
    decoded_user (claims_of c) now store = check_user c now store
    decoded_user expired now store = unauthorized
    decoded_user forbidden_algorithm now store = unauthorized
    decoded_user invalid_token now store = unauthorized

    unfoldable pub get_current_user : Option j.Token → (now : ℕ) → r.Store → Access CurrentUser
    get_current_user none now store = unauthorized
    get_current_user (some token) now store = decoded_user (decode_token j token now) now store

module _ (is_uuid : String → Bool) (j : Jwt) (r : RedisLike) (token : j.Token) (c : Claims)
    (now : ℕ) (store : r.Store) (decodes : decode_token j token now ≡ claims_of c) where
  pub get_current_user-revoked :
      is_revoked r c.jti now store ≡ known true
      → get_current_user is_uuid j r (some token) now store ≡ unauthorized
  unfolding get_current_user check_user
  get_current_user-revoked h = rw decodes (ground arith)

-- `require_role` and `require_permission`, on what the dependency gave
abbrev guarded : (CurrentUser → Bool) → Access CurrentUser → Access CurrentUser
guarded allows (granted user) = if allows user then granted user else forbidden
guarded allows unauthorized = unauthorized
guarded allows forbidden = forbidden
guarded allows service_unavailable = service_unavailable

unfoldable pub require_role : List String → Access CurrentUser → Access CurrentUser
require_role allowed_roles = guarded (λ (user : CurrentUser). is_one_of user.role allowed_roles)

unfoldable pub require_permission :
    (resource action : String) → Access CurrentUser → Access CurrentUser
require_permission resource action =
    guarded (λ (user : CurrentUser). is_permitted user.role resource action)
