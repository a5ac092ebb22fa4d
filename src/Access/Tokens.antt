-- ===== src/Access/Tokens.antt =====
-- infrastructure/security/jwt.py and constants.py: the tokens that the program issues and reads. The
-- package that signs and checks them is a parameter, an interface with its documented behaviour; so
-- are the identifiers that uuid4 draws. Instants are whole seconds. A claim that a token does not have
-- is the empty text, as its readers take it; issuer and audience are not set.
use Prim.Native.String.{String}
use ghg_tool.Prelude.{ℕ, ◌+◌, ◌≡◌, refl, Bool, true, false, Option, none, some, ltb, if◌then◌else◌}
use ghg_tool.Prelude.Text.{codes, lower, codes_eq}

-- The forms of the claim `exp`; of a text, what `int` reads, if it does.
pub data ExpClaim : Type 0 where
  absent : ExpClaim
  number : ℕ → ExpClaim
  textual : Option ℕ → ExpClaim

pub record Claims : Type 0 where
  pub sub : String
  pub role : String
  pub tenant_id : String
  pub jti : String
  pub exp : ExpClaim
  pub token_type : String
  pub pre_2fa : Bool

-- What decoding a token gives, and the exceptions of `decode_token`.
pub data Decoded : Type 0 where
  claims_of : Claims → Decoded
  expired forbidden_algorithm invalid_token : Decoded

-- The package: the algorithm in a token's header, if it can be read, and the checked claims.
pub record Jwt : Type 1 where
  pub Token : Type 0
  pub encode : Claims → Token
  pub header_alg : Token → Option String
  pub decode : Token → (now : ℕ) → Decoded
  pub is_demo_sentinel : Token → Bool

-- An expiry that is a number and not yet past.
abbrev pub is_current : ExpClaim → ℕ → Bool
is_current absent now = false
is_current (number exp) now = ltb now exp
is_current (textual read) now = false

-- A token that the program signed names the algorithm of the configuration, which is not `none`, is
-- not the demo text, and decodes to its claims until it expires.
pub record JwtLaws (j : Jwt) : Type 0 where
  pub header-encode : (c : Claims) → j.header_alg (j.encode c) ≡ some "HS256"
  pub demo-encode : (c : Claims) → j.is_demo_sentinel (j.encode c) ≡ false
  pub decode-encode :
      (c : Claims) (now : ℕ) → is_current c.exp now ≡ true → j.decode (j.encode c) now ≡ claims_of c

-- ACCESS_TOKEN_TTL_S and the refresh TTL of the default configuration
abbrev pub access_token_ttl : ℕ
access_token_ttl = 3600

abbrev pub refresh_token_ttl : ℕ
refresh_token_ttl = 604800

abbrev pub partial_token_ttl : ℕ
partial_token_ttl = 300

-- The claims of an access token; `pre_2fa` is the only extra claim that the program passes.
unfoldable pub access_claims :
    (sub role tenant_id jti : String) (pre_2fa : Bool) (now ttl_seconds : ℕ) → Claims
access_claims sub role tenant_id jti pre_2fa now ttl_seconds = record {
  sub = sub;
  role = role;
  tenant_id = tenant_id;
  jti = jti;
  exp = number (now + ttl_seconds);
  token_type = "access";
  pre_2fa = pre_2fa;
}

unfoldable pub refresh_claims : (sub tenant_id jti : String) (now : ℕ) → Claims
refresh_claims sub tenant_id jti now = record {
  sub = sub;
  role = "";
  tenant_id = tenant_id;
  jti = jti;
  exp = number (now + refresh_token_ttl);
  token_type = "refresh";
  pre_2fa = false;
}

module _ (j : Jwt) where
  unfoldable pub create_access_token :
      (sub role tenant_id jti : String) (pre_2fa : Bool) (now ttl_seconds : ℕ) → j.Token
  create_access_token sub role tenant_id jti pre_2fa now ttl_seconds =
      j.encode (access_claims sub role tenant_id jti pre_2fa now ttl_seconds)

  unfoldable pub create_refresh_token : (sub tenant_id jti : String) (now : ℕ) → j.Token
  create_refresh_token sub tenant_id jti now = j.encode (refresh_claims sub tenant_id jti now)

  abbrev past_header : Option String → Decoded → Decoded
  past_header none decoded = invalid_token
  past_header (some alg) decoded =
      if codes_eq (lower (codes alg)) (codes "none") then forbidden_algorithm else decoded

  unfoldable pub decode_token : j.Token → (now : ℕ) → Decoded
  decode_token token now =
      if j.is_demo_sentinel token
      then invalid_token
      else past_header (j.header_alg token) (j.decode token now)

-- Issued tokens are read back.
module _ (j : Jwt) (laws : JwtLaws j) where
  pub decode_token-encode :
      (c : Claims) (now : ℕ)
      → is_current c.exp now ≡ true
      → decode_token j (j.encode c) now ≡ claims_of c
  unfolding decode_token lower codes_eq
  decode_token-encode c now h =
      rw (laws.demo-encode c, laws.header-encode c, laws.decode-encode c now h) refl
