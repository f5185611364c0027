-- ===== src/Auth.antt =====
-- internal/service/auth.go: passwords and tokens, over bcrypt, the jwt library and Redis, which are
-- parameters. What is drawn at random for a request is given with it.
pub mod Views
pub mod Handlers
pub mod Session
pub mod Profile
pub mod Walk
pub mod Serve
pub mod Issued
pub mod Granted
pub mod Bearer
pub mod Rotation
pub mod Password
pub mod Registered
pub mod Limit
pub mod Cycle
pub mod Toy
mod Tests
use weiyeston.Base.{
  ℕ, ◌+◌, ◌*◌, ◌/◌, ◌^◌, ◌<◌, Bool, true, Option, none, some, ◌++◌, ◌≢◌, [], ℤ, pos, pos_part,
  neg_part, Text, codes, text_eq, ltb, leb_ℤ, ltb_ℤ, get_or, length, if◌then◌else◌, ◌≡◌,
}
use weiyeston.Http.{Env, World, Run, next, ◌>>=◌, pure, statement}
use weiyeston.Strconv.{format_int}
use weiyeston.Config.{JwtConfig, get_access_expiration, get_refresh_expiration}
use weiyeston.Redis.{Redis, command}
use weiyeston.Middleware.{Value, int64, float64, text}
use weiyeston.Middleware.Auth.{Claims, Jwt, token, hs256}
use weiyeston.Tenant.{Tenant}
use weiyeston.Tenant.Repo.{W}

-- GenerateFromPassword with its salt, and CompareHashAndPassword, which accepts a hash for its password.
pub record Bcrypt : Type 0 where
  pub generate : (salt : ℕ) → Text → Option Text
  pub compare : (hash password : Text) → Bool
  pub compare-generate :
      (salt : ℕ) (password hash : Text)
      → generate salt password ≡ some hash
      → compare hash password ≡ true

-- The jwt.MapClaims of an access token. `nickname` may be nil; times are in seconds.
pub record AccessClaims : Type 0 where
  pub sub : ℤ
  pub tenant_id : ℤ
  pub role : Text
  pub nickname : Option Text
  pub iat : ℕ
  pub exp : ℕ
  pub iss : Text
  pub jti : Text

-- What a JSON decoder reads back of the claims, numbers as float64.
abbrev pub decoded : AccessClaims → Claims
decoded c = record {
  sub = some (float64 c.sub);
  tenant_id = some (float64 c.tenant_id);
  role = some (text c.role);
}

-- An id that a float64 holds exactly.
abbrev pub IsExact : ℤ → Type 0
IsExact id = (pos_part id < 2 ^ 53) × (neg_part id < 2 ^ 53)

-- The jwt library: SignedString with HS256, Parse at a time, and ParseUnverified with the claim "sub".
-- A token that was signed with a key is valid under that key until its time, and is not empty.
pub record Tokens : Type 0 where
  pub sign : (key : Text) → AccessClaims → Option Text
  pub at : ℕ → Jwt
  pub unverified_sub : Text → Option Value
  pub sign_nonempty :
      (key : Text) (c : AccessClaims) (raw : Text) → sign key c ≡ some raw → raw ≢ []
  pub parse-sign :
      (now : ℕ) (key : Text) (c : AccessClaims) (raw : Text) (key_of : Text → Option Text)
      → sign key c ≡ some raw
      → key_of hs256 ≡ some key
      → IsExact c.sub
      → IsExact c.tenant_id
      → now < c.exp * 10 ^ 9
      → (at now).parse key_of raw ≡ token true (some (decoded c))
  pub unverified-sign :
      (key : Text) (c : AccessClaims) (raw : Text)
      → sign key c ≡ some raw
      → IsExact c.sub
      → unverified_sub raw ≡ some (float64 c.sub)

pub record Services (C : Type 0) : Type 0 where
  pub redis : Redis C
  pub bcrypt : Bcrypt
  pub tokens : Tokens
  pub jwt : JwtConfig

-- The UUIDs and the salt of a request.
pub record Draws : Type 0 where
  pub salt : ℕ
  pub jti : Text
  pub refresh : Text

abbrev pub two_hours : ℤ
two_hours = pos (2 * 3600 * 10 ^ 9)

abbrev pub or_default : ℤ → ℤ → ℕ
or_default d default = if leb_ℤ d (pos 0) then pos_part default else pos_part d

-- The lifetime of an access token.
abbrev pub access_lifetime : JwtConfig → ℕ
access_lifetime j = or_default (get_access_expiration j) two_hours

abbrev pub refresh_lifetime : JwtConfig → ℕ
refresh_lifetime j = or_default (get_refresh_expiration j) (pos (7 * 24 * 3600 * 10 ^ 9))

abbrev pub refresh_key : ℤ → Text
refresh_key id = codes "refresh_token:" ++ format_int id

abbrev pub access_claims : ℕ → Text → JwtConfig → Tenant → AccessClaims
access_claims now jti j user = record {
  sub = user.id;
  tenant_id = user.id;
  role = user.role;
  nickname = user.nickname;
  iat = now / 10 ^ 9;
  exp = (now + access_lifetime j) / 10 ^ 9;
  iss = j.issuer;
  jti = jti;
}

module _ {C : Type 0} (s : Services C) where
  -- A password of more than 72 bytes has no hash.
  unfoldable pub hash_password : ℕ → Text → Option Text
  hash_password salt password =
      if ltb 72 (length password) then none else s.bcrypt.generate salt password

  unfoldable pub verify_password : (hash password : Text) → Bool
  verify_password hash password = s.bcrypt.compare hash password

  unfoldable pub generate_access_token : ℕ → Text → Tenant → Option Text
  generate_access_token now jti user = s.tokens.sign s.jwt.secret (access_claims now jti s.jwt user)

  -- SET of the token under the user's key.
  abbrev pub put_token : ℕ → Text → ℤ → C → Option (Text × C)
  put_token now uuid user_id c =
      some (uuid, s.redis.set now (refresh_key user_id) uuid (refresh_lifetime s.jwt) c)

  module _ {D : Type 0} (env : Env) where
    unfoldable pub generate_refresh_token : Text → ℤ → W C → Run (W C) D (Option Text)
    generate_refresh_token uuid user_id = command env (put_token env.now uuid user_id)

    unfoldable pub revoke_refresh_token : ℤ → W C → Run (W C) D (Option (Unit {0}))
    revoke_refresh_token user_id = command env λ c. some (tt, s.redis.del (refresh_key user_id) c)

    -- A missing key is the empty text.
    unfoldable pub get_refresh_token : ℤ → W C → Run (W C) D (Option Text)
    get_refresh_token user_id =
        command env λ c. some (get_or (s.redis.get env.now (refresh_key user_id) c) [], c)
