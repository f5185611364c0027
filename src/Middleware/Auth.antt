-- ===== src/Middleware/Auth.antt =====
-- internal/middleware/auth.go.
pub mod Laws
use weiyeston.Base.{
  ℕ, ◌≡◌, refl, Bool, true, false, not, ◌||◌, Option, none, some, [], ◌∷◌, ◌++◌, ℤ, pos, Text,
  codes, text_eq, ◌==◌, arith, if◌then◌else◌, ◌⊎◌,
}
use weiyeston.Http.{
  Run, next, stop, M, ◌>>=◌, ◌>>◌, reject, require, or_respond, respond, pure, failure,
}
use weiyeston.Strings.{has_prefix, trim_prefix}
use weiyeston.Middleware.{
  Value, int64, float64, text, other, Context, Aborted, unauthorized, invalid_token,
}

-- The claims that the source reads from a jwt.MapClaims.
pub record Claims : Type 0 where
  pub sub : Option Value
  pub tenant_id : Option Value
  pub role : Option Value

-- What jwt.Parse returns: an error, or a token with its `Valid` and its claims (`none` where they are
-- no MapClaims).
pub data Parsed : Type 0 where
  expired failed : Parsed
  token : (valid : Bool) → Option Claims → Parsed

-- The jwt library. Its documentation: Parse calls the key function with the token's algorithm, and
-- returns no error only if the signature is right under the key that the function gave.
pub record Jwt : Type 0 where
  pub alg : Text → Text
  pub is_signed : (key raw : Text) → Bool
  pub parse : (Text → Option Text) → Text → Parsed
  pub parse_verifies :
      (key_of : Text → Option Text) (raw : Text) (valid : Bool) (claims : Option Claims)
      → parse key_of raw ≡ token valid claims
      → (key : Text) × (key_of (alg raw) ≡ some key) × (is_signed key raw ≡ true)

abbrev pub hs256 : Text
hs256 = codes "HS256"

-- The key function: HS256 and no other algorithm.
unfoldable pub key_func : Text → Text → Option Text
key_func secret alg = if alg == hs256 then some secret else none

abbrev pub bearer : Text
bearer = codes "Bearer "

abbrev parsed_claims : Parsed → M Context (Unit {0}) Claims
parsed_claims expired = respond (failure 401 401 "token 已过期")
parsed_claims failed = respond invalid_token
parsed_claims (token false claims) = respond invalid_token
parsed_claims (token true claims) = or_respond claims invalid_token

abbrev pub sub_id : Option Value → Option ℤ
sub_id (some (int64 v)) = some v
sub_id (some (float64 v)) = some v
sub_id _ = none

abbrev pub tenant_claim : Option Value → Value
tenant_claim (some (int64 v)) = int64 v
tenant_claim (some (float64 v)) = int64 v
tenant_claim _ = int64 (pos 0)

abbrev pub role_claim : Option Value → Value
role_claim (some (text r)) = text r
role_claim _ = text (codes "user")

abbrev inject : ℤ → Claims → Context → Run Context (Unit {0}) (Unit {0})
inject id claims ctx = next tt (record ctx {
  user_id = some (int64 id);
  tenant_id = some (tenant_claim claims.tenant_id);
  role = some (role_claim claims.role);
})

-- From the parsed token on.
unfoldable pub admit : Parsed → Context → Run Context (Unit {0}) (Unit {0})
admit parsed = do
  claims ← parsed_claims parsed
  id ← or_respond (sub_id claims.sub) invalid_token
  inject id claims

unfoldable pub auth : Jwt → Text → Text → Context → Run Context (Unit {0}) (Unit {0})
auth jwt secret header = do
  reject (header == [] || not (has_prefix bearer header)) unauthorized
  let raw = trim_prefix bearer header
  reject (raw == []) unauthorized
  admit (jwt.parse (key_func secret) raw)
