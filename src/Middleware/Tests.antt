-- ===== src/Middleware/Tests.antt =====
-- The theorems of the middleware at concrete requests.
use weiyeston.Base.{
  ◌≡◌, refl, Bool, true, false, Option, none, some, [], ◌∷◌, pos, Text, codes, text_eq, ◌==◌,
  text_beq,
}
use weiyeston.Http.{next, stop}
use weiyeston.Strings.{has_prefix, trim_prefix}
use weiyeston.Middleware.{Value, int64, float64, text, Context, unauthorized}
use weiyeston.Middleware.Auth.{Claims, Parsed, failed, token, Jwt, hs256, auth, admit, key_func}
use weiyeston.Middleware.Auth.Laws.{IsAuthenticated, auth-IsAuthenticated, auth-eq-stop}
use weiyeston.Middleware.Tenant.{tenant, IsTenantOf, tenant_lem}
use weiyeston.Middleware.Role.{require_role, forbidden, HasRole, require_role_lem}
use weiyeston.Middleware.Cors.{CorsConfig, cors_lem, IsAnswered}

abbrev anyone : Context
anyone = record { user_id = none; tenant_id = none; role = none }

abbrev claims : Claims
claims = record {
  sub = some (float64 (pos 7));
  tenant_id = none;
  role = some (text (codes "admin"));
}

-- A library for which one text is a token, signed under any key.
abbrev parse_one : Bool → Option Text → Parsed
parse_one true (some key) = token true (some claims)
parse_one _ _ = failed

abbrev toy_parse : (Text → Option Text) → Text → Parsed
toy_parse key_of raw = parse_one (raw == codes "good") (key_of hs256)

toy_parse-verifies :
    (key_of : Text → Option Text) (raw : Text) (valid : Bool) (c : Option Claims)
    → toy_parse key_of raw ≡ token valid c
    → (key : Text) × (key_of hs256 ≡ some key) × ((raw == codes "good") ≡ true)
toy_parse-verifies key_of raw valid c h = go (raw == codes "good") (key_of hs256) refl refl h
  where
    go :
        (b : Bool) (o : Option Text)
        → (raw == codes "good") ≡ b
        → key_of hs256 ≡ o
        → parse_one b o ≡ token valid c
        → (key : Text) × (key_of hs256 ≡ some key) × ((raw == codes "good") ≡ true)
    go true (some key) e k h = (key, k, e)
    go true none e k h = cc
    go false none e k h = cc
    go false (some key) e k h = cc

abbrev toy_jwt : Jwt
toy_jwt = record {
  alg = λ raw. hs256;
  is_signed = λ key raw. raw == codes "good";
  parse = toy_parse;
  parse_verifies = toy_parse-verifies;
}

abbrev seven : Context
seven = record {
  user_id = some (int64 (pos 7));
  tenant_id = some (int64 (pos 0));
  role = some (text (codes "admin"));
}

auth-IsAuthenticated_example :
    IsAuthenticated toy_jwt (codes "key") (codes "Bearer good") anyone seven
unfolding auth admit has_prefix trim_prefix text_beq key_func
auth-IsAuthenticated_example =
    auth-IsAuthenticated toy_jwt (codes "key") (codes "Bearer good") anyone seven refl

auth-eq-stop_example : (unauthorized.status ≡ 401) × (unauthorized.code ≡ 401) × (anyone ≡ anyone)
unfolding auth admit has_prefix trim_prefix text_beq key_func
auth-eq-stop_example =
    auth-eq-stop toy_jwt (codes "key") (codes "Basic good") anyone anyone unauthorized refl

tenant_lem_example :
    (v : Value) × (tenant (codes "5") seven ≡ next tt (record seven { tenant_id = some v }))
    × IsTenantOf (codes "5") seven v
tenant_lem_example = tenant_lem (codes "5") seven

require_role_lem_example :
    (HasRole (codes "admin" ∷ []) seven.role
      → require_role (codes "admin" ∷ []) seven ≡ next tt seven)
    × (¬ HasRole (codes "admin" ∷ []) seven.role
        → require_role (codes "admin" ∷ []) seven ≡ stop forbidden seven)
require_role_lem_example = require_role_lem (codes "admin" ∷ []) seven

abbrev site : CorsConfig
site = record {
  allowed_origins = codes "https://a" ∷ [];
  allowed_methods = codes "GET" ∷ [];
  allowed_headers = [];
}

cors_lem_example : IsAnswered site (codes "https://a") (codes "OPTIONS")
cors_lem_example = cors_lem site (codes "https://a") (codes "OPTIONS") λ e. absurd (cc e)
