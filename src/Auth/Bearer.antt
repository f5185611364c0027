-- ===== src/Auth/Bearer.antt =====
-- The access token of Login before internal/middleware/auth.go.
use weiyeston.Base.{
  ℕ, ◌+◌, ◌*◌, ◌/◌, ◌^◌, ◌<◌, false, some, [], ◌++◌, Text, text_eq, ◌==◌, ◌≡◌, refl, arith, find,
  All, text_beq_iff, text_beq,
}
use weiyeston.Http.{Env, next, stop, Response, bound}
use weiyeston.Keys.{All-find}
use weiyeston.Strings.{has_prefix-append, trim_prefix-append}
use weiyeston.Middleware.{Context, int64, text}
use weiyeston.Middleware.Auth.{auth, admit, bearer, key_func, hs256}
use weiyeston.Tenant.{Tenant, is_named}
use weiyeston.Tenant.Repo.{W}
use weiyeston.Auth.{Services, Draws, IsExact, access_lifetime, access_claims, generate_access_token}
use weiyeston.Auth.Views.{AuthData, LoginRequest}
use weiyeston.Auth.Session.{login, welcome}
use weiyeston.Auth.Granted.{login-IsGranted}

-- The context of a tenant's own requests.
abbrev pub own_context : Tenant → Context
own_context user = record {
  user_id = some (int64 user.id);
  tenant_id = some (int64 user.id);
  role = some (text user.role);
}

key_func-hs256 : (secret : Text) → key_func secret hs256 ≡ some secret
unfolding key_func text_beq
key_func-hs256 secret = refl

module _ {C : Type 0} (s : Services C) where
  generate-auth :
      (now later : ℕ) (jti access : Text) (user : Tenant) (ctx : Context)
      → generate_access_token s now jti user ≡ some access
      → IsExact user.id
      → later < (now + access_lifetime s.jwt) / 10 ^ 9 * 10 ^ 9
      → auth (s.tokens.at later) s.jwt.secret (bearer ++ access) ctx ≡ next tt (own_context user)
  unfolding generate_access_token auth admit text_beq
  generate-auth now later jti access user ctx signed exact early =
      let claims = access_claims now jti s.jwt user in
      let given : (access == []) ≡ false =
        ground (
          arith,
          s.tokens.sign_nonempty s.jwt.secret claims access signed,
          text_beq_iff access [],
        ) in
      let parsed =
        s.tokens.parse-sign later s.jwt.secret claims access (key_func s.jwt.secret) signed
          (key_func-hs256 s.jwt.secret) exact exact early in
      rw (has_prefix-append bearer access, trim_prefix-append bearer access, given, parsed) refl

-- The access token that Login answers passes the Auth middleware as a Bearer token until the second in
-- which it ends, if the ids of tenants are between -2^53 and 2^53; the context then holds the tenant that logged in
-- as user and as tenant, and its role.
pub login-auth :
    {C : Type 0} (s : Services C) (env : Env) (draws : Draws) (ip : Text) (req : LoginRequest)
    (w t : W C) (r : Response AuthData) (later : ℕ) (ctx : Context)
    → login s env draws ip (bound req) w ≡ stop r t
    → r.status ≡ 200
    → All (λ user. IsExact user.id) w.tables.tenants
    → later < (env.now + access_lifetime s.jwt) / 10 ^ 9 * 10 ^ 9
    → (user : Tenant) × (access : Text) × (find (is_named req.username) w.tables.tenants
        ≡ some user)
      × (r ≡ welcome s env draws user access draws.refresh)
      × (auth (s.tokens.at later) s.jwt.secret (bearer ++ access) ctx ≡ next tt (own_context user))
login-auth s env draws ip req w t r later ctx h ok exact early =
    let g = login-IsGranted s env draws ip req w t r h ok in
    (
      g.user,
      g.access,
      g.found,
      g.answered,
      generate-auth s env.now later draws.jti g.access g.user ctx g.signed
          (All-find (λ user. IsExact user.id) (is_named req.username) w.tables.tenants g.user exact
            g.found)
          early,
    )
