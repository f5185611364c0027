-- ===== src/Middleware/Auth/Laws.antt =====
-- The requests that internal/middleware/auth.go lets through and those that it aborts.
use weiyeston.Base.{
  ◌≡◌, refl, ap₂, ◌∙◌, pos, codes, Option, true, false, none, some, ◌++◌, ℤ, Text, text_eq,
  Option-cases, inl, inr, arith, text_beq_iff,
}
use weiyeston.Http.{next, stop}
use weiyeston.Strings.{has_prefix, trim_prefix, append-trim_prefix}
use weiyeston.Middleware.{Value, int64, float64, text, Context, Aborted}
use weiyeston.Middleware.Auth.{
  Claims, Parsed, expired, failed, token, Jwt, hs256, key_func, bearer, sub_id, tenant_claim,
  role_claim, auth, admit,
}

-- The tenant and the role of a token: a number, or else 0; a text, or else user.
abbrev pub tenant_or_zero : Option Value → Value
tenant_or_zero (some (int64 v)) = int64 v
tenant_or_zero (some (float64 v)) = int64 v
tenant_or_zero _ = int64 (pos 0)

abbrev pub role_or_user : Option Value → Value
role_or_user (some (text r)) = text r
role_or_user _ = text (codes "user")

tenant_claim_lem : (claim : Option Value) → tenant_claim claim ≡ tenant_or_zero claim
tenant_claim_lem none = refl
tenant_claim_lem (some (int64 v)) = refl
tenant_claim_lem (some (float64 v)) = refl
tenant_claim_lem (some (text r)) = refl
tenant_claim_lem (some _) = refl

role_claim_lem : (claim : Option Value) → role_claim claim ≡ role_or_user claim
role_claim_lem none = refl
role_claim_lem (some (text r)) = refl
role_claim_lem (some (int64 v)) = refl
role_claim_lem (some (float64 v)) = refl
role_claim_lem (some _) = refl

-- The request carries a token signed under the secret with HS256, and the context holds its claims.
pub record IsAuthenticated (jwt : Jwt) (secret header : Text) (ctx ctx' : Context) : Type 0 where
  pub raw : Text
  pub claims : Claims
  pub id : ℤ
  pub carried : bearer ++ raw ≡ header
  pub algorithm : jwt.alg raw ≡ hs256
  pub signed : jwt.is_signed secret raw ≡ true
  pub parsed : jwt.parse (key_func secret) raw ≡ token true (some claims)
  pub subject : sub_id claims.sub ≡ some id
  pub injected : ctx' ≡ record {
    user_id = some (int64 id);
    tenant_id = some (tenant_or_zero claims.tenant_id);
    role = some (role_or_user claims.role);
  }

abbrev granted : ℤ → Claims → Context
granted id claims = record {
  user_id = some (int64 id);
  tenant_id = some (tenant_claim claims.tenant_id);
  role = some (role_claim claims.role);
}

admit-eq-next :
    (p : Parsed) (s t : Context)
    → admit p s ≡ next tt t
    → (claims : Claims) × (id : ℤ) × (p ≡ token true (some claims))
      × (sub_id claims.sub ≡ some id)
      × (t ≡ granted id claims)
unfolding admit
admit-eq-next expired s t h = cc
admit-eq-next failed s t h = cc
admit-eq-next (token false o) s t h = cc
admit-eq-next (token true none) s t h = cc
admit-eq-next (token true (some c)) s t h = elim (Option-cases (sub_id c.sub)) [
  | inl nobody ↦ let clash = rw nobody at h in cc
  | inr (id, e) ↦ let same = rw e at h in (c, id, refl, e, ground arith)
]

auth-eq-next :
    (jwt : Jwt) (secret header : Text) (ctx ctx' : Context)
    → auth jwt secret header ctx ≡ next tt ctx'
    → (has_prefix bearer header ≡ true)
      × (admit (jwt.parse (key_func secret) (trim_prefix bearer header)) ctx ≡ next tt ctx')
unfolding auth
auth-eq-next jwt secret header ctx ctx' h = ground arith

key_func-eq-some :
    (secret alg : Text) {key : Text}
    → key_func secret alg ≡ some key
    → (alg ≡ hs256) × (secret ≡ key)
unfolding key_func
key_func-eq-some secret alg h = ground (arith, text_beq_iff alg hs256)

-- A request passes only with a Bearer token that is signed under the configured secret by HS256 and
-- has a numeric subject; the context then holds the token's user, its tenant (0 if it names none) and
-- its role (user if it names none).
pub auth-IsAuthenticated :
    (jwt : Jwt) (secret header : Text) (ctx ctx' : Context)
    → auth jwt secret header ctx ≡ next tt ctx'
    → IsAuthenticated jwt secret header ctx ctx'
unfolding auth
auth-IsAuthenticated jwt secret header ctx ctx' h =
    let raw = trim_prefix bearer header in
    let (prefixed, admitted) = auth-eq-next jwt secret header ctx ctx' h in
    let (claims, id, parsed, subject, injected) =
      admit-eq-next (jwt.parse (key_func secret) raw) ctx ctx' admitted in
    let (key, allowed, signed) =
      jwt.parse_verifies (key_func secret) raw true (some claims) parsed in
    let (algorithm, same) = key_func-eq-some secret (jwt.alg raw) allowed in
    record {
      raw = raw;
      claims = claims;
      id = id;
      carried = append-trim_prefix bearer header prefixed;
      algorithm = algorithm;
      signed = rw same signed;
      parsed = parsed;
      subject = subject;
      injected =
          injected
          ∙ ap₂ (λ t r. record { user_id = some (int64 id); tenant_id = some t; role = some r })
              (tenant_claim_lem claims.tenant_id) (role_claim_lem claims.role);
    }

admit-eq-stop :
    (p : Parsed) (s t : Context) (r : Aborted)
    → admit p s ≡ stop r t
    → (r.status ≡ 401) × (r.code ≡ 401) × (t ≡ s)
unfolding admit
admit-eq-stop expired s t r h = ground arith
admit-eq-stop failed s t r h = ground arith
admit-eq-stop (token false o) s t r h = ground arith
admit-eq-stop (token true none) s t r h = ground arith
admit-eq-stop (token true (some c)) s t r h = ground arith

-- A request that does not pass is answered 401 and leaves the context as it was.
pub auth-eq-stop :
    (jwt : Jwt) (secret header : Text) (ctx ctx' : Context) (r : Aborted)
    → auth jwt secret header ctx ≡ stop r ctx'
    → (r.status ≡ 401) × (r.code ≡ 401) × (ctx' ≡ ctx)
unfolding auth
auth-eq-stop jwt secret header ctx ctx' r h =
    ground
      (arith, admit-eq-stop (jwt.parse (key_func secret) (trim_prefix bearer header)) ctx ctx' r)
