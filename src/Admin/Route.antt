-- ===== src/Admin/Route.antt =====
-- The routes of /api/v1/admin in internal/router/router.go: Auth, Tenant, RequireRole("admin") and
-- then the handler.
use weiyeston.Base.{some, [], ◌∷◌, Text, ◌≡◌, refl, ◌⊎◌, inl, inr, Bool}
use weiyeston.Http.{Env, next, stop, after}
use weiyeston.Http.Inversion.{Run-cases}
use weiyeston.Middleware.{Context, text}
use weiyeston.Middleware.Auth.{auth}
use weiyeston.Middleware.Auth.Laws.{IsAuthenticated, auth-IsAuthenticated}
use weiyeston.Middleware.Tenant.{tenant, tenant-precedence, precedence, header_tenant}
use weiyeston.Middleware.Role.{require_role, require_role-cases}
use weiyeston.Tenant.{admin_role}
use weiyeston.Tenant.Repo.{W}
use weiyeston.Auth.{Services}
use weiyeston.Admin.{Layouts}
use weiyeston.Admin.Serve.{AdminRequest, handle_admin}

module _ {C : Type 0} (s : Services C) (layouts : Layouts) (ilike : Text → Text → Bool)
    (env : Env) where
  -- The state that a request leaves; a middleware that aborts leaves it as it is.
  unfoldable pub role_then_handler : AdminRequest → Context → W C → W C
  role_then_handler r ctx w = elim (require_role (admin_role ∷ []) ctx) [
    | next a c ↦ after (handle_admin layouts ilike env r w)
    | stop q c ↦ w
  ]

  unfoldable pub admin_route : (header tenant_header : Text) → AdminRequest → Context → W C → W C
  admin_route header tenant_header r ctx w =
      elim (auth (s.tokens.at env.now) s.jwt.secret header ctx) [
        | next a c ↦ elim (tenant tenant_header c) [
          | next b d ↦ role_then_handler r d w
          | stop q d ↦ w
        ]
        | stop q c ↦ w
      ]

  -- The request's token is signed under the secret and names an administrator.
  pub record IsAdmin (header : Text) (ctx : Context) : Type 0 where
    pub context : Context
    pub authenticated : IsAuthenticated (s.tokens.at env.now) s.jwt.secret header ctx context
    pub role : context.role ≡ some (text admin_role)

  by_role :
      (r : AdminRequest) (ctx : Context) (w : W C)
      → (role_then_handler r ctx w ≡ w) ⊎ (ctx.role ≡ some (text admin_role))
  unfolding role_then_handler
  by_role r ctx w = elim (require_role-cases (admin_role ∷ []) ctx) [
    | inl (inl allowed) ↦ inr allowed
    | inl (inr nobody) ↦ elim nobody [ ]
    | inr e ↦ inl (rw (role_then_handler, e) refl)
  ]

-- A request to /api/v1/admin leaves the tables, Redis and the number of statements as they are, unless
-- it carries a Bearer token that is signed under the configured secret by HS256, is valid at that time
-- and names the role admin.
pub admin_route-IsAdmin :
    {C : Type 0} (s : Services C) (layouts : Layouts) (ilike : Text → Text → Bool) (env : Env)
    (header tenant_header : Text) (r : AdminRequest) (ctx : Context) (w : W C)
    → (admin_route s layouts ilike env header tenant_header r ctx w ≡ w)
      ⊎ IsAdmin s layouts ilike env header ctx
unfolding admin_route
admin_route-IsAdmin s layouts ilike env header tenant_header r ctx w =
    elim (Run-cases (auth (s.tokens.at env.now) s.jwt.secret header ctx)) [
      | inr (q, c, e) ↦ inl (rw (admin_route, e) refl)
      | inl (a, c, e) ↦
          let chosen = record c {
            tenant_id = some (precedence (header_tenant tenant_header) c.tenant_id c.user_id);
          } in
          elim (by_role s layouts ilike env r chosen w) [
            | inl same ↦ inl (rw (admin_route, e, tenant-precedence tenant_header c) same)
            | inr admin ↦ inr record {
              context = c;
              authenticated =
                  auth-IsAuthenticated (s.tokens.at env.now) s.jwt.secret header ctx c e;
              role = admin;
            }
          ]
    ]
