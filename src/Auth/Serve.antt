-- ===== src/Auth/Serve.antt =====
-- The server under a series of requests to internal/handler/api/auth.go and admin.go.
use weiyeston.Base.{
  ℕ, suc, Bool, true, false, ◌&&◌, not, Option, none, some, List, [], ◌∷◌, ◌++◌, pos, Text, ◌≡◌,
  refl, sym, ◌∙◌, ap₂, map, any, All, All-append, codes, if◌then◌else◌, update_where,
}
use mathlib.Core.List.{map-append, append-nil, append_assoc}
use weiyeston.Http.{Env, after, Bound}
use weiyeston.Http.Keeps.{Keeps, Kept}
use weiyeston.Middleware.{Value}
use weiyeston.Tenant.{Tenant, TenantTables, is_live, is_named, is_role, user_role}
use weiyeston.Tenant.Repo.{W, update_live, insert_tenant, stored}
use weiyeston.Auth.{Services, Draws}
use weiyeston.Auth.Views.{
  LoginRequest, RegisterRequest, ChangePasswordRequest, ResetPasswordRequest, UpdateProfileRequest,
}
use weiyeston.Auth.Handlers.{H, new_tenant, register, forgot_password, reset_password}
use weiyeston.Auth.Session.{login, refresh, logout}
use weiyeston.Auth.Profile.{me, profile, change_profile, change_password}
use weiyeston.Auth.Walk.{
  Rank, rank, KeptByAuth, L, register-Keeps, forgot_password-Keeps, reset_password-Keeps, me-Keeps,
  profile-Keeps, change_profile-Keeps, change_password-Keeps,
}
use weiyeston.Auth.Walk.Session.{login-Keeps, refresh-Keeps, logout-Keeps}

-- A request with the client's address or the user of its context.
pub data AuthRequest : Type 0 where
  to_login : (ip : Text) → Bound LoginRequest → AuthRequest
  to_refresh : (header : Text) → Bound Text → AuthRequest
  to_register : Bound RegisterRequest → AuthRequest
  to_forgot : Bound Text → AuthRequest
  to_reset : Bound ResetPasswordRequest → AuthRequest
  to_me to_profile to_logout : Option Value → AuthRequest
  to_change_profile : Option Value → Bound UpdateProfileRequest → AuthRequest
  to_change_password : Option Value → Bound ChangePasswordRequest → AuthRequest

module _ {C : Type 0} (s : Services C) where
  abbrev pub handle : Env → Draws → AuthRequest → H C (Unit {0})
  handle env draws (to_login ip body) = login s env draws ip body
  handle env draws (to_refresh header body) = refresh s env draws header body
  handle env draws (to_register body) = register s env draws.salt body
  handle env draws (to_forgot body) = forgot_password s env body
  handle env draws (to_reset body) = reset_password s env draws.salt body
  handle env draws (to_me user) = me env user
  handle env draws (to_profile user) = profile env user
  handle env draws (to_logout user) = logout s env user
  handle env draws (to_change_profile user body) = change_profile env user body
  handle env draws (to_change_password user body) = change_password env s draws.salt user body

  pub handle-Keeps :
      (J : TenantTables → Type 0) (env : Env) (draws : Draws) (r : AuthRequest)
      → KeptByAuth J
      → Keeps (L J) (handle env draws r)
  handle-Keeps J env draws (to_login ip body) k = login-Keeps J s env k draws ip body
  handle-Keeps J env draws (to_refresh header body) k = refresh-Keeps J s env draws header body
  handle-Keeps J env draws (to_register body) k = register-Keeps J k env s draws.salt body
  handle-Keeps J env draws (to_forgot body) k = forgot_password-Keeps J k env s body
  handle-Keeps J env draws (to_reset body) k = reset_password-Keeps J k env s draws.salt body
  handle-Keeps J env draws (to_me user) k = me-Keeps J k env user
  handle-Keeps J env draws (to_profile user) k = profile-Keeps J k env user
  handle-Keeps J env draws (to_logout user) k = logout-Keeps J s env user
  handle-Keeps J env draws (to_change_profile user body) k = change_profile-Keeps J k env user body
  handle-Keeps J env draws (to_change_password user body) k =
      change_password-Keeps J k env s draws.salt user body

  -- One request at a time, each at its time, with its failures and what is drawn for it.
  abbrev pub serve_auth : List (Env × Draws × AuthRequest) → W C → W C
  serve_auth [] w = w
  serve_auth ((env, draws, r) ∷ requests) w = serve_auth requests (after (handle env draws r w))

  serve_auth-Keeps :
      (J : TenantTables → Type 0) (requests : List (Env × Draws × AuthRequest)) (w : W C)
      → KeptByAuth J
      → L J w
      → L J (serve_auth requests w)
  serve_auth-Keeps J [] w k h = h
  serve_auth-Keeps J ((env, draws, r) ∷ requests) w k h =
      serve_auth-Keeps J requests (after (handle env draws r w)) k
        (handle-Keeps J env draws r k w h)

-- An applicant: neither an administrator nor approved, with a trial level.
abbrev pub IsApplicant : Rank → Type 0
IsApplicant r =
    (r.role ≡ user_role)
    × (r.status ≡ pos 0)
    × (r.vip_level ≡ codes "trial")
    × (r.vip_end_time ≡ none)

-- The rows that were there have the ranks that they had, and the rest are applicants.
pub record IsPromotedBy (old : List Rank) (t : TenantTables) : Type 0 where
  pub added : List Rank
  pub applicants : All IsApplicant added
  pub ranks : map rank t.tenants ≡ old ++ added

map-update_where :
    (p : Tenant → Bool) (f : Tenant → Tenant) (xs : List Tenant)
    → ((t : Tenant) → rank (f t) ≡ rank t)
    → map rank (update_where p f xs) ≡ map rank xs
unfolding update_where
map-update_where p f [] e = refl
map-update_where p f (x ∷ xs) e = ap₂ (λ y ys. y ∷ ys) (one (p x)) (map-update_where p f xs e)
  where
    one : (b : Bool) → rank (if b then f x else x) ≡ rank x
    one true = e x
    one false = refl

map-append_one :
    (xs : List Tenant) (r : Tenant) (old added : List Rank)
    → map rank xs ≡ old ++ added
    → map rank (xs ++ r ∷ []) ≡ old ++ (added ++ rank r ∷ [])
map-append_one xs r old added e =
    simp (map-append rank xs (r ∷ []), e, append_assoc old added (rank r ∷ []))

IsPromotedBy-Kept : (old : List Rank) → KeptByAuth (IsPromotedBy old)
unfolding insert_tenant update_live
IsPromotedBy-Kept old = record {
  inserts = λ now req hash t h.
      go now (new_tenant req hash) t h
        (is_role user_role && not (any (is_named req.username) t.tenants)) (refl, refl, refl, refl);
  changes = λ id f e t h. record {
    added = h.added;
    applicants = h.applicants;
    ranks = map-update_where (is_live id) f t.tenants e ∙ h.ranks;
  };
}
  where
    go :
        (now : ℕ) (a : Tenant) (t : TenantTables)
        → IsPromotedBy old t
        → (b : Bool) → IsApplicant (rank (stored now a t))
        → Kept (IsPromotedBy old) (
            if b
            then some (
              stored now a t,
              record t {
                tenants = t.tenants ++ stored now a t ∷ [];
                next_tenant = suc t.next_tenant;
              },
            )
            else none)
    go now a t h false i = tt
    go now a t h true i = record {
      added = h.added ++ rank (stored now a t) ∷ [];
      applicants = All-append IsApplicant h.added (rank (stored now a t) ∷ []) h.applicants (i, tt);
      ranks = map-append_one t.tenants (stored now a t) old h.added h.ranks;
    }

-- No series of requests to the handlers of auth.go, whoever sends them and whichever statements fail,
-- changes the name, the role, the status, the level or the end of the membership of a tenant, or
-- deletes one: the rows that were there keep these in their order, and each further row is a user
-- that waits for approval with a trial level.
pub serve_auth-IsPromotedBy :
    {C : Type 0} (s : Services C) (requests : List (Env × Draws × AuthRequest)) (w : W C)
    → IsPromotedBy (map rank w.tables.tenants) (serve_auth s requests w).tables
serve_auth-IsPromotedBy s requests w =
    serve_auth-Keeps s (IsPromotedBy (map rank w.tables.tenants)) requests w
      (IsPromotedBy-Kept (map rank w.tables.tenants))
      record { added = []; applicants = tt; ranks = sym (append-nil (map rank w.tables.tenants)) }
