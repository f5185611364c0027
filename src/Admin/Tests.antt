-- ===== src/Admin/Tests.antt =====
-- The theorems on the administration at concrete tenants.
use weiyeston.Base.{Bool, true, false, none, some, [], ◌∷◌, pos, Text, codes, ◌≡◌, ◌⊎◌}
use weiyeston.Http.{Env, bound}
use weiyeston.Middleware.{Context}
use weiyeston.Tenant.{Tenant}
use weiyeston.Tenant.Repo.{W}
use weiyeston.Redis.Memory.{Entries}
use weiyeston.Auth.Toy.{toy}
use weiyeston.Admin.{Layouts, UpdateUserRequest}
use weiyeston.Admin.Serve.{to_update}
use weiyeston.Admin.Route.{admin_route, IsAdmin, admin_route-IsAdmin}

abbrev root : Tenant
root = record {
  id = pos 1;
  username = codes "root";
  password_hash = codes "a secret";
  nickname = none;
  email = none;
  phone = none;
  company = none;
  avatar_url = none;
  role = codes "admin";
  status = pos 1;
  vip_end_time = none;
  vip_level = codes "trial";
  last_login_at = none;
  deleted_at = none;
  created_at = 1;
  updated_at = 1;
}

abbrev office : W Entries
office = record { tables = record { tenants = root ∷ []; next_tenant = 2 }; sent = 0; store = [] }

abbrev no_times : Layouts
no_times = record { rfc3339 = λ s. none; datetime = λ s. none; date = λ s. none }

abbrev is_like : Text → Text → Bool
is_like keyword s = true

abbrev now : Env
now = record { now = 5; fails = λ n. false }

abbrev approve : UpdateUserRequest
approve = record { status = some (pos 1); role = none; vip_level = none; vip_end_time = none }

abbrev nobody : Context
nobody = record { user_id = none; tenant_id = none; role = none }

admin_route-IsAdmin_example :
    (admin_route toy no_times is_like now
        (codes "Bearer x")
        []
        (to_update (codes "1") (bound approve))
        nobody
        office
      ≡ office)
    ⊎ IsAdmin toy no_times is_like now (codes "Bearer x") nobody
admin_route-IsAdmin_example =
    admin_route-IsAdmin toy no_times is_like now (codes "Bearer x") []
      (to_update (codes "1") (bound approve)) nobody office
