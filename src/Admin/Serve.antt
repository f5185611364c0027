-- ===== src/Admin/Serve.antt =====
-- The requests to the users' routes of internal/handler/api/admin.go.
use weiyeston.Base.{Bool, Text}
use weiyeston.Http.{Env, Bound}
use weiyeston.Admin.{H, Layouts, ListUsersRequest, UpdateUserRequest, list_users, update_user}

pub data AdminRequest : Type 0 where
  to_list : Bound ListUsersRequest → AdminRequest
  to_update : (param : Text) → Bound UpdateUserRequest → AdminRequest

module _ {C : Type 0} (layouts : Layouts) (ilike : Text → Text → Bool) where
  abbrev pub handle_admin : Env → AdminRequest → H C (Unit {0})
  handle_admin env (to_list body) = list_users env ilike body
  handle_admin env (to_update param body) = update_user env layouts param body
