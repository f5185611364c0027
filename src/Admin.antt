-- ===== src/Admin.antt =====
-- internal/handler/api/admin.go. The three layouts of time.Parse that UpdateUser tries in turn are a
-- parameter, as is the LIKE of the search. The times of the list are not printed.
pub mod Serve
pub mod Route
mod Tests
use weiyeston.Base.{
  ℕ, ◌-◌, ◌*◌, Bool, Option, none, some, List, [], map, ℤ, pos, Text, text_eq, ◌==◌, get_or,
  wrapped, String, if◌then◌else◌,
}
use weiyeston.Http.{
  Env, Run, ◌>>=◌, ◌>>◌, respond, or_respond, or_invalid, or_fail, Response, success, failure,
  Bound,
}
use weiyeston.Strconv.{parse_int}
use weiyeston.Tenant.{Tenant}
use weiyeston.Tenant.Repo.{W, list, get_by_id, update}

-- The page and its size are from 1 on and the size at most 100, by the tags of the request.
pub record ListUsersRequest : Type 0 where
  pub page : ℕ
  pub page_size : ℕ
  pub keyword : Text
  pub status : Option ℤ

pub record UpdateUserRequest : Type 0 where
  pub status : Option ℤ
  pub role : Option Text
  pub vip_level : Option Text
  pub vip_end_time : Option Text

pub record UserItem : Type 0 where
  pub id : ℤ
  pub username : Text
  pub nickname : Text
  pub email : Text
  pub role : Text
  pub status : ℤ
  pub vip_level : Text
  pub vip_end_time : Option ℤ
  pub created_at : ℕ
  pub last_login_at : Option ℕ

pub record UserPage : Type 0 where
  pub users : List UserItem
  pub total : ℕ
  pub page : ℕ
  pub page_size : ℕ

pub record Layouts : Type 0 where
  pub rfc3339 : Text → Option ℤ
  pub datetime : Text → Option ℤ
  pub date : Text → Option ℤ

abbrev pub H : Type 0 → Type 0 → Type 0
H C A = W C → Run (W C) UserPage A

abbrev pub bad_request : String → Response UserPage
bad_request = failure 400 40001

abbrev pub server_error : String → Response UserPage
server_error = failure 500 50001

abbrev pub to_user_item : Tenant → UserItem
to_user_item t = record {
  id = t.id;
  username = t.username;
  nickname = get_or t.nickname [];
  email = get_or t.email [];
  role = t.role;
  status = t.status;
  vip_level = t.vip_level;
  vip_end_time = t.vip_end_time;
  created_at = t.created_at;
  last_login_at = t.last_login_at;
}

abbrev or_else : Option ℤ → Option ℤ → Option ℤ
or_else none b = b
or_else (some t) b = some t

unfoldable pub parse_time : Layouts → Text → Option ℤ
parse_time layouts s = or_else (layouts.rfc3339 s) (or_else (layouts.datetime s) (layouts.date s))

-- `none` is a time that no layout reads. A missing or empty one leaves the old.
unfoldable pub vip_end : Layouts → Option Text → Option ℤ → Option (Option ℤ)
vip_end layouts none old = some old
vip_end layouts (some s) old = if s == [] then some old else read (parse_time layouts s)
  where
    read : Option ℤ → Option (Option ℤ)
    read none = none
    read (some t) = some (some t)

abbrev pub with_changes : UpdateUserRequest → Option ℤ → Tenant → Tenant
with_changes req end t = record t {
  status = get_or req.status t.status;
  role = get_or req.role t.role;
  vip_level = get_or req.vip_level t.vip_level;
  vip_end_time = end;
}

module _ {C : Type 0} (env : Env) where
  unfoldable pub list_users : (Text → Text → Bool) → Bound ListUsersRequest → H C (Unit {0})
  list_users ilike body = do
    req ← or_invalid body (failure 400 40002 "分页参数错误")
    found ←
        or_fail
          (list env ilike req.keyword req.status (pos req.page_size)
            (wrapped ((req.page - 1) * req.page_size)))
          (server_error "查询用户列表失败")
    respond (
        success 200 "ok" (
          some (record {
            users = map to_user_item found.0;
            total = found.1;
            page = req.page;
            page_size = req.page_size;
          })))

  unfoldable pub update_user : Layouts → Text → Bound UpdateUserRequest → H C (Unit {0})
  update_user layouts param body = do
    user_id ← or_respond (parse_int param) (bad_request "无效的用户 ID")
    req ← or_invalid body (bad_request "参数错误: ")
    found ← or_fail (get_by_id env user_id) (server_error "服务器内部错误")
    user ← or_respond found (failure 404 40401 "用户不存在")
    end ← or_respond (vip_end layouts req.vip_end_time user.vip_end_time) (bad_request "无效的时间格式")
    or_fail (update env (with_changes req end user)) (server_error "更新用户失败")
    respond (success 200 "ok" none)
