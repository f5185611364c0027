-- ===== src/Auth/Handlers.antt =====
-- What the handlers of internal/handler/api/auth.go share, and those that need no login but Login and
-- Refresh: Register, ForgotPassword and ResetPassword.
use weiyeston.Base.{
  ℕ, Bool, true, false, ◌&&◌, Option, none, some, is_some, [], ◌∷◌, ℤ, pos, Text, codes, text_eq,
  nat_eq, ◌==◌, leb, length, String, if◌then◌else◌,
}
use weiyeston.Http.{
  Env, Run, ◌>>=◌, ◌>>◌, pure, respond, or_respond, or_invalid, or_fail, require, reject, Response,
  success, failure, Bound,
}
use weiyeston.Middleware.{Value, int64}
use weiyeston.Tenant.{Tenant, user_role}
use weiyeston.Tenant.Repo.{W, create, get_by_username, get_by_phone, update_password}
use weiyeston.Auth.{Services, hash_password}
use weiyeston.Auth.Views.{
  RegisterRequest, ResetPasswordRequest, AuthData, user_dto, to_new_user_dto,
}

abbrev pub H : Type 0 → Type 0 → Type 0
H C A = W C → Run (W C) AuthData A

abbrev pub bad_request : Response AuthData
bad_request = failure 400 40001 "请求参数不合法"

abbrev pub bad_phone : Response AuthData
bad_phone = failure 400 40001 "手机号格式不正确"

abbrev pub server_error : Response AuthData
server_error = failure 500 500 "服务器内部错误"

abbrev pub unauthorized : Response AuthData
unauthorized = failure 401 401 "未授权访问"

-- The user that the middleware has put into the context.
abbrev pub current_user : {C : Type 0} → Option Value → H C ℤ
current_user (some (int64 v)) = pure v
current_user _ = respond unauthorized

abbrev pub is_digit : ℕ → Bool
is_digit c = leb 48 c && leb c 57

unfoldable pub all_digits : Text → Bool
all_digits [] = true
all_digits (c ∷ s) = is_digit c && all_digits s

-- `^1\d{10}$`.
unfoldable pub phone_pattern : Text → Bool
phone_pattern [] = false
phone_pattern (c ∷ s) = c == 49 && length s == 10 && all_digits s

abbrev optional : Text → Option Text
optional s = if s == [] then none else some s

-- The fields that Register leaves to the database are Go's zero values.
abbrev pub new_tenant : RegisterRequest → Text → Tenant
new_tenant req hash = record {
  id = pos 0;
  username = req.username;
  password_hash = hash;
  nickname = optional req.nickname;
  email = optional req.email;
  phone = optional req.phone;
  company = optional req.company;
  avatar_url = none;
  role = user_role;
  status = pos 0;
  vip_end_time = none;
  vip_level = codes "trial";
  last_login_at = none;
  deleted_at = none;
  created_at = 0;
  updated_at = 0;
}

abbrev pub preset_code : Text
preset_code = codes "888888"

module _ {C : Type 0} (s : Services C) (env : Env) where
  -- ForgotPassword answers in two ways.
  abbrev pub hint : Option Tenant → Response AuthData
  hint none = success 200 "如果该手机号已注册，验证码已发送" none
  hint (some user) = success 200 "验证码已发送，如未收到请联系管理员（预设验证码：888888）" none

  unfoldable pub forgot_password : Bound Text → H C (Unit {0})
  forgot_password body = do
    phone ← or_invalid body bad_request
    require (phone_pattern phone) bad_phone
    found ← or_fail (get_by_phone env phone) server_error
    respond (hint found)

  module _ (salt : ℕ) where
    unfoldable pub register : Bound RegisterRequest → H C (Unit {0})
    register body = do
      req ← or_invalid body bad_request
      require (phone_pattern req.phone) bad_phone
      existing ← or_fail (get_by_username env req.username) server_error
      reject (is_some existing) (failure 409 40901 "用户名已存在")
      hash ← or_respond (hash_password s salt req.password) server_error
      user ← or_fail (create env (new_tenant req hash)) (failure 500 500 "注册失败")
      respond (success 201 "注册成功，请等待管理员审核" (some (user_dto (to_new_user_dto user))))

    -- The new password of a user, for ChangePassword and ResetPassword.
    unfoldable pub set_password : ℤ → Text → String → String → H C (Unit {0})
    set_password user_id password refusal done = do
      hash ← or_respond (hash_password s salt password) server_error
      or_fail (update_password env user_id hash) (failure 500 500 refusal)
      respond (success 200 done none)

    unfoldable pub reset_password : Bound ResetPasswordRequest → H C (Unit {0})
    reset_password body = do
      req ← or_invalid body bad_request
      require (phone_pattern req.phone) bad_phone
      require (req.code == preset_code) (failure 400 40003 "验证码错误")
      found ← or_fail (get_by_phone env req.phone) server_error
      user ← or_respond found (failure 404 40401 "该手机号未注册")
      set_password user.id req.new_password "密码重置失败" "密码重置成功，请使用新密码登录"
