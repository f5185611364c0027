-- ===== src/Auth/Profile.antt =====
-- Me, Profile, UpdateProfile and ChangePassword of internal/handler/api/auth.go.
use weiyeston.Base.{ℕ, Bool, false, ◌&&◌, not, Option, none, some, [], Text, text_eq, ◌!=◌}
use weiyeston.Http.{
  Env, ◌>>=◌, ◌>>◌, respond, or_respond, or_invalid, or_fail, require, reject, Response, success,
  failure, Bound,
}
use weiyeston.Middleware.{Value}
use weiyeston.Tenant.{Tenant}
use weiyeston.Tenant.Repo.{get_by_id, update_profile}
use weiyeston.Auth.{Services, verify_password}
use weiyeston.Auth.Views.{
  ChangePasswordRequest, UpdateProfileRequest, AuthData, user_dto, profile_dto, to_user_dto,
  to_profile_dto,
}
use weiyeston.Auth.Handlers.{
  H, bad_request, bad_phone, server_error, unauthorized, current_user, phone_pattern, set_password,
}

-- A number is wrong if it is given, not empty and no phone number.
abbrev pub is_bad_phone : Option Text → Bool
is_bad_phone none = false
is_bad_phone (some phone) = phone != [] && not (phone_pattern phone)

-- The panic of a nil user, as the recovery middleware answers it.
abbrev pub panicked : Response AuthData
panicked = failure 500 500 "服务器内部错误: "

abbrev pub or_nil : Option (Option Tenant) → Option Tenant
or_nil none = none
or_nil (some found) = found

module _ {C : Type 0} (env : Env) where
  unfoldable pub own_user : Option Value → H C Tenant
  own_user current = do
    user_id ← current_user current
    found ← or_fail (get_by_id env user_id) server_error
    or_respond found unauthorized

  unfoldable pub me : Option Value → H C (Unit {0})
  me current = do
    user ← own_user current
    respond (success 200 "ok" (some (user_dto (to_user_dto user))))

  unfoldable pub profile : Option Value → H C (Unit {0})
  profile current = do
    user ← own_user current
    respond (success 200 "ok" (some (profile_dto (to_profile_dto user))))

  unfoldable pub change_profile : Option Value → Bound UpdateProfileRequest → H C (Unit {0})
  change_profile current body = do
    req ← or_invalid body bad_request
    user_id ← current_user current
    reject (is_bad_phone req.phone) bad_phone
    or_fail (update_profile env user_id req.nickname req.email req.phone req.company req.avatar_url)
        (failure 500 500 "更新个人资料失败")
    found ← get_by_id env user_id
    user ← or_respond (or_nil found) panicked
    respond (success 200 "个人资料已更新" (some (profile_dto (to_profile_dto user))))

  module _ (s : Services C) (salt : ℕ) where
    unfoldable pub change_password : Option Value → Bound ChangePasswordRequest → H C (Unit {0})
    change_password current body = do
      req ← or_invalid body bad_request
      user_id ← current_user current
      found ← or_fail (get_by_id env user_id) server_error
      user ← or_respond found (failure 404 40401 "用户不存在")
      require (verify_password s user.password_hash req.old_password) (failure 400 40002 "旧密码不正确")
      set_password s env salt user_id req.new_password "密码修改失败" "密码修改成功"
