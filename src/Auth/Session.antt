-- ===== src/Auth/Session.antt =====
-- Login, Refresh and Logout of internal/handler/api/auth.go.
use weiyeston.Base.{
  ℕ, ◌/◌, ◌^◌, Bool, true, false, ◌||◌, Option, none, some, [], ◌++◌, ℤ, pos, Text, codes, text_eq,
  int_eq, ◌==◌, ◌!=◌, ltb_ℤ, ◌*◌, if◌then◌else◌,
}
use weiyeston.Http.{
  Env, ◌>>=◌, ◌>>◌, pure, respond, or_respond, or_invalid, or_fail, ignore, require, reject,
  Response, success, failure, Bound, statement,
}
use weiyeston.Strings.{has_prefix, trim_prefix}
use weiyeston.Redis.{command}
use weiyeston.Middleware.{Value}
use weiyeston.Middleware.Auth.{bearer, sub_id}
use weiyeston.Tenant.{Tenant}
use weiyeston.Tenant.Repo.{get_by_username, get_by_id, update_live}
use weiyeston.Auth.{
  Services, Draws, access_lifetime, verify_password, generate_access_token, generate_refresh_token,
  revoke_refresh_token, get_refresh_token,
}
use weiyeston.Auth.Views.{
  LoginRequest, TokenPair, AuthData, login_response, refresh_response, to_user_dto,
}
use weiyeston.Auth.Handlers.{H, bad_request, server_error, current_user}

abbrev pub too_many : Response AuthData
too_many = failure 429 42901 "登录尝试过于频繁，请稍后再试"

abbrev pub wrong_password : Response AuthData
wrong_password = failure 401 40101 "用户名或密码错误"

abbrev pub invalid_refresh : Response AuthData
invalid_refresh = failure 401 40102 "refresh token 无效或已过期，请重新登录"

abbrev pub rate_key : Text → Text
rate_key ip = codes "login_rate:" ++ ip

abbrev pub minute : ℕ
minute = 60 * 10 ^ 9

abbrev pub is_past : ℕ → Option ℤ → Bool
is_past now none = false
is_past now (some t) = ltb_ℤ t (pos now)

abbrev pub touched : ℕ → Tenant → Tenant
touched now t = record t { last_login_at = some now; updated_at = now }

-- The user of a token whose signature nobody checks; 0 where there is none.
unfoldable pub unverified_user : {C : Type 0} → Services C → Text → ℤ
unverified_user s header =
    if has_prefix bearer header
    then number (sub_id (s.tokens.unverified_sub (trim_prefix bearer header)))
    else pos 0
  where
    number : Option ℤ → ℤ
    number none = pos 0
    number (some v) = v

module _ {C : Type 0} (s : Services C) (env : Env) where
  -- A new counter runs for a minute; the error of Expire is dropped.
  unfoldable pub start_window : Bool → Text → H C (Unit {0})
  start_window false ip = pure tt
  start_window true ip =
      ignore (command env λ c. some (tt, s.redis.expire env.now (rate_key ip) minute c))

  unfoldable pub limit_login : Text → H C (Unit {0})
  limit_login ip = do
    count ← or_fail (command env (s.redis.incr env.now (rate_key ip))) server_error
    start_window (count == pos 1) ip
    reject (ltb_ℤ (pos 5) count) too_many

  unfoldable pub check_account : Tenant → H C (Unit {0})
  check_account user = do
    reject (user.status == pos 0) (failure 403 40301 "账号尚未审核通过，请等待管理员审核")
    reject (user.status == pos 2) (failure 403 40302 "账号已被停用，请联系管理员")
    reject (is_past env.now user.vip_end_time) (failure 403 40303 "会员已到期，请联系管理员")

  abbrev pub touch : ℤ → H C (Option ℕ)
  touch id = statement env (update_live id (touched env.now))

  module _ (draws : Draws) where
    -- A new pair of tokens: the end of Login and of Refresh.
    unfoldable pub issue : Tenant → (Text → Text → H C (Unit {0})) → H C (Unit {0})
    issue user reply = do
      access ← or_respond (generate_access_token s env.now draws.jti user) server_error
      refresh ← or_fail (generate_refresh_token s env draws.refresh user.id) server_error
      reply access refresh

    abbrev pub tokens_of : Text → Text → TokenPair
    tokens_of access refresh = record {
      access_token = access;
      refresh_token = refresh;
      expires_in = access_lifetime s.jwt / 10 ^ 9;
    }

    abbrev pub welcome : Tenant → Text → Text → Response AuthData
    welcome user access refresh =
        success 200 "登录成功" (some (login_response (tokens_of access refresh) (to_user_dto user)))

    unfoldable pub logged_in : Tenant → Text → Text → H C (Unit {0})
    logged_in user access refresh = do ignore (touch user.id); respond (welcome user access refresh)

    abbrev pub renewed : Text → Text → Response AuthData
    renewed access refresh = success 200 "ok" (some (refresh_response (tokens_of access refresh)))

    -- From the user that has the name.
    unfoldable pub login_user : Text → Option Tenant → H C (Unit {0})
    login_user password found = do
      user ← or_respond found wrong_password
      check_account user
      require (verify_password s user.password_hash password) wrong_password
      issue user (logged_in user)

    unfoldable pub login : Text → Bound LoginRequest → H C (Unit {0})
    login ip body = do
      req ← or_invalid body bad_request
      limit_login ip
      found ← or_fail (get_by_username env req.username) server_error
      login_user req.password found

    -- `none` of the query is the error that Refresh answers like a missing user.
    unfoldable pub refresh_user : Option (Option Tenant) → H C (Unit {0})
    refresh_user found = do
      row ← or_respond found invalid_refresh
      user ← or_respond row invalid_refresh
      issue user λ access refresh. respond (renewed access refresh)

    unfoldable pub refresh : Text → Bound Text → H C (Unit {0})
    refresh header body = do
      refresh_token ← or_invalid body bad_request
      reject (unverified_user s header == pos 0) invalid_refresh
      stored ← or_fail (get_refresh_token s env (unverified_user s header)) server_error
      reject (stored == [] || stored != refresh_token) invalid_refresh
      found ← get_by_id env (unverified_user s header)
      refresh_user found

  unfoldable pub logout : Option Value → H C (Unit {0})
  logout user = do
    user_id ← current_user user
    or_fail (revoke_refresh_token s env user_id) server_error
    respond (success 200 "已退出登录" none)
