-- ===== src/Auth/Tests.antt =====
-- The theorems on sessions and passwords at concrete tenants.
use weiyeston.Base.{
  ℕ, ◌*◌, ◌^◌, ◌≤◌, ◌≢◌, false, none, some, List, [], ◌∷◌, ◌++◌, pos, Text, codes, map, ◌≡◌, refl,
  arith, find, text_eq, count, update_where, text_beq, ap, length,
}
use weiyeston.Http.{Env, Response, Bound, bound, after, answer, success, next, stop}
use weiyeston.Redis.{at_time}
use weiyeston.Redis.Memory.{Entries}
use weiyeston.Middleware.{Context, int64}
use weiyeston.Middleware.Auth.{auth, bearer}
use weiyeston.Tenant.{Tenant, is_named, user_role}
use weiyeston.Tenant.Repo.{
  W, get_by_username, get_by_id, get_by_phone, update_password, update_live,
}
use weiyeston.Auth.{
  Draws, access_claims, verify_password, generate_access_token, generate_refresh_token,
  get_refresh_token, revoke_refresh_token, hash_password,
}
use weiyeston.Assoc.{lookup, insert, remove}
use weiyeston.Strconv.{format_int, format_uint, parse_int, parse_uint, scan}
use weiyeston.Strings.{has_prefix, trim_prefix}
use weiyeston.Config.{get_access_expiration, get_refresh_expiration}
use weiyeston.Auth.Views.{
  AuthData, LoginRequest, RegisterRequest, ChangePasswordRequest, ResetPasswordRequest,
}
use weiyeston.Auth.Session.{
  limit_login, start_window, login_user, check_account, issue, logged_in, refresh_user, login,
  refresh, logout, welcome, renewed, unverified_user, invalid_refresh, rate_key,
}
use weiyeston.Auth.Registered.{IsAnswer, register-IsAnswer}
use weiyeston.Auth.Handlers.{
  register, reset_password, preset_code, set_password, phone_pattern, all_digits,
}
use weiyeston.Auth.Profile.{change_password}
use weiyeston.Auth.Walk.{rank}
use weiyeston.Auth.Serve.{to_login, to_reset, serve_auth, IsPromotedBy, serve_auth-IsPromotedBy}
use weiyeston.Auth.Granted.{IsGranted, login-IsGranted}
use weiyeston.Auth.Bearer.{own_context, login-auth}
use weiyeston.Auth.Rotation.{IsRenewed, refresh-IsRenewed, refresh_spent, logout-refresh}
use weiyeston.Auth.Password.Reset.{IsReset, reset_password-IsReset}
use weiyeston.Auth.Password.Change.{IsChanged, change_password-IsChanged}
use weiyeston.Auth.Limit.{tries, tries_limit}
use weiyeston.Auth.Cycle.{login-refresh}
use weiyeston.Auth.Toy.{toy, toy_sign, toy_config}

abbrev ann : Tenant
ann = record {
  id = pos 1;
  username = codes "ann";
  password_hash = codes "old secret";
  nickname = none;
  email = none;
  phone = some (codes "13800000000");
  company = none;
  avatar_url = none;
  role = user_role;
  status = pos 1;
  vip_end_time = none;
  vip_level = codes "trial";
  last_login_at = none;
  deleted_at = none;
  created_at = 1;
  updated_at = 1;
}

abbrev office : W Entries
office = record { tables = record { tenants = ann ∷ []; next_tenant = 2 }; sent = 0; store = [] }

abbrev at : ℕ → Env
at now = record { now = now; fails = λ n. false }

abbrev monday : Env
monday = at (10 ^ 10)

abbrev tuesday : Env
tuesday = at (2 * 10 ^ 10)

abbrev first_draws : Draws
first_draws = record { salt = 0; jti = []; refresh = codes "first" }

abbrev second_draws : Draws
second_draws = record { salt = 0; jti = []; refresh = codes "second" }

abbrev nobody : Context
nobody = record { user_id = none; tenant_id = none; role = none }

abbrev ip : Text
ip = codes "10.0.0.1"

abbrev credentials : LoginRequest
credentials = record { username = codes "ann"; password = codes "old secret" }

abbrev session : W Entries
session = after (login toy monday first_draws ip (bound credentials) office)

-- The access token of ann's login.
abbrev anns_token : Text
anns_token = toy_sign toy_config.secret (access_claims monday.now [] toy_config ann)

abbrev anns_welcome : Response AuthData
anns_welcome = welcome toy monday first_draws ann anns_token (codes "first")

logged_in_on_monday :
    login toy monday first_draws ip (bound credentials) office ≡ stop anns_welcome session
unfolding login limit_login start_window lookup insert text_beq get_by_username find login_user
    check_account verify_password issue generate_access_token get_access_expiration
    generate_refresh_token get_refresh_expiration logged_in update_live count update_where
    format_int format_uint parse_int parse_uint scan
logged_in_on_monday = refl

login-IsGranted_example : IsGranted toy monday first_draws credentials office anns_welcome session
login-IsGranted_example =
    login-IsGranted toy monday first_draws ip credentials office session anns_welcome
      logged_in_on_monday refl

login-auth_example :
    (user : Tenant) × (access : Text) × (find (is_named credentials.username) office.tables.tenants
      ≡ some user)
    × (anns_welcome ≡ welcome toy monday first_draws user access first_draws.refresh)
    × (auth (toy.tokens.at 20) toy.jwt.secret (bearer ++ access) nobody
        ≡ next tt (own_context user))
unfolding get_access_expiration
login-auth_example =
    login-auth toy monday first_draws ip credentials office session anns_welcome 20 nobody
      logged_in_on_monday refl (omega arith, tt) (omega arith)

abbrev header : Text
header = bearer ++ anns_token

abbrev renewed_session : W Entries
renewed_session = after (refresh toy tuesday second_draws header (bound (codes "first")) session)

abbrev anns_renewed : Response AuthData
anns_renewed =
    renewed toy tuesday second_draws
      (toy_sign toy_config.secret (access_claims tuesday.now [] toy_config ann)) (codes "second")

refreshed_on_tuesday :
    refresh toy tuesday second_draws header (bound (codes "first")) session
    ≡ stop anns_renewed renewed_session
unfolding login limit_login start_window lookup insert text_beq get_by_username find login_user
    check_account verify_password issue generate_access_token get_access_expiration
    generate_refresh_token get_refresh_expiration logged_in update_live count update_where
    format_int format_uint parse_int parse_uint scan refresh refresh_user get_refresh_token
    get_by_id unverified_user has_prefix trim_prefix
refreshed_on_tuesday = refl

refresh-IsRenewed_example :
    IsRenewed toy tuesday second_draws header (codes "first") session anns_renewed renewed_session
refresh-IsRenewed_example =
    refresh-IsRenewed toy tuesday second_draws header (codes "first") session renewed_session
      anns_renewed refreshed_on_tuesday refl

abbrev again_session : W Entries
again_session =
    after (refresh toy tuesday first_draws header (bound (codes "first")) renewed_session)

refused_again :
    refresh toy tuesday first_draws header (bound (codes "first")) renewed_session
    ≡ stop invalid_refresh again_session
unfolding login limit_login start_window lookup insert text_beq get_by_username find login_user
    check_account verify_password issue generate_access_token get_access_expiration
    generate_refresh_token get_refresh_expiration logged_in update_live count update_where
    format_int format_uint parse_int parse_uint scan refresh refresh_user get_refresh_token
    get_by_id unverified_user has_prefix trim_prefix
refused_again = refl

refresh_spent_example : invalid_refresh.status ≢ 200
refresh_spent_example =
    refresh_spent toy tuesday tuesday second_draws first_draws header (codes "first") session
      renewed_session renewed_session again_session anns_renewed invalid_refresh
      refreshed_on_tuesday refl (λ e. absurd (omega (arith, ap length e))) refl refused_again

abbrev left : W Entries
left = after (logout toy tuesday (some (int64 (pos 1))) session)

abbrev after_logout : W Entries
after_logout = after (refresh toy tuesday second_draws header (bound (codes "first")) left)

logged_out :
    logout toy tuesday (some (int64 (pos 1))) session ≡ stop (success 200 "已退出登录" none) left
unfolding logout revoke_refresh_token
logged_out = refl

anns_header : unverified_user toy header ≡ pos 1
unfolding unverified_user has_prefix trim_prefix get_access_expiration
anns_header = refl

refused_after_logout :
    refresh toy tuesday second_draws header (bound (codes "first")) left
    ≡ stop invalid_refresh after_logout
unfolding login limit_login start_window lookup insert remove text_beq get_by_username find
    login_user check_account verify_password issue generate_access_token get_access_expiration
    generate_refresh_token get_refresh_expiration logged_in update_live count update_where
    format_int format_uint parse_int parse_uint scan refresh refresh_user get_refresh_token
    get_by_id unverified_user has_prefix trim_prefix logout revoke_refresh_token
refused_after_logout = refl

logout-refresh_example : invalid_refresh.status ≢ 200
logout-refresh_example =
    logout-refresh toy tuesday tuesday second_draws (pos 1) header (codes "first") session left
      after_logout (success 200 "已退出登录" none) invalid_refresh logged_out refl anns_header
      refused_after_logout

abbrev reset : ResetPasswordRequest
reset = record { phone = codes "13800000000"; code = preset_code; new_password = codes "stolen!!" }

abbrev reset_done : Response AuthData
reset_done = success 200 "密码重置成功，请使用新密码登录" none

was_reset :
    reset_password toy monday 0 (bound reset) office
    ≡ stop reset_done (after (reset_password toy monday 0 (bound reset) office))
unfolding reset_password phone_pattern all_digits text_beq get_by_phone find set_password
    hash_password update_password update_live count update_where
was_reset = refl

reset_password-IsReset_example :
    IsReset toy monday 0 reset office.tables
      (after (reset_password toy monday 0 (bound reset) office)).tables
reset_password-IsReset_example =
    reset_password-IsReset toy monday 0 reset office
      (after (reset_password toy monday 0 (bound reset) office)) reset_done was_reset refl

abbrev change : ChangePasswordRequest
change = record { old_password = codes "old secret"; new_password = codes "new secret" }

abbrev change_done : Response AuthData
change_done = success 200 "密码修改成功" none

abbrev changed : W Entries
changed = after (change_password monday toy 0 (some (int64 (pos 1))) (bound change) office)

was_changed :
    change_password monday toy 0 (some (int64 (pos 1))) (bound change) office
    ≡ stop change_done changed
unfolding change_password verify_password text_beq get_by_id find set_password hash_password
    update_password update_live count update_where
was_changed = refl

change_password-IsChanged_example :
    IsChanged toy monday 0 (pos 1) change office.tables changed.tables
change_password-IsChanged_example =
    change_password-IsChanged toy monday 0 (pos 1) change office changed change_done was_changed
      refl

abbrev login_requests : List (Env × Draws × Bound LoginRequest)
login_requests =
    (monday, first_draws, bound credentials) ∷ (tuesday, second_draws, bound credentials) ∷ []

fresh : (now : ℕ) → 10 ^ 10 ≤ now → at_time now (lookup (rate_key ip) office.store) ≡ none
unfolding lookup
fresh now l = refl

tries_limit_example : tries toy ip login_requests office ≤ 5
tries_limit_example =
    tries_limit toy ip (10 ^ 10) login_requests office
      ((omega arith, omega arith), ((omega arith, omega arith), tt)) fresh

serve_auth-IsPromotedBy_example :
    IsPromotedBy
      (map rank office.tables.tenants)
      (serve_auth toy
        ((monday, first_draws, to_login ip (bound credentials))
          ∷ (tuesday, second_draws, to_reset (bound reset))
          ∷ [])
        office).tables
serve_auth-IsPromotedBy_example =
    serve_auth-IsPromotedBy toy
      ((monday, first_draws, to_login ip (bound credentials))
        ∷ (tuesday, second_draws, to_reset (bound reset))
        ∷ [])
      office

login-refresh_example :
    (user : Tenant) × (access : Text) × (access' : Text) × (anns_welcome
      ≡ welcome toy monday first_draws user access first_draws.refresh)
    × (answer
          (refresh toy tuesday second_draws (bearer ++ access) (bound first_draws.refresh) session)
        ≡ some (renewed toy tuesday second_draws access' second_draws.refresh))
unfolding generate_access_token get_refresh_expiration
login-refresh_example =
    login-refresh toy monday tuesday first_draws second_draws ip credentials office session session
      anns_welcome logged_in_on_monday refl refl (λ key. refl) (λ n. refl) (omega arith)
      (λ user. (toy_sign toy_config.secret (access_claims tuesday.now [] toy_config user), refl))
      (λ e. absurd (omega (arith, ap length e))) (tt, tt) ((0, refl, omega arith), tt)

abbrev joining : RegisterRequest
joining = record {
  username = codes "bob";
  password = codes "good pass";
  email = [];
  phone = codes "13900000000";
  nickname = [];
  company = [];
}

register-IsAnswer_example :
    (r : Response AuthData) × (t : W Entries) × (register toy monday 0 (bound joining) office
      ≡ stop r t)
    × IsAnswer toy monday 0 joining office r t
register-IsAnswer_example = register-IsAnswer toy monday 0 joining office
