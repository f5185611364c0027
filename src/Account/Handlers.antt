-- ===== src/Account/Handlers.antt =====
-- The handlers of internal/handler/api/account.go, but for List, which is Account.Listing.
use weiyeston.Base.{
  ℕ, ◌+◌, ◌*◌, ◌^◌, Bool, false, ◌&&◌, ◌||◌, Option, none, some, is_some, get_or, [], ◌++◌, ℤ, pos,
  Text, codes, text_eq, int_eq, ◌==◌, ◌!=◌, if◌then◌else◌, String,
}
use weiyeston.Assoc.{remove}
use weiyeston.Strings.{has_prefix}
use weiyeston.Http.{
  Env, Run, next, ◌>>=◌, ◌>>◌, pure, respond, or_respond, or_invalid, or_fail, require, reject,
  Response, success, failure, Bound,
}
use weiyeston.Strconv.{parse_int, format_int}
use weiyeston.Middleware.{Value, int64, float64}
use weiyeston.Account.{WechatAccount}
use weiyeston.Account.Repo.{
  W, create, get_by_id, get_by_app_id_and_tenant, update, soft_delete_with_return,
}
use weiyeston.Account.Views.{
  Payload, account_vo, created, auth_status, auth_url, CreateAccountRequest, UpdateAccountRequest,
  safe_string, to_account_vo, to_auth_status,
}

-- What the handlers ask of WeChat's servers and of others: the token for an id and a secret with its
-- seconds, the link to an authorization for a tenant, the hint on the server's address. `cache` is
-- whether there is a cache whose Del does not fail, and `ilike` the database's ILIKE with `%keyword%`.
pub record Outside : Type 0 where
  pub fetch_token : (app_id secret : Text) → Option (Text × ℕ)
  pub pre_auth_url : ℤ → Option Text
  pub public_ip_hint : Text
  pub cache : Bool
  pub ilike : Text → Text → Bool

abbrev pub H : Type 0 → Type 0
H A = W → Run W Payload A

abbrev pub bad_request : String → Response Payload
bad_request = failure 400 40001

abbrev pub not_found : String → Response Payload
not_found = failure 404 40401

abbrev pub forbidden : String → Response Payload
forbidden = failure 403 40301

abbrev pub conflict : String → Response Payload
conflict = failure 409 40901

abbrev pub server_error : String → Response Payload
server_error = failure 500 50001

abbrev pub bad_gateway : Response Payload
bad_gateway = failure 502 50201 "微信验证失败: "

abbrev pub get_tenant_id : Option Value → H ℤ
get_tenant_id (some (int64 v)) = pure v
get_tenant_id (some (float64 v)) = pure v
get_tenant_id (some _) = respond (bad_request "无效的租户信息")
get_tenant_id none = respond (failure 401 401 "未授权访问")

abbrev optional : Text → Option Text
optional s = if s == [] then none else some s

-- `expires_in` seconds from now.
abbrev pub expiry : ℕ → ℕ → ℕ
expiry now expires_in = now + expires_in * 10 ^ 9

-- The fields that Create leaves to the database are Go's zero values.
abbrev pub new_account : ℤ → CreateAccountRequest → Text → ℕ → WechatAccount
new_account tenant_id req access_token token_expire_at = record {
  id = pos 0;
  tenant_id = tenant_id;
  name = some req.name;
  wx_original_id = optional req.wx_original_id;
  wx_app_id = some req.wx_app_id;
  wx_app_secret = some req.wx_app_secret;
  auth_type = pos 1;
  auth_status = pos 1;
  refresh_token = none;
  access_token = some access_token;
  token_expire_at = some token_expire_at;
  avatar_url = optional req.avatar_url;
  qr_code_url = optional req.qr_code_url;
  description = optional req.description;
  fans_count = pos 0;
  authorizer_appid = none;
  func_info = none;
  service_type_info = none;
  verify_type_info = none;
  nick_name = none;
  head_img = none;
  user_name = none;
  alias = none;
  principal_name = none;
  qrcode_url = none;
  signature = none;
  deleted_at = none;
  created_at = 0;
  updated_at = 0;
}

-- A field that the request gives replaces the account's.
abbrev pub given : Option Text → Option Text → Option Text
given none old = old
given (some s) old = some s

abbrev pub with_changes : UpdateAccountRequest → WechatAccount → WechatAccount
with_changes req a = record a {
  name = given req.name a.name;
  wx_app_id = given req.wx_app_id a.wx_app_id;
  wx_app_secret = given req.wx_app_secret a.wx_app_secret;
  wx_original_id = given req.wx_original_id a.wx_original_id;
  description = given req.description a.description;
  avatar_url = given req.avatar_url a.avatar_url;
  qr_code_url = given req.qr_code_url a.qr_code_url;
}

abbrev pub wx : Text
wx = codes "wx"

-- The request names another value than the account's.
abbrev pub is_changed : Option Text → Option Text → Bool
is_changed none old = false
is_changed (some s) old = s != safe_string old

abbrev pub is_other : ℤ → Option WechatAccount → Bool
is_other account_id none = false
is_other account_id (some a) = a.id != account_id

abbrev pub cache_key : ℤ → Text
cache_key account_id = codes "authorizer_token:" ++ format_int account_id

module _ (env : Env) where
  -- The account with the tenant's right to it: how GetByID, Update, Delete and GetAuthStatus begin.
  unfoldable pub own_account : String → ℤ → ℤ → H WechatAccount
  own_account refusal account_id tenant_id = do
    found ← or_fail (get_by_id env account_id) (server_error "查询公众号失败")
    a ← or_respond found (not_found "公众号不存在")
    require (a.tenant_id == tenant_id) (forbidden refusal)
    pure a

  unfoldable pub get_account : Text → Option Value → H (Unit {0})
  get_account param tenant = do
    account_id ← or_respond (parse_int param) (bad_request "无效的公众号 ID")
    tenant_id ← get_tenant_id tenant
    a ← own_account "无权限操作该公众号" account_id tenant_id
    respond (success 200 "ok" (some (account_vo (to_account_vo a))))

  -- Step 7 of Update: a new AppId must start with wx and belong to no other account of the tenant.
  unfoldable pub check_app_id : ℤ → ℤ → WechatAccount → Option Text → H (Unit {0})
  check_app_id account_id tenant_id a none = pure tt
  check_app_id account_id tenant_id a (some app_id) =
      if app_id != safe_string a.wx_app_id
      then (do
        require (has_prefix wx app_id) (bad_request "AppId 必须以 wx 开头")
        existing ← or_fail (get_by_app_id_and_tenant env app_id tenant_id) (server_error "服务器内部错误")
        reject (is_other account_id existing) (conflict "该 AppId 已被其他公众号绑定"))
      else pure tt

  unfoldable pub get_auth_status : Text → Option Value → H (Unit {0})
  get_auth_status param tenant = do
    account_id ← or_respond (parse_int param) (bad_request "无效的公众号 ID")
    tenant_id ← get_tenant_id tenant
    a ← own_account "无权限访问该公众号" account_id tenant_id
    respond (success 200 "ok" (some (auth_status (to_auth_status a))))

module _ (outside : Outside) (env : Env) where
  unfoldable pub create_account : Option Value → Bound CreateAccountRequest → H (Unit {0})
  create_account tenant body = do
    req ← or_invalid body (bad_request "参数错误: ")
    require (has_prefix wx req.wx_app_id) (bad_request "AppId 必须以 wx 开头")
    tenant_id ← get_tenant_id tenant
    existing ←
        or_fail (get_by_app_id_and_tenant env req.wx_app_id tenant_id) (server_error "服务器内部错误")
    reject (is_some existing) (conflict "该 AppId 已被绑定")
    fetched ← or_respond (outside.fetch_token req.wx_app_id req.wx_app_secret) bad_gateway
    a ←
        or_fail (create env (new_account tenant_id req fetched.0 (expiry env.now fetched.1)))
          (server_error "创建公众号失败")
    respond (success 201 "ok" (some (created (to_account_vo a) outside.public_ip_hint)))

  -- Step 8: the account with a new token if the AppId or the secret changes.
  unfoldable pub refresh_token : UpdateAccountRequest → WechatAccount → H WechatAccount
  refresh_token req a =
      if is_changed req.wx_app_id a.wx_app_id || is_changed req.wx_app_secret a.wx_app_secret
      then (do
        fetched ←
            or_respond
              (outside.fetch_token (get_or req.wx_app_id (safe_string a.wx_app_id))
                (get_or req.wx_app_secret (safe_string a.wx_app_secret)))
              bad_gateway
        pure (record a {
          access_token = some fetched.0;
          token_expire_at = some (expiry env.now fetched.1);
        }))
      else pure a

  -- Steps 5 to 11 of Update, on the account that the tenant owns.
  unfoldable pub change_account : ℤ → ℤ → Bound UpdateAccountRequest → WechatAccount → H (Unit {0})
  change_account account_id tenant_id body a = do
    req ← or_invalid body (bad_request "参数错误: ")
    reject (a.auth_type == pos 2 && (is_some req.wx_app_id || is_some req.wx_app_secret))
        (forbidden "平台授权账号不允许编辑 AppId 和 AppSecret")
    check_app_id env account_id tenant_id a req.wx_app_id
    refreshed ← refresh_token req a
    or_fail (update env (with_changes req refreshed)) (server_error "更新公众号失败")
    respond (success 200 "ok" (some (account_vo (to_account_vo (with_changes req refreshed)))))

  unfoldable pub update_account : Text → Option Value → Bound UpdateAccountRequest → H (Unit {0})
  update_account param tenant body = do
    account_id ← or_respond (parse_int param) (bad_request "无效的公众号 ID")
    tenant_id ← get_tenant_id tenant
    a ← own_account env "无权限操作该公众号" account_id tenant_id
    change_account account_id tenant_id body a

  -- The error of Del is dropped.
  abbrev pub forget : ℤ → H (Unit {0})
  forget account_id w = next tt (record w {
    store = if outside.cache then remove (cache_key account_id) w.store else w.store;
  })

  unfoldable pub delete_account : Text → Option Value → H (Unit {0})
  delete_account param tenant = do
    account_id ← or_respond (parse_int param) (bad_request "无效的公众号 ID")
    tenant_id ← get_tenant_id tenant
    a ← own_account env "无权限操作该公众号" account_id tenant_id
    done ← or_fail (soft_delete_with_return env account_id) (server_error "删除失败")
    require done (not_found "公众号不存在或已删除")
    forget account_id
    respond (success 200 "已删除" none)

  unfoldable pub generate_auth_url : Option Value → H (Unit {0})
  generate_auth_url tenant = do
    tenant_id ← get_tenant_id tenant
    url ← or_respond (outside.pre_auth_url tenant_id) (server_error "生成授权链接失败: ")
    respond (success 200 "ok" (some (auth_url url 600)))
