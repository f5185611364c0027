-- ===== src/Wechat/Tokens.antt =====
-- The tokens of internal/service/wechat/wechat.go: of the component, of the authorized accounts and of
-- accounts with their own AppId, and the links to an authorization. The service has no SDK yet and
-- makes its tokens up from the time.
use weiyeston.Base.{
  ℕ, ◌+◌, ◌*◌, ◌-◌, ◌/◌, ◌^◌, true, false, Option, none, some, [], ◌++◌, ℤ, pos, Text, codes,
  text_eq, int_eq, ◌==◌, ltb, if◌then◌else◌, get_or,
}
use weiyeston.Http.{Env, ◌>>=◌, ◌>>◌, pure, respond, or_respond, or_fail, reject, ignore}
use weiyeston.Strconv.{format_int, format_uint, parse_int}
use weiyeston.Config.{WechatConfig}
use weiyeston.Redis.{Redis}
use weiyeston.Cache
use weiyeston.Account.{WechatAccount}
use weiyeston.Account.Repo.{get_by_id, update_token, update_auth_status}
use weiyeston.Wechat.{M, error, attempt, lift, get_latest_ticket, query_escape}

abbrev pub second : ℕ
second = 10 ^ 9

abbrev pub ticket_key : WechatConfig → Text
ticket_key c = codes "component_verify_ticket:" ++ c.component_app_id

abbrev pub token_key : WechatConfig → Text
token_key c = codes "component_access_token:" ++ c.component_app_id

abbrev pub pre_auth_key : Text → Text
pre_auth_key code = codes "pre_auth:" ++ code

abbrev pub authorizer_key : ℤ → Text
authorizer_key id = codes "authorizer_token:" ++ format_int id

abbrev pub component_token : ℕ → Text
component_token now = codes "component_token_" ++ format_uint (now / second)

abbrev pub pre_auth_code : ℕ → ℤ → Text
pre_auth_code now tenant_id =
    codes "preauth_" ++ (format_int tenant_id ++ (codes "_" ++ format_uint now))

abbrev pub authorization_url : WechatConfig → Text → Text
authorization_url c code =
    codes "https://mp.weixin.qq.com/cgi-bin/componentloginpage?component_appid="
    ++ (c.component_app_id
        ++ (codes "&pre_auth_code="
            ++ (code
                ++ (codes "&redirect_uri="
                    ++ (query_escape (c.server_url ++ codes "/wx/component/callback")
                        ++ codes "&auth_type=3")))))

-- The time to which a live token of an account lasts.
abbrev pub live_until : ℕ → WechatAccount → Option (Text × ℕ)
live_until now a = both a.access_token a.token_expire_at
  where
    both : Option Text → Option ℕ → Option (Text × ℕ)
    both (some s) (some t) = if ltb now t then some (s, t) else none
    both _ _ = none

-- What the token interface of WeChat answers, when it does.
pub record WechatTokenResponse : Type 0 where
  pub access_token : Text
  pub expires_in : ℤ
  pub err_code : ℤ

unfoldable pub fetch_manual_access_token : Option WechatTokenResponse → Option (Text × ℤ)
fetch_manual_access_token none = none
fetch_manual_access_token (some result) =
    if result.err_code == pos 0 then some (result.access_token, result.expires_in) else none

module _ {C : Type 0} (redis : Redis C) (config : WechatConfig) (env : Env) where
  -- The ticket of the cache or, if that has none, of the database.
  abbrev pub or_saved : Option Text → M C Text
  or_saved cached = elim (get_or cached [] == []) [
    | false ↦ pure (get_or cached [])
    | true ↦ (do
      saved ← get_latest_ticket env config.component_app_id
      reject (get_or saved [] == []) (error "无法获取 component_verify_ticket")
      pure (get_or saved []))
  ]

  unfoldable pub refresh_component_token : M C (Unit {0})
  refresh_component_token = do
    cached ← Cache.get redis env (ticket_key config)
    or_saved cached
    or_fail (Cache.set redis env (token_key config) (component_token env.now) (110 * 60 * second))
        (error "缓存 component_access_token 失败")
    pure tt

  -- On a miss the token is refreshed and read again.
  unfoldable pub or_refreshed : Text → M C Text
  or_refreshed token = elim (token == []) [
    | false ↦ pure token
    | true ↦
        (attempt refresh_component_token
          >> or_fail (Cache.get redis env (token_key config)) (error "component_access_token"))
  ]

  unfoldable pub get_component_access_token : M C Text
  get_component_access_token = do
    token ← or_fail (Cache.get redis env (token_key config)) (error "component_access_token")
    or_refreshed token

  unfoldable pub get_component_verify_ticket : M C Text
  get_component_verify_ticket =
      or_fail (Cache.get redis env (ticket_key config)) (error "component_verify_ticket")

  unfoldable pub generate_pre_auth_url : ℤ → M C Text
  generate_pre_auth_url tenant_id = do
    token ← get_component_access_token
    reject (token == []) (error "component_access_token 为空，请检查微信第三方平台配置")
    or_fail
        (Cache.set redis env (pre_auth_key (pre_auth_code env.now tenant_id)) (format_int tenant_id)
          (10 * 60 * second))
        (error "缓存预授权关联失败")
    pure (authorization_url config (pre_auth_code env.now tenant_id))

  unfoldable pub resolve_tenant_from_pre_auth : Text → M C ℤ
  resolve_tenant_from_pre_auth code = do
    stored ← or_fail (Cache.get redis env (pre_auth_key code)) (error "查询预授权关联失败")
    reject (stored == []) (error "预授权码已过期或无效")
    or_respond (parse_int stored) (error "预授权关联数据异常")

  abbrev pub new_access_token : ℤ → Text
  new_access_token id =
      codes "authorizer_token_" ++ (format_int id ++ (codes "_" ++ format_uint (env.now / second)))

  abbrev pub new_refresh_token : ℤ → Text
  new_refresh_token id =
      codes "refresh_token_" ++ (format_int id ++ (codes "_" ++ format_uint (env.now / second)))

  -- The account's status is 2 if the new tokens cannot be written.
  unfoldable pub keep_tokens : ℤ → Option (Unit {0}) → M C (Unit {0})
  keep_tokens id (some written) = pure tt
  keep_tokens id none =
      ignore (lift (update_auth_status env id (pos 2))) >> respond (error "更新 token 失败")

  unfoldable pub refresh_authorizer_token : WechatAccount → M C Text
  refresh_authorizer_token a = do
    reject (get_or a.refresh_token [] == []) (error "没有 refresh_token，请重新授权")
    get_component_access_token
    written ← lift (
        update_token env a.id (new_access_token a.id) (new_refresh_token a.id)
          (env.now + 7200 * second))
    keep_tokens a.id written
    ignore (Cache.set redis env (authorizer_key a.id) (new_access_token a.id) (7200 * second))
    pure (new_access_token a.id)

  -- A token that lasts goes to the cache for the rest of its time; another is refreshed.
  unfoldable pub use_account : WechatAccount → Option (Text × ℕ) → M C Text
  use_account a none = refresh_authorizer_token a
  use_account a (some (access, end)) =
      ignore (Cache.set redis env (authorizer_key a.id) access (end - env.now)) >> pure access

  unfoldable pub load_authorizer_token : ℤ → M C Text
  load_authorizer_token account_id = do
    found ← or_fail (lift (get_by_id env account_id)) (error "查询公众号失败")
    a ← or_respond found (error "公众号不存在")
    use_account a (live_until env.now a)

  unfoldable pub get_authorizer_access_token : ℤ → M C Text
  get_authorizer_access_token account_id = do
    cached ← Cache.get redis env (authorizer_key account_id)
    elim (get_or cached [] == []) [
      | false ↦ pure (get_or cached [])
      | true ↦ load_authorizer_token account_id
    ]
