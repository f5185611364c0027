-- ===== src/Wechat/Events.antt =====
-- The events of internal/service/wechat/wechat.go that WeChat pushes to internal/handler/wx/component.go:
-- a component's ticket, and authorizations that are given, changed and taken back.
--
-- encoding/xml is a parameter.
use weiyeston.Base.{
  ℕ, ◌+◌, ◌*◌, ◌/◌, Bool, Option, none, some, [], ◌∷◌, ◌++◌, ℤ, pos, Text, codes, text_eq, nat_eq,
  ◌==◌, ltb, length, take, if◌then◌else◌, get_or,
}
use weiyeston.Http.{
  Env, next, stop, ◌>>=◌, ◌>>◌, pure, respond, or_respond, or_fail, require, reject, ignore,
  failure, success,
}
use weiyeston.Strconv.{format_uint}
use weiyeston.Config.{WechatConfig}
use weiyeston.Redis.{Redis}
use weiyeston.Cache
use weiyeston.Account.{WechatAccount}
use weiyeston.Account.Repo.{
  create, update, update_token, update_auth_status, get_by_authorizer_appid,
}
use weiyeston.Wechat.{M, error, panic, attempt, lift, save_ticket}
use weiyeston.Wechat.Tokens.{
  second, ticket_key, authorizer_key, refresh_component_token, resolve_tenant_from_pre_auth,
}

-- "授权公众号_", "默认主体" and "功能介绍" in UTF-8.
abbrev pub nick_name_prefix : Text
nick_name_prefix =
    230 ∷ 142 ∷ 136 ∷ 230 ∷ 157 ∷ 131 ∷ 229 ∷ 133 ∷ 172 ∷ 228 ∷ 188 ∷ 151 ∷ 229 ∷ 143 ∷ 183 ∷ 95
    ∷ []

abbrev pub default_principal : Text
default_principal = 233 ∷ 187 ∷ 152 ∷ 232 ∷ 174 ∷ 164 ∷ 228 ∷ 184 ∷ 187 ∷ 228 ∷ 189 ∷ 147 ∷ []

abbrev pub default_signature : Text
default_signature = 229 ∷ 138 ∷ 159 ∷ 232 ∷ 131 ∷ 189 ∷ 228 ∷ 187 ∷ 139 ∷ 231 ∷ 187 ∷ 141 ∷ []

-- fmt.Sprintf("<prefix>%s_%d", appid, now.Unix()).
abbrev pub token_for : Text → Text → ℕ → Text
token_for prefix appid now = prefix ++ (appid ++ (codes "_" ++ format_uint (now / second)))

abbrev pub granted_func_info : Text
granted_func_info =
    codes "[{\"funcscope_category\":{\"id\":1}},{\"funcscope_category\":{\"id\":15}}]"

abbrev pub updated_func_info : Text
updated_func_info = codes "[{\"funcscope_category\":{\"id\":1}}]"

module _ (now : ℕ) (appid : Text) where
  abbrev pub reauthorized : WechatAccount → WechatAccount
  reauthorized a = record a {
    refresh_token = some (token_for (codes "refresh_") appid now);
    access_token = some (token_for (codes "auth_token_") appid now);
    token_expire_at = some (now + 7200 * second);
    func_info = some granted_func_info;
    auth_status = pos 1;
  }

  abbrev pub authorized_account : ℤ → WechatAccount
  authorized_account tenant_id = record {
    id = pos 0;
    tenant_id = tenant_id;
    name = some (nick_name_prefix ++ take 12 appid);
    wx_original_id = none;
    wx_app_id = some appid;
    wx_app_secret = none;
    auth_type = pos 2;
    auth_status = pos 1;
    refresh_token = some (token_for (codes "refresh_") appid now);
    access_token = some (token_for (codes "auth_token_") appid now);
    token_expire_at = some (now + 7200 * second);
    avatar_url = none;
    qr_code_url = none;
    description = none;
    fans_count = pos 0;
    authorizer_appid = some appid;
    func_info = some granted_func_info;
    service_type_info = some (pos 2);
    verify_type_info = some (pos 0);
    nick_name = some (nick_name_prefix ++ take 12 appid);
    head_img = some (codes "http://wx.qlogo.cn/mmhead/default");
    user_name = some (codes "gh_default");
    alias = some (codes "default_alias");
    principal_name = some default_principal;
    qrcode_url = some (codes "http://mmbiz.qpic.cn/qrcode/default");
    signature = some default_signature;
    deleted_at = none;
    created_at = 0;
    updated_at = 0;
  }

-- A lookup whose error counts as no row.
abbrev pub found_or_none : Option (Option WechatAccount) → Option WechatAccount
found_or_none none = none
found_or_none (some a) = a

module _ {C : Type 0} (redis : Redis C) (config : WechatConfig) (env : Env) where
  unfoldable pub handle_component_verify_ticket : Text → M C (Unit {0})
  handle_component_verify_ticket ticket = do
    ignore (Cache.set redis env (ticket_key config) ticket (15 * 60 * second))
    ignore (save_ticket env config.component_app_id ticket)
    attempt (refresh_component_token redis config env)

  unfoldable pub save_authorized : Text → ℤ → Option WechatAccount → M C (Unit {0})
  save_authorized appid tenant_id none = do
    or_fail (lift (create env (authorized_account env.now appid tenant_id))) (error "创建授权记录失败")
    pure tt
  save_authorized appid tenant_id (some a) = do
    or_fail (lift (update env (reauthorized env.now appid a))) (error "更新授权记录失败")
    ignore (
        Cache.set redis env (authorizer_key a.id) (token_for (codes "auth_token_") appid env.now)
          (7200 * second))

  -- authorizerAppID[:12] panics on a shorter text.
  unfoldable pub handle_authorized : (appid pre_auth_code : Text) → M C (Unit {0})
  handle_authorized appid pre_auth_code = do
    tenant_id ← resolve_tenant_from_pre_auth redis config env pre_auth_code
    reject (ltb (length appid) 12) panic
    existing ← lift (get_by_authorizer_appid env appid)
    save_authorized appid tenant_id (found_or_none existing)

  unfoldable pub handle_update_authorized : Text → M C (Unit {0})
  handle_update_authorized appid = do
    found ← lift (get_by_authorizer_appid env appid)
    a ← or_respond (found_or_none found) (error "找不到被更新的授权记录")
    or_fail
        (lift (
          update_token env a.id (token_for (codes "updated_token_") appid env.now)
            (token_for (codes "updated_refresh_") appid env.now) (env.now + 7200 * second)))
        (error "更新授权令牌失败")
    ignore (lift (update env (record a { func_info = some updated_func_info })))

  unfoldable pub revoke : Option WechatAccount → M C (Unit {0})
  revoke none = pure tt
  revoke (some a) = do
    ignore (lift (update_auth_status env a.id (pos 3)))
    ignore (Cache.del redis env (authorizer_key a.id))

  unfoldable pub handle_unauthorized : Text → M C (Unit {0})
  handle_unauthorized appid = do
    found ← lift (get_by_authorizer_appid env appid)
    revoke (found_or_none found)

pub data InfoType : Type 0 where
  component_verify_ticket : InfoType
  authorized : InfoType
  updateauthorized : InfoType
  unauthorized : InfoType
  unknown : InfoType

abbrev pub info_type_of : Text → InfoType
info_type_of s =
    if s == codes "component_verify_ticket"
    then component_verify_ticket
    else if s == codes "authorized"
    then authorized
    else if s == codes "updateauthorized"
    then updateauthorized
    else if s == codes "unauthorized"
    then unauthorized
    else unknown

-- The body, where it can be read.
pub record CallbackRequest : Type 0 where
  pub body : Option Text
  pub msg_signature : Text

-- What xml.Unmarshal reads: an element as a text, which is empty where the element is missing and none
-- where the body is not well-formed, and whether an element can be read as an int64.
pub record Xml : Type 0 where
  pub text : Text → Text → Option Text
  pub is_int : Text → Text → Bool

module _ {C A : Type 0} where
  -- An error is logged; a panic leaves the handler.
  abbrev pub logged : M C A → M C (Unit {0})
  logged m w = elim (m w) [
    | next a t ↦ next tt t
    | stop r t ↦ if r.status == 500 then stop r t else next tt t
  ]

module _ {C : Type 0} (redis : Redis C) (xml : Xml) (config : WechatConfig) (env : Env) where
  abbrev pub element : Text → Text → Text
  element name body = get_or (xml.text name body) []

  -- Both events of an authorization carry its AuthorizationCodeExpiredTime.
  abbrev require_time : Text → M C (Unit {0})
  require_time body =
      require (xml.is_int (codes "AuthorizationCodeExpiredTime") body) (error "解析 authorized 事件失败")

  unfoldable pub dispatch : InfoType → Text → M C (Unit {0})
  dispatch component_verify_ticket body = logged (
      handle_component_verify_ticket redis config env
        (element (codes "ComponentVerifyTicket") body))
  dispatch authorized body = logged (
      require_time body
      >> handle_authorized redis config env (element (codes "AuthorizerAppid") body)
          (element (codes "PreAuthCode") body))
  dispatch updateauthorized body = logged (
      require_time body
      >> handle_update_authorized redis config env (element (codes "AuthorizerAppid") body))
  dispatch unauthorized body =
      logged (handle_unauthorized redis config env (element (codes "AuthorizerAppid") body))
  dispatch unknown body = pure tt

  unfoldable pub dispatch_message : Text → M C (Unit {0})
  dispatch_message body = elim (xml.text (codes "InfoType") body) [
    | none ↦ pure tt
    | some s ↦ dispatch (info_type_of s) body
  ]

  unfoldable pub handle_component_callback : CallbackRequest → M C (Unit {0})
  handle_component_callback q = do
    body ← or_respond q.body (failure 400 400 "read body failed")
    reject (q.msg_signature == []) (failure 403 403 "signature required")
    reject (element (codes "Encrypt") body == []) (success 200 "success" none)
    dispatch_message body
    respond (success 200 "success" none)
