-- ===== src/Account/Views.antt =====
-- The requests and view objects of internal/handler/api/account.go.
use weiyeston.Base.{ℕ, List, Option, [], ℤ, Text, get_or}
use weiyeston.Account.{WechatAccount}

pub record CreateAccountRequest : Type 0 where
  pub name : Text
  pub wx_app_id : Text
  pub wx_app_secret : Text
  pub wx_original_id : Text
  pub description : Text
  pub avatar_url : Text
  pub qr_code_url : Text

pub record UpdateAccountRequest : Type 0 where
  pub name : Option Text
  pub wx_app_id : Option Text
  pub wx_app_secret : Option Text
  pub wx_original_id : Option Text
  pub description : Option Text
  pub avatar_url : Option Text
  pub qr_code_url : Option Text

pub record AccountVo : Type 0 where
  pub id : ℤ
  pub tenant_id : ℤ
  pub name : Text
  pub wx_app_id : Text
  pub wx_original_id : Text
  pub auth_type : ℤ
  pub auth_status : ℤ
  pub description : Text
  pub avatar_url : Text
  pub qr_code_url : Text
  pub fans_count : ℤ
  pub nick_name : Text
  pub head_img : Text
  pub principal_name : Text
  pub token_expire_at : Option ℕ
  pub created_at : ℕ
  pub updated_at : ℕ

-- The data of GetAuthStatus. The JSON of func_info is kept as it is stored.
pub record AuthStatus : Type 0 where
  pub account_id : ℤ
  pub auth_status : ℤ
  pub auth_type : ℤ
  pub nick_name : Option Text
  pub head_img : Option Text
  pub func_info : Option Text
  pub authorized_at : ℕ

pub data Payload : Type 0 where
  account_vo : AccountVo → Payload
  created : AccountVo → (ip_whitelist : Text) → Payload
  auth_status : AuthStatus → Payload
  auth_url : Text → (expires_in : ℕ) → Payload
  account_page : List AccountVo → (total page page_size : ℕ) → Payload

abbrev pub safe_string : Option Text → Text
safe_string s = get_or s []

unfoldable pub to_account_vo : WechatAccount → AccountVo
to_account_vo a = record {
  id = a.id;
  tenant_id = a.tenant_id;
  name = safe_string a.name;
  wx_app_id = safe_string a.wx_app_id;
  wx_original_id = safe_string a.wx_original_id;
  auth_type = a.auth_type;
  auth_status = a.auth_status;
  description = safe_string a.description;
  avatar_url = safe_string a.avatar_url;
  qr_code_url = safe_string a.qr_code_url;
  fans_count = a.fans_count;
  nick_name = safe_string a.nick_name;
  head_img = safe_string a.head_img;
  principal_name = safe_string a.principal_name;
  token_expire_at = a.token_expire_at;
  created_at = a.created_at;
  updated_at = a.updated_at;
}

unfoldable pub to_auth_status : WechatAccount → AuthStatus
to_auth_status a = record {
  account_id = a.id;
  auth_status = a.auth_status;
  auth_type = a.auth_type;
  nick_name = a.nick_name;
  head_img = a.head_img;
  func_info = a.func_info;
  authorized_at = a.created_at;
}
