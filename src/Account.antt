-- ===== src/Account.antt =====
-- internal/model/account.go and the table wechat_accounts of internal/repository/account/account.go.
--
-- Times are in nanoseconds. Of the column types only the keys are modelled: a statement is `none`
-- where the tenant's foreign key or one of the two unique indexes of the migrations refuses it.
pub mod Repo
pub mod Views
pub mod Handlers
pub mod Listing
pub mod Rows
pub mod Walk
pub mod Apart
pub mod Ownership
pub mod Serve
mod Tests
use weiyeston.Base.{
  ℕ, suc, Bool, true, false, ◌&&◌, ◌||◌, not, Option, none, some, is_none, List, [], ◌∷◌, ◌++◌, ℤ,
  pos, Text, text_eq, int_eq, ◌==◌, any, if◌then◌else◌,
}

pub record WechatAccount : Type 0 where
  pub id : ℤ
  pub tenant_id : ℤ
  pub name : Option Text
  pub wx_original_id : Option Text
  pub wx_app_id : Option Text
  pub wx_app_secret : Option Text
  pub auth_type : ℤ
  pub auth_status : ℤ
  pub refresh_token : Option Text
  pub access_token : Option Text
  pub token_expire_at : Option ℕ
  pub avatar_url : Option Text
  pub qr_code_url : Option Text
  pub description : Option Text
  pub fans_count : ℤ
  pub authorizer_appid : Option Text
  pub func_info : Option Text
  pub service_type_info : Option ℤ
  pub verify_type_info : Option ℤ
  pub nick_name : Option Text
  pub head_img : Option Text
  pub user_name : Option Text
  pub alias : Option Text
  pub principal_name : Option Text
  pub qrcode_url : Option Text
  pub signature : Option Text
  pub deleted_at : Option ℕ
  pub created_at : ℕ
  pub updated_at : ℕ

pub record AccountTables : Type 0 where
  pub accounts : List WechatAccount
  pub next_account : ℕ
  pub is_tenant : ℤ → Bool

-- WHERE id = $1 AND deleted_at IS NULL.
abbrev pub is_live : ℤ → WechatAccount → Bool
is_live id a = a.id == id && is_none a.deleted_at

-- Whether a nullable column is equal to a text.
abbrev pub is_text : Text → Option Text → Bool
is_text s none = false
is_text s (some t) = t == s

abbrev pub is_manual : WechatAccount → Bool
is_manual a =
    a.auth_type == pos 1
    && (a.auth_status == pos 0 || a.auth_status == pos 1)
    && is_none a.deleted_at

-- The columns of idx_accounts_app_id and of idx_accounts_authorizer_appid, null for the rows that an
-- index leaves out.
abbrev pub app_id_key : WechatAccount → Option Text
app_id_key a = if is_manual a then a.wx_app_id else none

abbrev pub authorizer_key : WechatAccount → Option Text
authorizer_key a = if is_none a.deleted_at then a.authorizer_appid else none

abbrev clashes : Option Text → Option Text → Bool
clashes none k = false
clashes (some s) k = is_text s k

-- A unique index over a nullable column.
unfoldable pub is_index : (WechatAccount → Option Text) → List WechatAccount → Bool
is_index key [] = true
is_index key (a ∷ rest) = not (any (λ b. clashes (key a) (key b)) rest) && is_index key rest

-- A statement's outcome, unless an index refuses its rows.
unfoldable pub admitted : {A : Type 0} → A → AccountTables → Option (A × AccountTables)
admitted a t =
    if is_index app_id_key t.accounts && is_index authorizer_key t.accounts
    then some (a, t)
    else none
