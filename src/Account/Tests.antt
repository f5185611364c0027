-- ===== src/Account/Tests.antt =====
-- The theorems on accounts at concrete tables.
use weiyeston.Base.{
  text_beq, true, false, none, some, List, [], ◌∷◌, ℤ, pos, codes, int_eq, text_eq, ◌≡◌, ◌↔◌, refl,
  find,
}
use weiyeston.Http.{Env, bound, status_of}
use weiyeston.Strconv.{parse_int, parse_uint, scan}
use weiyeston.Middleware.{int64, Context}
use weiyeston.Middleware.Tenant.{precedence, header_tenant}
use weiyeston.Account.{WechatAccount, is_live}
use weiyeston.Account.Repo.{W}
use weiyeston.Account.Handlers.{Outside}
use weiyeston.Account.Views.{UpdateAccountRequest}
use weiyeston.Account.Rows.{foreign}
use weiyeston.Account.Serve.{
  AccountRequest, to_update, to_delete, serve_accounts, serve_accounts-foreign,
}
use weiyeston.Account.Ownership.{tenant_then_ownership, tenant_then_ownership-passes, number_of}

abbrev account : ℤ → ℤ → WechatAccount
account id tenant_id = record {
  id = id;
  tenant_id = tenant_id;
  name = some (codes "shop");
  wx_original_id = none;
  wx_app_id = none;
  wx_app_secret = none;
  auth_type = pos 2;
  auth_status = pos 1;
  refresh_token = none;
  access_token = none;
  token_expire_at = none;
  avatar_url = none;
  qr_code_url = none;
  description = none;
  fans_count = pos 0;
  authorizer_appid = none;
  func_info = none;
  service_type_info = none;
  verify_type_info = none;
  nick_name = none;
  head_img = none;
  user_name = none;
  alias = none;
  principal_name = none;
  qrcode_url = none;
  signature = none;
  deleted_at = none;
  created_at = 1;
  updated_at = 1;
}

abbrev two_tenants : W
two_tenants = record {
  tables = record {
    accounts = account (pos 1) (pos 8) ∷ account (pos 2) (pos 9) ∷ [];
    next_account = 3;
    is_tenant = λ id. true;
  };
  sent = 0;
  store = [];
}

abbrev now : Env
now = record { now = 5; fails = λ n. false }

abbrev offline : Outside
offline = record {
  fetch_token = λ app_id secret. none;
  pre_auth_url = λ tenant_id. none;
  public_ip_hint = [];
  cache = true;
  ilike = text_beq;
}

abbrev describe : UpdateAccountRequest
describe = record {
  name = none;
  wx_app_id = none;
  wx_app_secret = none;
  wx_original_id = none;
  description = some (codes "new");
  avatar_url = none;
  qr_code_url = none;
}

abbrev update_and_delete : List (Env × AccountRequest)
update_and_delete =
    (now, to_update (codes "1") (bound describe)) ∷ (now, to_delete (codes "2")) ∷ []

serve_accounts-foreign_example :
    foreign (pos 8) (serve_accounts offline (pos 8) update_and_delete two_tenants).tables
    ≡ foreign (pos 8) two_tenants.tables
serve_accounts-foreign_example =
    serve_accounts-foreign offline (pos 8) update_and_delete two_tenants ((λ e. cc, tt), (tt, tt))
      (refl, (refl, tt))

-- A user of tenant 8 who sends X-Tenant-ID: 9 passes for the account of tenant 9.
abbrev member : Context
member = record { user_id = some (int64 (pos 7)); tenant_id = some (int64 (pos 8)); role = none }

id_parsed : parse_int (codes "2") ≡ some (pos 2)
unfolding parse_int parse_uint scan
id_parsed = refl

tenant_then_ownership-passes_example :
    (status_of (tenant_then_ownership now (codes "9") (codes "2") member two_tenants) ≡ none) ↔ (
      (a : WechatAccount) × (find (is_live (pos 2)) two_tenants.tables.accounts ≡ some a)
      × (number_of (precedence (header_tenant (codes "9")) member.tenant_id member.user_id)
          ≡ some a.tenant_id))
tenant_then_ownership-passes_example =
    tenant_then_ownership-passes now (codes "9") (codes "2") member two_tenants (pos 2) id_parsed
      refl refl
