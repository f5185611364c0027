-- ===== src/Wechat/Tests.antt =====
-- The theorems on the WeChat service at concrete worlds.
use weiyeston.Base.{
  suc, false, ◌*◌, ◌^◌, ◌==◌, nat_eq, true, [], ◌∷◌, pos, Text, codes, ◌≡◌, refl, arith, find, All,
  text_beq, any, count, update_where,
}
use weiyeston.Http.{Env, next, after}
use weiyeston.Config.{WechatConfig}
use weiyeston.Assoc.{insert, lookup}
use weiyeston.Cache
use weiyeston.Account.{WechatAccount, is_live, admitted, is_index}
use weiyeston.Account.Repo.{update_live}
use weiyeston.Redis.Memory.{Entries, memory}
use weiyeston.Wechat.{W, save_ticket}
use weiyeston.Wechat.Tokens.{
  component_token, pre_auth_code, authorization_url, refresh_component_token,
  get_component_access_token, generate_pre_auth_url, resolve_tenant_from_pre_auth,
}
use weiyeston.Wechat.Events.{
  handle_component_verify_ticket, handle_update_authorized, authorized_account,
}
use weiyeston.Wechat.Live.{
  handle_component_verify_ticket-get_component_access_token,
  generate_pre_auth_url-resolve_tenant_from_pre_auth,
}
use weiyeston.Wechat.Stale.{HasTokensOf, handle_update_authorized-HasTokensOf}

abbrev platform : WechatConfig
platform = record {
  component_app_id = codes "wx1";
  component_app_secret = codes "s";
  token = codes "t";
  encoding_aes_key = codes "k";
  server_url = codes "https://a.cn";
}

abbrev appid : Text
appid = codes "wx0123456789"

abbrev shop : WechatAccount
shop = record (authorized_account 5 appid (pos 8)) { id = pos 1 }

abbrev one_account : W Entries
one_account = record {
  tables = record {
    accounts = record { accounts = shop ∷ []; next_account = 2; is_tenant = λ id. true };
    tickets = [];
  };
  sent = 0;
  store = [];
}

abbrev monday : Env
monday = record { now = 10 ^ 10; fails = λ n. n == 1 }

abbrev minute_later : Env
minute_later = record { now = 7 * 10 ^ 10; fails = λ n. false }

-- The ticket does not reach the database.
handle_component_verify_ticket-get_component_access_token_example :
    (w' : W Entries) × (handle_component_verify_ticket memory platform monday
        (codes "ticket")
        one_account
      ≡ next tt w')
    × (get_component_access_token memory platform minute_later w'
        ≡ next (component_token (10 ^ 10)) (record w' { sent = suc w'.sent }))
handle_component_verify_ticket-get_component_access_token_example =
    handle_component_verify_ticket-get_component_access_token memory platform monday minute_later
      one_account (codes "ticket") (λ e. absurd (cc e)) refl refl refl refl (omega arith)

abbrev with_ticket : W Entries
with_ticket =
    after (handle_component_verify_ticket memory platform minute_later (codes "ticket") one_account)

generate_pre_auth_url-resolve_tenant_from_pre_auth_example :
    (w' : W Entries) × (generate_pre_auth_url memory platform minute_later (pos 8) with_ticket
      ≡ next (authorization_url platform (pre_auth_code (7 * 10 ^ 10) (pos 8))) w')
    × (resolve_tenant_from_pre_auth memory platform minute_later
          (pre_auth_code (7 * 10 ^ 10) (pos 8))
          w'
        ≡ next (pos 8) (record w' { sent = suc w'.sent }))
unfolding handle_component_verify_ticket refresh_component_token Cache.set Cache.get save_ticket
    text_beq insert lookup
generate_pre_auth_url-resolve_tenant_from_pre_auth_example =
    generate_pre_auth_url-resolve_tenant_from_pre_auth memory platform minute_later minute_later
      with_ticket (component_token (7 * 10 ^ 10)) (pos 8) refl (λ e. absurd (cc e)) (omega arith)
      (omega arith) refl refl refl (omega arith)

handle_update_authorized-HasTokensOf_example :
    (w' : W Entries) × (handle_update_authorized memory platform minute_later appid one_account
      ≡ next tt w')
    × All (λ b. is_live (pos 1) b ≡ true → HasTokensOf shop b) w'.tables.accounts.accounts
unfolding find update_live text_beq admitted is_index any count update_where
handle_update_authorized-HasTokensOf_example =
    handle_update_authorized-HasTokensOf memory platform minute_later one_account appid shop
      {rows = 1} {rows' = 1} (λ e. absurd (cc e)) refl refl refl refl refl refl
