-- ===== src/Config/Tests.antt =====
-- The checks of a configuration at a concrete one.
use weiyeston.Base.{[], pos, codes, ◌≡◌, ◌↔◌, text_eq}
use weiyeston.Config.{Config, validate, IsComplete, validate_lem}

abbrev manual_only : Config
manual_only = record {
  database_host = codes "db";
  redis_addr = codes "redis:6379";
  jwt = record {
    secret = codes "s";
    expiration = pos 1;
    access_expiration = pos 0;
    refresh_expiration = pos 0;
    issuer = [];
  };
  wechat = record {
    component_app_id = [];
    component_app_secret = [];
    token = [];
    encoding_aes_key = [];
    server_url = codes "https://a";
  };
}

validate_lem_example : (validate manual_only ≡ []) ↔ IsComplete manual_only
validate_lem_example = validate_lem manual_only
