-- ===== src/Config.antt =====
-- internal/config/config.go: the checks of Validate and the expirations of tokens. The sections hold
-- the fields that these read; a duration is in nanoseconds.
mod Tests
use weiyeston.Base.{
  ℕ, ◌*◌, ◌^◌, Bool, true, false, ◌&&◌, not, List, [], ◌∷◌, ◌++◌, ℤ, pos, Text, text_eq, nat_eq,
  ◌==◌, ◌!=◌, if◌then◌else◌, length, String, ltb_ℤ, ◌≡◌, ◌≢◌, ◌↔◌, refl, arith, text_beq_iff, ◌⊎◌,
  inl, inr,
}

pub record JwtConfig : Type 0 where
  pub secret : Text
  pub expiration : ℤ
  pub access_expiration : ℤ
  pub refresh_expiration : ℤ
  pub issuer : Text

pub record WechatConfig : Type 0 where
  pub component_app_id : Text
  pub component_app_secret : Text
  pub token : Text
  pub encoding_aes_key : Text
  pub server_url : Text

pub record Config : Type 0 where
  pub database_host : Text
  pub redis_addr : Text
  pub jwt : JwtConfig
  pub wechat : WechatConfig

unfoldable pub get_access_expiration : JwtConfig → ℤ
get_access_expiration j =
    if ltb_ℤ (pos 0) j.access_expiration then j.access_expiration else j.expiration

abbrev pub week : ℤ
week = pos (7 * 24 * 3600 * 10 ^ 9)

unfoldable pub get_refresh_expiration : JwtConfig → ℤ
get_refresh_expiration j = if ltb_ℤ (pos 0) j.refresh_expiration then j.refresh_expiration else week

abbrev error_if : Bool → String → List String
error_if b msg = if b then msg ∷ [] else []

-- The checks that apply with a component_app_id only.
unfoldable pub validate_platform : WechatConfig → List String
validate_platform w =
    error_if (w.component_app_secret == [])
      "wechat.component_app_secret 是必填字段（已配置 component_app_id）"
    ++ (error_if (w.token == []) "wechat.token 是必填字段（已配置 component_app_id）"
        ++ (error_if (w.encoding_aes_key == [])
              "wechat.encoding_aes_key 是必填字段（已配置 component_app_id）"
            ++ error_if (length w.encoding_aes_key != 0 && length w.encoding_aes_key != 43)
                "wechat.encoding_aes_key 必须是 43 位字符串"))

-- The errors that Validate joins; it returns nil if there are none.
unfoldable pub validate : Config → List String
validate c =
    error_if (c.database_host == []) "database.host 是必填字段"
    ++ (error_if (c.jwt.secret == []) "jwt.secret 是必填字段"
        ++ (error_if (c.redis_addr == []) "redis.addr 是必填字段"
            ++ (error_if (c.wechat.server_url == []) "wechat.server_url 是必填字段"
                ++ (if c.wechat.component_app_id == [] then [] else validate_platform c.wechat))))

-- What a configuration needs for the authorization of accounts by the platform.
pub record IsPlatform (w : WechatConfig) : Type 0 where
  pub component_app_secret : w.component_app_secret ≢ []
  pub token : w.token ≢ []
  pub encoding_aes_key : length w.encoding_aes_key ≡ 43

pub record IsComplete (c : Config) : Type 0 where
  pub host : c.database_host ≢ []
  pub secret : c.jwt.secret ≢ []
  pub addr : c.redis_addr ≢ []
  pub server_url : c.wechat.server_url ≢ []
  pub platform : c.wechat.component_app_id ≢ [] → IsPlatform c.wechat

length_nil : (s : Text) → (length s ≡ 0) ↔ (s ≡ [])
length_nil [] = (λ h. refl, λ h. refl)
length_nil (c ∷ s) = (λ h. absurd (omega (arith, h)), λ h. cc)

validate_platform_lem : (w : WechatConfig) → (validate_platform w ≡ []) ↔ IsPlatform w
unfolding validate_platform
validate_platform_lem w = (
  λ h. record {
    component_app_secret = ground (arith, h, text_beq_iff w.component_app_secret []);
    token = ground (arith, h, text_beq_iff w.token []);
    encoding_aes_key =
        ground (arith, h, text_beq_iff w.encoding_aes_key [], length_nil w.encoding_aes_key);
  },
  λ k. ground (
    arith,
    k.component_app_secret,
    k.token,
    k.encoding_aes_key,
    text_beq_iff w.component_app_secret [],
    text_beq_iff w.token [],
    text_beq_iff w.encoding_aes_key [],
    length_nil w.encoding_aes_key,
  ),
)

-- Validate finds no error exactly in a configuration with a database host, a secret, a Redis address
-- and a server URL, and, if it names a component, with the component's secret and token and a key of
-- 43 bytes.
pub validate_lem : (c : Config) → (validate c ≡ []) ↔ IsComplete c
unfolding validate
validate_lem c = (
  λ h. record {
    host = ground (arith, h, text_beq_iff c.database_host []);
    secret = ground (arith, h, text_beq_iff c.jwt.secret []);
    addr = ground (arith, h, text_beq_iff c.redis_addr []);
    server_url = ground (arith, h, text_beq_iff c.wechat.server_url []);
    platform = λ named.
        let clean : validate_platform c.wechat ≡ [] =
          ground (arith, h, named, text_beq_iff c.wechat.component_app_id []) in
        (validate_platform_lem c.wechat).0 clean;
  },
  λ k.
      let clean : c.wechat.component_app_id ≢ [] → validate_platform c.wechat ≡ [] =
        λ named. (validate_platform_lem c.wechat).1 (k.platform named) in
      ground (
        arith,
        k.host,
        k.secret,
        k.addr,
        k.server_url,
        clean,
        text_beq_iff c.database_host [],
        text_beq_iff c.jwt.secret [],
        text_beq_iff c.redis_addr [],
        text_beq_iff c.wechat.server_url [],
        text_beq_iff c.wechat.component_app_id [],
      ),
)
