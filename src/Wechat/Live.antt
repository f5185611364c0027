-- ===== src/Wechat/Live.antt =====
-- internal/service/wechat/wechat.go where the server of Redis answers: a ticket gives a component
-- token, and a link to an authorization leads back to its tenant.
use weiyeston.Base.{
  ℕ, suc, ◌+◌, ◌*◌, ◌^◌, ◌<◌, ◌≤◌, Bool, true, false, none, some, [], ◌∷◌, ◌++◌, ℤ, Text, text_eq,
  ◌==◌, ◌≡◌, ◌≢◌, refl, ap, ◌∙◌, arith, if◌then◌else◌, pos_part, neg_part,
}
use weiyeston.Http.{Env, next, settle, ignore, or_fail, or_respond, reject}
use weiyeston.Http.Forward.{>>=-of-next, >>-of-next, or_fail-of-next, reject-of-false}
use weiyeston.Strconv.{format_int, parse_int}
use weiyeston.Strconv.RoundTrip.{parse_int-format_int}
use weiyeston.Config.{WechatConfig}
use weiyeston.Sql.{did}
use weiyeston.Redis.{Redis}
use weiyeston.Redis.Laws.{peek-set_same, get_held}
use weiyeston.Cache
use weiyeston.Cache.Runs.{is_filled, get_runs, set_runs}
use weiyeston.Wechat.{W, PlatformTables, error, attempt, save_ticket}
use weiyeston.Wechat.Tokens.{
  second, ticket_key, token_key, pre_auth_key, component_token, pre_auth_code, authorization_url,
  refresh_component_token, or_saved, or_refreshed, get_component_access_token,
  generate_pre_auth_url, resolve_tenant_from_pre_auth,
}
use weiyeston.Wechat.Events.{handle_component_verify_ticket}

component_token-filled : (now : ℕ) → component_token now ≢ []
component_token-filled now = λ e. absurd (cc e)

format_int-filled : (z : ℤ) → pos_part z < 2 ^ 63 → neg_part z ≤ 2 ^ 63 → format_int z ≢ []
unfolding parse_int
format_int-filled z h k e = absurd (cc (parse_int-format_int z h k, ap parse_int e))

module _ {C : Type 0} (redis : Redis C) (config : WechatConfig) (env : Env) where
  abbrev with_token : C → C
  with_token c =
      redis.set env.now (token_key config) (component_token env.now) (110 * 60 * second) c

  or_saved_runs :
      (w : W C) (ticket : Text)
      → ticket ≢ []
      → or_saved redis config env (some ticket) w ≡ next ticket w
  or_saved_runs w ticket n = rw (or_saved, is_filled ticket n) refl

  refresh_runs :
      (w : W C) (ticket : Text)
      → env.fails w.sent ≡ false
      → env.fails (suc w.sent) ≡ false
      → redis.get env.now (ticket_key config) w.store ≡ some ticket
      → ticket ≢ []
      → refresh_component_token redis config env w
        ≡ next tt (record w { store = with_token w.store; sent = suc (suc w.sent) })
  unfolding refresh_component_token
  refresh_runs w ticket up up' h n =
      >>=-of-next (Cache.get redis env (ticket_key config)) _ w
        (get_runs redis env w up (ticket_key config) ticket h)
      ∙ >>-of-next (or_saved redis config env (some ticket)) _ (record w { sent = suc w.sent })
          (or_saved_runs _ ticket n)
      ∙ >>-of-next
          (or_fail
            (Cache.set redis env (token_key config) (component_token env.now) (110 * 60 * second))
            (error "缓存 component_access_token 失败"))
          _ (record w { sent = suc w.sent })
          (or_fail-of-next
            (Cache.set redis env (token_key config) (component_token env.now) (110 * 60 * second))
            (error "缓存 component_access_token 失败") (record w { sent = suc w.sent })
            (set_runs redis env _ up' (token_key config) (component_token env.now)
              (110 * 60 * second)))

  -- The ticket may miss the database.
  save_runs :
      (app_id ticket : Text) (w : W C)
      → (t : PlatformTables) × (ignore (save_ticket env app_id ticket) w
          ≡ next tt (record w { tables = t; sent = suc w.sent }))
  unfolding save_ticket
  save_runs app_id ticket w = go (env.fails w.sent)
    where
      added : PlatformTables → PlatformTables
      added t = record t {
        tickets =
            t.tickets
            ++ record { component_appid = app_id; ticket = ticket; received_at = env.now } ∷ [];
      }

      go :
          (b : Bool)
          → (t : PlatformTables) × (ignore {D = Unit {0}}
                (λ (w : W C).
                  if b
                  then next none (record w { sent = suc w.sent })
                  else settle w (did (added w.tables)))
                w
              ≡ next tt (record w { tables = t; sent = suc w.sent }))
      go true = (w.tables, refl)
      go false = (added w.tables, refl)

  pub get_component_access_token_runs :
      (w : W C) (token : Text)
      → env.fails w.sent ≡ false
      → redis.get env.now (token_key config) w.store ≡ some token
      → token ≢ []
      → get_component_access_token redis config env w ≡ next token (record w { sent = suc w.sent })
  unfolding get_component_access_token or_refreshed
  get_component_access_token_runs w token up h n =
      >>=-of-next
        (or_fail (Cache.get redis env (token_key config)) (error "component_access_token")) _ w
        (or_fail-of-next (Cache.get redis env (token_key config)) (error "component_access_token") w
          (get_runs redis env w up (token_key config) token h))
      ∙ rw (or_refreshed, is_filled token n) refl

  ticket_runs :
      (w : W C) (ticket : Text)
      → env.fails w.sent ≡ false
      → env.fails (suc (suc w.sent)) ≡ false
      → env.fails (suc (suc (suc w.sent))) ≡ false
      → ticket ≢ []
      → (t : PlatformTables) × (handle_component_verify_ticket redis config env ticket w
          ≡ next tt (record {
            tables = t;
            sent = suc (suc (suc (suc w.sent)));
            store =
                with_token
                  (redis.set env.now (ticket_key config) ticket (15 * 60 * second) w.store);
          }))
  unfolding handle_component_verify_ticket
  ticket_runs w ticket up up' up'' n =
      let w' : W C = record w {
        store = redis.set env.now (ticket_key config) ticket (15 * 60 * second) w.store;
        sent = suc w.sent;
      } in
      let (t, saved) = save_runs config.component_app_id ticket w' in
      let w'' : W C = record w' { tables = t; sent = suc w'.sent } in
      let held =
        get_held redis env.now (ticket_key config) ticket _ w'.store
          (peek-set_same redis env.now (ticket_key config) ticket (15 * 60 * second) w.store)
          (omega arith) in
      (
        t,
        >>-of-next (ignore (Cache.set redis env (ticket_key config) ticket (15 * 60 * second))) _ w
              (ap (λ r. ignore (λ (w : W C). r) w)
                (set_runs redis env w up (ticket_key config) ticket (15 * 60 * second)))
            ∙ >>-of-next (ignore (save_ticket env config.component_app_id ticket)) _ w' saved
            ∙ ap (λ r. attempt (λ (w : W C). r) w'') (refresh_runs w'' ticket up' up'' held n),
      )

module _ {C : Type 0} (redis : Redis C) (config : WechatConfig) (env env' : Env) (w : W C) where
  -- When a ticket that is not empty comes in, while the server of Redis answers, the component has an
  -- access token: whether or not the ticket reaches the database, the handler ends without an error,
  -- and a call of GetComponentAccessToken that comes next, within 110 minutes, gives the token that was
  -- made of the time of the ticket.
  pub handle_component_verify_ticket-get_component_access_token :
      (ticket : Text)
      → ticket ≢ []
      → env.fails w.sent ≡ false
      → env.fails (suc (suc w.sent)) ≡ false
      → env.fails (suc (suc (suc w.sent))) ≡ false
      → env'.fails (suc (suc (suc (suc w.sent)))) ≡ false
      → env'.now ≤ env.now + 110 * 60 * second
      → (w' : W C) × (handle_component_verify_ticket redis config env ticket w ≡ next tt w')
        × (get_component_access_token redis config env' w'
            ≡ next (component_token env.now) (record w' { sent = suc w'.sent }))
  handle_component_verify_ticket-get_component_access_token ticket n up up' up'' up''' l =
      let (t, runs) = ticket_runs redis config env w ticket up up' up'' n in
      let held =
        get_held redis env'.now (token_key config) (component_token env.now) _ _
          (peek-set_same redis env.now (token_key config) (component_token env.now)
            (110 * 60 * second)
            (redis.set env.now (ticket_key config) ticket (15 * 60 * second) w.store))
          l in
      (
        _,
        runs,
        get_component_access_token_runs redis config env' _ (component_token env.now) up''' held
            (component_token-filled env.now),
      )

  -- Where the component has an access token and the server of Redis answers, GeneratePreAuthURL gives
  -- the link with a pre-authorization code of the tenant and the time, and resolveTenantFromPreAuth for
  -- this code, called next and within ten minutes, gives the same tenant back, for every tenant that is
  -- a signed integer of 64 bits.
  pub generate_pre_auth_url-resolve_tenant_from_pre_auth :
      (token : Text) (tenant_id : ℤ)
      → redis.get env.now (token_key config) w.store ≡ some token
      → token ≢ []
      → pos_part tenant_id < 2 ^ 63
      → neg_part tenant_id ≤ 2 ^ 63
      → env.fails w.sent ≡ false
      → env.fails (suc w.sent) ≡ false
      → env'.fails (suc (suc w.sent)) ≡ false
      → env'.now ≤ env.now + 10 * 60 * second
      → (w' : W C) × (generate_pre_auth_url redis config env tenant_id w
          ≡ next (authorization_url config (pre_auth_code env.now tenant_id)) w')
        × (resolve_tenant_from_pre_auth redis config env' (pre_auth_code env.now tenant_id) w'
            ≡ next tenant_id (record w' { sent = suc w'.sent }))
  unfolding generate_pre_auth_url resolve_tenant_from_pre_auth
  generate_pre_auth_url-resolve_tenant_from_pre_auth token tenant_id h n p q up up' up'' l =
      let code = pre_auth_code env.now tenant_id in
      let stored =
        Cache.set redis env (pre_auth_key code) (format_int tenant_id) (10 * 60 * second) in
      let held =
        get_held redis env'.now (pre_auth_key code) (format_int tenant_id) _ _
          (peek-set_same redis env.now (pre_auth_key code) (format_int tenant_id) (10 * 60 * second)
            w.store)
          l in
      let w' : W C = record w {
        store =
            redis.set env.now (pre_auth_key code) (format_int tenant_id) (10 * 60 * second) w.store;
        sent = suc (suc w.sent);
      } in
      (
        w',
        >>=-of-next (get_component_access_token redis config env) _ w
              (get_component_access_token_runs redis config env w token up h n)
            ∙ >>-of-next (reject (token == []) (error "component_access_token 为空，请检查微信第三方平台配置")) _ _
                (reject-of-false (token == []) _ _ (is_filled token n))
            ∙ >>-of-next (or_fail stored (error "缓存预授权关联失败")) _ _ (
                or_fail-of-next stored (error "缓存预授权关联失败") _ (
                  set_runs redis env (record w { sent = suc w.sent }) up' (pre_auth_key code)
                    (format_int tenant_id) (10 * 60 * second))),
        >>=-of-next (or_fail (Cache.get redis env' (pre_auth_key code)) (error "查询预授权关联失败")) _ w' (
              or_fail-of-next (Cache.get redis env' (pre_auth_key code)) (error "查询预授权关联失败") w'
                (get_runs redis env' w' up'' (pre_auth_key code) (format_int tenant_id) held))
            ∙ >>-of-next (reject (format_int tenant_id == []) (error "预授权码已过期或无效")) _ _ (
                reject-of-false (format_int tenant_id == []) _ _
                  (is_filled _ (format_int-filled tenant_id p q)))
            ∙ ap (λ o. or_respond o (error "预授权关联数据异常") (record w' { sent = suc w'.sent }))
                (parse_int-format_int tenant_id p q),
      )
