-- ===== src/Account/Apart.antt =====
-- The handlers of internal/handler/api/account.go and the accounts of the other tenants.
use weiyeston.Base.{
  ℕ, Bool, true, false, ◌&&◌, ◌||◌, Option, none, some, is_some, get_or, List, ℤ, pos, Text, int_eq,
  ◌==◌, if◌then◌else◌, ◌≡◌, refl, sym, subst,
}
use weiyeston.Strings.{has_prefix}
use weiyeston.Middleware.{int64}
use weiyeston.Strconv.{parse_int}
use weiyeston.Http.{
  Env, after, ◌>>=◌, pure, or_respond, or_invalid, or_fail, require, reject, Bound,
}
use weiyeston.Http.Keeps.{
  Keeps, On, Keeps-or_respond, Keeps-or_invalid, Keeps-or_fail, Keeps-require, Keeps-reject,
  Keeps->>=, Keeps->>, Keeps-statement,
}
use weiyeston.Account.{WechatAccount, AccountTables}
use weiyeston.Account.Repo.{
  W, create, get_by_app_id_and_tenant, update, soft_delete_with_return, insert_account,
}
use weiyeston.Account.Views.{Payload, CreateAccountRequest, UpdateAccountRequest, safe_string}
use weiyeston.Account.Handlers.{
  H, Outside, bad_request, not_found, server_error, bad_gateway, wx, get_account, check_app_id,
  refresh_token, with_changes, is_changed, expiry, new_account, create_account, change_account,
  update_account, delete_account, get_auth_status,
}
use weiyeston.Account.Rows.{IsApart, IsMine, insert_account-IsApart}
use weiyeston.Account.Walk.{
  Mine, own_account-On, update-Mine, soft_delete-Mine, by_app_id-Keeps, check_app_id-Keeps,
}

module _ (env : Env) (tenant_id : ℤ) (others : List WechatAccount) where
  abbrev Apart : AccountTables → Type 0
  Apart = IsApart tenant_id others

  pub get_account-Keeps :
      (param : Text) → Keeps (On Apart) (get_account env param (some (int64 tenant_id)))
  unfolding get_account
  get_account-Keeps param =
      Keeps->>= (On Apart) (or_respond (parse_int param) _) _
        (Keeps-or_respond (On Apart) (parse_int param) _)
        λ id. λ w h. own_account-On env tenant_id others _ id _ w h λ a t i m j. j

  pub get_auth_status-Keeps :
      (param : Text) → Keeps (On Apart) (get_auth_status env param (some (int64 tenant_id)))
  unfolding get_auth_status
  get_auth_status-Keeps param =
      Keeps->>= (On Apart) (or_respond (parse_int param) _) _
        (Keeps-or_respond (On Apart) (parse_int param) _)
        λ id. λ w h. own_account-On env tenant_id others _ id _ w h λ a t i m j. j

  pub delete_account-Keeps :
      (outside : Outside) (param : Text)
      → Keeps (On Apart) (delete_account outside env param (some (int64 tenant_id)))
  unfolding delete_account
  delete_account-Keeps outside param =
      Keeps->>= (On Apart) (or_respond (parse_int param) _) _
        (Keeps-or_respond (On Apart) (parse_int param) _)
        λ id. λ w h. own_account-On env tenant_id others _ id _ w h λ a t i m j.
          (Keeps->>= (On (Mine env tenant_id others id))
            (or_fail (soft_delete_with_return env id) (server_error "删除失败")) _
            (Keeps-or_fail (On (Mine env tenant_id others id)) (soft_delete_with_return env id) _
              (soft_delete-Mine env tenant_id others id))
            (λ done.
              Keeps->> (On (Mine env tenant_id others id)) (require done (not_found "公众号不存在或已删除")) _
                (Keeps-require (On (Mine env tenant_id others id)) done _) (λ u k. k))
            t (j, m)).0

  -- The account with its new token is the same account.
  refresh_token-Keeps :
      (K : AccountTables → Type 0) (outside : Outside) (req : UpdateAccountRequest)
      (a : WechatAccount) (f : WechatAccount → H (Unit {0}))
      → ((b : WechatAccount) → b.id ≡ a.id → Keeps (On K) (f b))
      → Keeps (On K) (refresh_token outside env req a >>= f)
  unfolding refresh_token
  refresh_token-Keeps K outside req a f k w h =
      go (is_changed req.wx_app_id a.wx_app_id || is_changed req.wx_app_secret a.wx_app_secret) (
        outside.fetch_token (get_or req.wx_app_id (safe_string a.wx_app_id))
          (get_or req.wx_app_secret (safe_string a.wx_app_secret)))
    where
      go :
          (b : Bool) (fetched : Option (Text × ℕ))
          → On K (
              after (
                ((λ (w : W).
                      (if b
                          then (or_respond fetched bad_gateway >>= (λ token. pure (record a {
                            access_token = some token.0;
                            token_expire_at = some (expiry env.now token.1);
                          })))
                          else pure a)
                        w)
                    >>= f)
                  w))
      go false fetched = k a refl w h
      go true none = h
      go true (some token) =
          k
            (record a {
              access_token = some token.0;
              token_expire_at = some (expiry env.now token.1);
            })
            refl w h

  change_account-Keeps :
      (outside : Outside) (id : ℤ) (body : Bound UpdateAccountRequest) (a : WechatAccount)
      → Keeps (On (Mine env tenant_id others a.id)) (change_account outside env id tenant_id body a)
  unfolding change_account
  change_account-Keeps outside id body a =
      let K = Mine env tenant_id others a.id in
      Keeps->>= (On K) (or_invalid body (bad_request "参数错误: ")) _ (Keeps-or_invalid (On K) body _)
        λ req.
          Keeps->> (On K)
            (reject (a.auth_type == pos 2 && (is_some req.wx_app_id || is_some req.wx_app_secret))
              _)
            _ (Keeps-reject (On K) _ _)
            (Keeps->> (On K) (check_app_id env id tenant_id a req.wx_app_id) _
              (check_app_id-Keeps env tenant_id others K id a req.wx_app_id)
              (refresh_token-Keeps K outside req a _ λ b i.
                Keeps->> (On K) (or_fail (update env (with_changes req b)) (server_error "更新公众号失败"))
                  _
                  (Keeps-or_fail (On K) (update env (with_changes req b)) _ (
                    subst
                      (λ n.
                        Keeps {D = Payload} (On (Mine env tenant_id others n))
                          (update env (with_changes req b)))
                      i (update-Mine env tenant_id others (with_changes req b))))
                  λ w h. h))

  pub update_account-Keeps :
      (outside : Outside) (param : Text) (body : Bound UpdateAccountRequest)
      → Keeps (On Apart) (update_account outside env param (some (int64 tenant_id)) body)
  unfolding update_account
  update_account-Keeps outside param body =
      Keeps->>= (On Apart) (or_respond (parse_int param) _) _
        (Keeps-or_respond (On Apart) (parse_int param) _)
        λ id. λ w h. own_account-On env tenant_id others _ id _ w h λ a t i m j.
          (change_account-Keeps outside id body a t
            (j, subst (λ n. IsMine tenant_id n t.tables) (sym i) m)).0

  pub create_account-Keeps :
      (outside : Outside) (body : Bound CreateAccountRequest)
      → Keeps (On Apart) (create_account outside env (some (int64 tenant_id)) body)
  unfolding create_account create
  create_account-Keeps outside body =
      Keeps->>= (On Apart) (or_invalid body (bad_request "参数错误: ")) _
        (Keeps-or_invalid (On Apart) body _)
        λ req.
          Keeps->> (On Apart) (require (has_prefix wx req.wx_app_id) _) _
            (Keeps-require (On Apart) _ _)
            (Keeps->>= (On Apart)
              (or_fail (get_by_app_id_and_tenant env req.wx_app_id tenant_id)
                (server_error "服务器内部错误"))
              _
              (Keeps-or_fail (On Apart) (get_by_app_id_and_tenant env req.wx_app_id tenant_id) _
                (by_app_id-Keeps env tenant_id others Apart req.wx_app_id))
              λ existing.
                Keeps->> (On Apart) (reject (is_some existing) _) _ (Keeps-reject (On Apart) _ _) (
                  Keeps->>= (On Apart)
                    (or_respond (outside.fetch_token req.wx_app_id req.wx_app_secret) bad_gateway) _
                    (Keeps-or_respond (On Apart) _ _)
                    λ fetched.
                      Keeps->>= (On Apart)
                        (or_fail
                          (create env
                            (new_account tenant_id req fetched.0 (expiry env.now fetched.1)))
                          (server_error "创建公众号失败"))
                        _
                        (Keeps-or_fail (On Apart)
                          (create env
                            (new_account tenant_id req fetched.0 (expiry env.now fetched.1)))
                          _
                          (Keeps-statement Payload Apart env
                            (insert_account env.now
                              (new_account tenant_id req fetched.0 (expiry env.now fetched.1)))
                            λ t h. insert_account-IsApart tenant_id others env.now _ t refl h))
                        λ _. λ w h. h))
