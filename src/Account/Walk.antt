-- ===== src/Account/Walk.antt =====
-- The parts that the handlers of internal/handler/api/account.go share, for an invariant of the tables.
use weiyeston.Base.{
  suc, Bool, true, false, ◌&&◌, Option, none, some, List, [], ℤ, pos, Text, text_eq, int_eq, ◌==◌,
  ◌!=◌, if◌then◌else◌, String, find, leb_ℤ, ◌≡◌, refl, int_beq_iff,
}
use weiyeston.Strings.{has_prefix}
use weiyeston.Http.{
  Env, next, statement, settle, after, ◌>>=◌, ◌>>◌, pure, or_respond, or_fail, require, reject,
}
use weiyeston.Http.Keeps.{
  Keeps, On, Kept-both, Keeps-or_fail, Keeps-require, Keeps-reject, Keeps->>=, Keeps->>,
  Keeps-statement,
}
use weiyeston.Account.{WechatAccount, AccountTables, is_live, is_text, is_manual}
use weiyeston.Account.Repo.{
  W, query, get_by_id, get_by_app_id_and_tenant, update, soft_delete_with_return, update_live,
  rewritten, deleted,
}
use weiyeston.Account.Views.{Payload, safe_string}
use weiyeston.Account.Handlers.{
  H, bad_request, not_found, forbidden, conflict, server_error, wx, own_account, check_app_id,
  is_other,
}
use weiyeston.Account.Rows.{IsApart, IsMine, find-IsMine, update_live-IsApart, update_live-IsMine}

module _ (env : Env) (tenant_id : ℤ) (others : List WechatAccount) where
  abbrev pub J : AccountTables → Type 0
  J = IsApart tenant_id others

  query-Keeps :
      {A : Type 0}
      → (K : AccountTables → Type 0) (f : List WechatAccount → A)
      → Keeps {D = Payload} (On K) (query env f)
  query-Keeps K f = Keeps-statement Payload K env (λ t. some (f t.accounts, t)) (λ t h. h)

  pub own_account-On :
      (refusal : String) (id : ℤ) (f : WechatAccount → H (Unit {0})) (w : W)
      → J w.tables
      → ((a : WechatAccount) (t : W)
          → a.id ≡ id
          → IsMine tenant_id id t.tables
          → J t.tables
          → On J (after (f a t)))
      → On J (after ((own_account env refusal id tenant_id >>= f) w))
  unfolding own_account get_by_id
  own_account-On refusal id f w h k = go (leb_ℤ id (pos 0)) (env.fails w.sent)
    where
      granted :
          (a : WechatAccount) (t : W) (b : Bool)
          → find (is_live id) t.tables.accounts ≡ some a
          → (a.tenant_id == tenant_id) ≡ b
          → J t.tables
          → On J (after (((require b (forbidden refusal) >> pure a) >>= f) t))
      granted a t false e o j = j
      granted a t true e o j =
          let (ids, mine) =
            find-IsMine tenant_id id a t.tables j.unique e
              ((int_beq_iff a.tenant_id tenant_id).0 o) in
          k a t ids mine j

      found :
          (o : Option WechatAccount) (t : W)
          → find (is_live id) t.tables.accounts ≡ o
          → J t.tables
          → On J (
              after (
                ((or_respond o (not_found "公众号不存在")
                      >>= (λ a. require (a.tenant_id == tenant_id) (forbidden refusal) >> pure a))
                    >>= f)
                  t))
      found none t e j = j
      found (some a) t e j = granted a t (a.tenant_id == tenant_id) e refl j

      go :
          (b c : Bool)
          → On J (
              after (
                ((or_fail
                        (λ (w : W).
                          if b
                          then next none w
                          else if c
                          then next none (record w { sent = suc w.sent })
                          else settle w (some (find (is_live id) w.tables.accounts, w.tables)))
                        (server_error "查询公众号失败")
                      >>= (λ o. or_respond o (not_found "公众号不存在") >>= (λ a.
                          require (a.tenant_id == tenant_id) (forbidden refusal) >> pure a)))
                    >>= f)
                  w))
      go true c = h
      go false true = h
      go false false =
          found (find (is_live id) w.tables.accounts) (record w { sent = suc w.sent }) refl h

  -- The tenant's part of the tables: the rows of the others, and that the rows with an id are its own.
  abbrev pub Mine : ℤ → AccountTables → Type 0
  Mine id t = J t × IsMine tenant_id id t

  update_live-Mine :
      (id : ℤ) (change : WechatAccount → WechatAccount)
      → ((x : WechatAccount) → (change x).id ≡ x.id)
      → ((x : WechatAccount) → (change x).tenant_id ≡ x.tenant_id)
      → Keeps {D = Payload}
          (On {C = List (Text × Text)} (Mine id))
          (statement env (update_live env.now id change))
  update_live-Mine id change i o =
      Keeps-statement Payload (Mine id) env (update_live env.now id change) λ t h.
        Kept-both J (IsMine tenant_id id) (update_live env.now id change t)
          (update_live-IsApart tenant_id others env.now id change t i o h.1 h.0)
          (update_live-IsMine tenant_id others env.now id change t i o h.1)

  pub update-Mine : (a : WechatAccount) → Keeps {D = Payload} (On (Mine a.id)) (update env a)
  unfolding update
  update-Mine a =
      Keeps->>= (On (Mine a.id)) (statement env (update_live env.now a.id (rewritten env.now a))) _
        (update_live-Mine a.id (rewritten env.now a) (λ x. refl) (λ x. refl)) λ _. λ w h. h

  pub soft_delete-Mine :
      (id : ℤ) → Keeps {D = Payload} (On (Mine id)) (soft_delete_with_return env id)
  unfolding soft_delete_with_return
  soft_delete-Mine id =
      Keeps->>= (On (Mine id)) (statement env (update_live env.now id (deleted env.now))) _
        (update_live-Mine id (deleted env.now) (λ x. refl) (λ x. refl)) λ _. λ w h. h

  -- A query by AppId and tenant changes no row.
  pub by_app_id-Keeps :
      (K : AccountTables → Type 0) (app_id : Text)
      → Keeps {D = Payload} (On K) (get_by_app_id_and_tenant env app_id tenant_id)
  unfolding get_by_app_id_and_tenant
  by_app_id-Keeps K app_id w h = go (app_id == [])
    where
      go :
          (b : Bool)
          → On K (
              after {D = Payload} (
                if b
                then next none w
                else query env
                    (find
                      (λ a. is_text app_id a.wx_app_id && a.tenant_id == tenant_id && is_manual a))
                    w))
      go true = h
      go false =
          query-Keeps K
            (find (λ a. is_text app_id a.wx_app_id && a.tenant_id == tenant_id && is_manual a)) w h

  pub check_app_id-Keeps :
      (K : AccountTables → Type 0) (id : ℤ) (a : WechatAccount) (app_id : Option Text)
      → Keeps (On K) (check_app_id env id tenant_id a app_id)
  unfolding check_app_id
  check_app_id-Keeps K id a none = λ w h. h
  check_app_id-Keeps K id a (some app_id) = λ w h. go (app_id != safe_string a.wx_app_id) w h
    where
      go :
          (b : Bool)
          → Keeps (On K) (λ (w : W).
            (if b
                then (require (has_prefix wx app_id) (bad_request "AppId 必须以 wx 开头")
                    >> (or_fail
                          (get_by_app_id_and_tenant env app_id tenant_id)
                          (server_error "服务器内部错误")
                        >>= (λ existing.
                            reject (is_other id existing) (conflict "该 AppId 已被其他公众号绑定"))))
                else pure tt)
              w)
      go false = λ w h. h
      go true =
          Keeps->> (On K) (require (has_prefix wx app_id) _) _
            (Keeps-require (On K) (has_prefix wx app_id) _)
            (Keeps->>= (On K) (or_fail (get_by_app_id_and_tenant env app_id tenant_id) _) _
              (Keeps-or_fail (On K) (get_by_app_id_and_tenant env app_id tenant_id) _
                (by_app_id-Keeps K app_id))
              λ existing. Keeps-reject (On K) (is_other id existing) _)
