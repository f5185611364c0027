-- ===== src/Menu/Walk.antt =====
-- The handlers of internal/handler/api/menu.go, for an invariant of the table.
use weiyeston.Base.{
  ℕ, suc, Bool, true, false, Option, none, some, ℤ, pos, Text, int_eq, ◌==◌, ◌≡◌, refl,
  if◌then◌else◌, leb_ℤ, nat_eq,
}
use weiyeston.Middleware.{Value, int64, float64, text, other}
use weiyeston.Strconv.{parse_int}
use weiyeston.Http.{
  Env, Run, next, stop, statement, settle, after, ◌>>=◌, ◌>>◌, respond, or_respond, or_invalid,
  or_fail, require, reject, Response, success, Bound,
}
use weiyeston.Http.Keeps.{
  Keeps, On, Kept, Keeps-or_respond, Keeps-or_invalid, Keeps-require, Keeps->>=, Keeps->>,
  statement-On, after->>=,
}
use weiyeston.Menu.{
  WechatMenu, MenuTables, W, published, select_menu, insert_menu, update_menus, delete_menus,
  get_by_account_id, create_menu, update_menu, soft_delete_menu,
}
use weiyeston.Menu.Handlers.{
  MenuVo, H, bad_id, bad_request, not_found, server_error, new_menu, get_tenant_id_menu, account_of,
  get_menu, save, save_draft, as_published, publish, delete_draft, show, to_menu_vo,
}

-- A handler's query and what it does with the menu that the tables then have.
query-On :
    (J : MenuTables → Type 0) (env : Env) (account_id : ℤ) (r : Response MenuVo)
    (f : Option WechatMenu → H (Unit {0})) (w : W)
    → J w.tables
    → ((t : W) → J t.tables → On J (after (f (select_menu account_id t.tables) t)))
    → On J (after ((or_fail (get_by_account_id env account_id) r >>= f) w))
unfolding get_by_account_id
query-On J env account_id r f w h k = go (leb_ℤ account_id (pos 0)) (env.fails w.sent)
  where
    go :
        (b c : Bool)
        → On J (
            after (
              (or_fail
                    (λ (w : W).
                      if b
                      then next none w
                      else if c
                      then next none (record w { sent = suc w.sent })
                      else settle w (some (select_menu account_id w.tables, w.tables)))
                    r
                  >>= f)
                w))
    go true c = h
    go false true = h
    go false false = k (record w { sent = suc w.sent }) h

-- What the statements are to keep, each where a handler sends it.
pub record KeptByMenus (J : MenuTables → Type 0) : Type 0 where
  pub inserted :
      (now : ℕ) (account_id : ℤ) (menu_json : Text) (t : MenuTables)
      → select_menu account_id t ≡ none
      → J t
      → Kept J (insert_menu now (new_menu account_id menu_json) t)
  pub rewrote :
      (now : ℕ) (account_id : ℤ) (old m : WechatMenu) (t : MenuTables)
      → select_menu account_id t ≡ some old
      → m.id ≡ old.id
      → (old.status ≡ published → m.status ≡ published)
      → J t
      → Kept J (update_menus now m t)
  pub discarded :
      (now : ℕ) (account_id : ℤ) (m : WechatMenu) (t : MenuTables)
      → select_menu account_id t ≡ some m
      → (m.status == published) ≡ false
      → J t
      → Kept J (delete_menus now m.id t)

module _ (J : MenuTables → Type 0) (laws : KeptByMenus J) (env : Env) where
  tenant-Keeps : (tenant : Option Value) → Keeps (On J) (get_tenant_id_menu tenant)
  tenant-Keeps none w h = h
  tenant-Keeps (some (int64 v)) w h = h
  tenant-Keeps (some (float64 v)) w h = h
  tenant-Keeps (some (text v)) w h = h
  tenant-Keeps (some other) w h = h

  account_of-Keeps : (param : Text) (tenant : Option Value) → Keeps (On J) (account_of param tenant)
  account_of-Keeps param tenant =
      Keeps->>= (On J) (or_respond (parse_int param) bad_id) _
        (Keeps-or_respond (On J) (parse_int param) bad_id)
        λ id. Keeps->>= (On J) (get_tenant_id_menu tenant) _ (tenant-Keeps tenant) λ _. λ w h. h

  -- Rewriting the row that a query found, under a status that keeps a published one.
  update_menu-On :
      (account_id : ℤ) (m old : WechatMenu) (t : W)
      → select_menu account_id t.tables ≡ some old
      → m.id ≡ old.id
      → (old.status ≡ published → m.status ≡ published)
      → J t.tables
      → On J (after (update_menu {D = MenuVo} env m t))
  unfolding update_menu
  update_menu-On account_id m old t e i s h =
      after->>= (On J) (On J) (statement env (update_menus env.now m)) _ t
        (statement-On MenuVo J env (update_menus env.now m) t h
          (laws.rewrote env.now account_id old m t.tables e i s h))
        (λ u k. k) λ _ u k. k

  -- A query whose error ends the handler, and the response after it.
  last-On :
      {A : Type 0}
      → (m : H (Option A)) (r : Response MenuVo) (f : A → W → Run W MenuVo (Unit {0})) (t : W)
      → On J (after (m t))
      → ((a : A) → Keeps (On J) (f a))
      → On J (after ((or_fail m r >>= f) t))
  last-On {A = A} m r f t h k = go (m t) h
    where
      go :
          (x : Run W MenuVo (Option A))
          → On J (after x)
          → On J (after ((or_fail (λ (w : W). x) r >>= f) t))
      go (next none u) h = h
      go (next (some a) u) h = k a u h
      go (stop q u) h = h

  save-On :
      (account_id : ℤ) (menu_json : Text) (o : Option WechatMenu) (t : W)
      → select_menu account_id t.tables ≡ o
      → J t.tables
      → On J (after (save env account_id menu_json o t))
  unfolding save create_menu
  save-On account_id menu_json none t e h =
      last-On (create_menu env (new_menu account_id menu_json)) _ _ t
        (statement-On MenuVo J env (insert_menu env.now (new_menu account_id menu_json)) t h
          (laws.inserted env.now account_id menu_json t.tables e h))
        λ m u k. k
  save-On account_id menu_json (some old) t e h =
      last-On (update_menu env (record old { menu_json = menu_json })) _ (λ _ u. respond _ u) t
        (update_menu-On account_id (record old { menu_json = menu_json }) old t e refl (λ p. p) h)
        λ _ u k. k

  publish-On :
      (account_id : ℤ) (o : Option WechatMenu) (t : W)
      → select_menu account_id t.tables ≡ o
      → J t.tables
      → On J (
          after (
            (or_respond o (bad_request "请先保存菜单草稿") >>= (λ menu.
                or_fail (update_menu env (as_published env menu)) (server_error "发布菜单失败")
                >> respond {A = Unit {0}}
                    (success 200 "菜单已发布" (some (to_menu_vo (as_published env menu))))))
              t))
  publish-On account_id none t e h = h
  publish-On account_id (some m) t e h =
      last-On (update_menu env (as_published env m)) _ (λ _ u. respond _ u) t
        (update_menu-On account_id (as_published env m) m t e refl (λ p. refl) h) λ _ u k. k

  soft_delete_menu-On :
      (account_id : ℤ) (m : WechatMenu) (t : W)
      → select_menu account_id t.tables ≡ some m
      → (m.status == published) ≡ false
      → J t.tables
      → On J (after (soft_delete_menu {D = MenuVo} env m.id t))
  unfolding soft_delete_menu
  soft_delete_menu-On account_id m t e d h =
      after->>= (On J) (On J) (statement env (delete_menus env.now m.id)) _ t
        (statement-On MenuVo J env (delete_menus env.now m.id) t h
          (laws.discarded env.now account_id m t.tables e d h))
        (λ u k. k) λ _ u k. k

  discard : WechatMenu → H (Unit {0})
  discard menu = do
    deleted ← or_fail (soft_delete_menu env menu.id) (server_error "删除失败")
    require deleted (not_found "菜单不存在或已删除")
    respond (success 200 "已删除" none)

  discard-On :
      (account_id : ℤ) (m : WechatMenu) (t : W)
      → select_menu account_id t.tables ≡ some m
      → (b : Bool) → (m.status == published) ≡ b
      → J t.tables
      → On J (after ((reject b (bad_request "已发布的菜单不能直接删除，请先取消发布") >> discard m) t))
  unfolding discard
  discard-On account_id m t e true d h = h
  discard-On account_id m t e false d h =
      last-On (soft_delete_menu env m.id) _ _ t (soft_delete_menu-On account_id m t e d h) λ done.
        Keeps->> (On J) (require done (not_found "菜单不存在或已删除")) _ (Keeps-require (On J) done _)
          λ u k. k

  delete-On :
      (account_id : ℤ) (o : Option WechatMenu) (t : W)
      → select_menu account_id t.tables ≡ o
      → J t.tables
      → On J (
          after (
            (or_respond o (not_found "菜单不存在") >>= (λ menu.
                reject (menu.status == published) (bad_request "已发布的菜单不能直接删除，请先取消发布")
                >> discard menu))
              t))
  delete-On account_id none t e h = h
  delete-On account_id (some m) t e h = discard-On account_id m t e (m.status == published) refl h

  pub get_menu-Keeps :
      (param : Text) (tenant : Option Value) → Keeps (On J) (get_menu env param tenant)
  unfolding get_menu
  get_menu-Keeps param tenant =
      Keeps->>= (On J) (account_of param tenant) _ (account_of-Keeps param tenant) λ account_id.
        λ w h.
          query-On J env account_id (server_error "查询菜单失败") _ w h
            λ t k. show-On (select_menu account_id t.tables) t k
    where
      show-On : (o : Option WechatMenu) (t : W) → J t.tables → On J (after (show env o t))
      show-On none t h = h
      show-On (some m) t h = h

  pub save_draft-Keeps :
      (param : Text) (tenant : Option Value) (body : Bound Text)
      → Keeps (On J) (save_draft env param tenant body)
  unfolding save_draft
  save_draft-Keeps param tenant body =
      Keeps->>= (On J) (account_of param tenant) _ (account_of-Keeps param tenant) λ account_id.
        Keeps->>= (On J) (or_invalid body (bad_request "参数错误: ")) _ (Keeps-or_invalid (On J) body _)
          λ menu_json. λ w h.
            query-On J env account_id (server_error "服务器内部错误") _ w h
              λ t k. save-On account_id menu_json (select_menu account_id t.tables) t refl k

  pub publish-Keeps :
      (param : Text) (tenant : Option Value) → Keeps (On J) (publish env param tenant)
  unfolding publish
  publish-Keeps param tenant =
      Keeps->>= (On J) (account_of param tenant) _ (account_of-Keeps param tenant) λ account_id.
        λ w h.
          query-On J env account_id (server_error "查询菜单失败") _ w h
            λ t k. publish-On account_id (select_menu account_id t.tables) t refl k

  pub delete_draft-Keeps :
      (param : Text) (tenant : Option Value) → Keeps (On J) (delete_draft env param tenant)
  unfolding delete_draft discard
  delete_draft-Keeps param tenant =
      Keeps->>= (On J) (account_of param tenant) _ (account_of-Keeps param tenant) λ account_id.
        λ w h.
          query-On J env account_id (server_error "查询菜单失败") _ w h
            λ t k. delete-On account_id (select_menu account_id t.tables) t refl k
