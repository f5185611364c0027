-- ===== src/Menu/Handlers.antt =====
-- The handlers of internal/handler/api/menu.go.
use weiyeston.Base.{Option, none, some, ℤ, pos, Text, int_eq, ◌==◌, if◌then◌else◌, String, ℕ}
use weiyeston.Http.{
  Env, Run, ◌>>=◌, ◌>>◌, pure, respond, or_respond, or_invalid, or_fail, require, reject, Response,
  success, failure, Bound,
}
use weiyeston.Strconv.{parse_int}
use weiyeston.Middleware.{Value, int64, float64}
use weiyeston.Menu.{
  WechatMenu, W, draft, published, get_by_account_id, create_menu, update_menu, soft_delete_menu,
}

pub record MenuVo : Type 0 where
  pub id : ℤ
  pub account_id : ℤ
  pub menu_json : Text
  pub status : ℤ
  pub status_text : String
  pub published_at : Option ℕ
  pub updated_at : ℕ

unfoldable pub to_menu_vo : WechatMenu → MenuVo
to_menu_vo m = record {
  id = m.id;
  account_id = m.account_id;
  menu_json = m.menu_json;
  status = m.status;
  status_text = if m.status == published then "已发布" else "草稿";
  published_at = m.published_at;
  updated_at = m.updated_at;
}

abbrev pub H : Type 0 → Type 0
H A = W → Run W MenuVo A

abbrev pub bad_request : String → Response MenuVo
bad_request = failure 400 40001

abbrev pub not_found : String → Response MenuVo
not_found = failure 404 40401

abbrev pub server_error : String → Response MenuVo
server_error = failure 500 50001

abbrev pub bad_id : Response MenuVo
bad_id = bad_request "无效的公众号 ID"

-- The fields that SaveDraft leaves to the database are Go's zero values.
abbrev pub new_menu : ℤ → Text → WechatMenu
new_menu account_id menu_json = record {
  id = pos 0;
  account_id = account_id;
  menu_json = menu_json;
  status = draft;
  published_at = none;
  deleted_at = none;
  created_at = 0;
  updated_at = 0;
}

abbrev pub get_tenant_id_menu : Option Value → H ℤ
get_tenant_id_menu (some (int64 v)) = pure v
get_tenant_id_menu (some (float64 v)) = pure v
get_tenant_id_menu (some _) = respond (bad_request "无效的租户信息")
get_tenant_id_menu none = respond (failure 401 401 "未授权访问")

-- The two guards with which each handler starts.
abbrev pub account_of : Text → Option Value → H ℤ
account_of param tenant = do
  account_id ← or_respond (parse_int param) bad_id
  _ ← get_tenant_id_menu tenant
  pure account_id

module _ (env : Env) where
  abbrev pub show : Option WechatMenu → H (Unit {0})
  show none = respond (success 200 "ok" none)
  show (some m) = respond (success 200 "ok" (some (to_menu_vo m)))

  unfoldable pub get_menu : Text → Option Value → H (Unit {0})
  get_menu param tenant = do
    account_id ← account_of param tenant
    menu ← or_fail (get_by_account_id env account_id) (server_error "查询菜单失败")
    show menu

  -- The row that the account has, whatever its status, or a new draft.
  unfoldable pub save : ℤ → Text → Option WechatMenu → H (Unit {0})
  save account_id menu_json (some old) = do
    or_fail (update_menu env (record old { menu_json = menu_json })) (server_error "更新菜单草稿失败")
    respond (success 200 "草稿已更新" (some (to_menu_vo (record old { menu_json = menu_json }))))
  save account_id menu_json none = do
    m ← or_fail (create_menu env (new_menu account_id menu_json)) (server_error "创建菜单草稿失败")
    respond (success 201 "草稿已保存" (some (to_menu_vo m)))

  unfoldable pub save_draft : Text → Option Value → Bound Text → H (Unit {0})
  save_draft param tenant body = do
    account_id ← account_of param tenant
    menu_json ← or_invalid body (bad_request "参数错误: ")
    existing ← or_fail (get_by_account_id env account_id) (server_error "服务器内部错误")
    save account_id menu_json existing

  abbrev pub as_published : WechatMenu → WechatMenu
  as_published m = record m { status = published; published_at = some env.now }

  unfoldable pub publish : Text → Option Value → H (Unit {0})
  publish param tenant = do
    account_id ← account_of param tenant
    found ← or_fail (get_by_account_id env account_id) (server_error "查询菜单失败")
    menu ← or_respond found (bad_request "请先保存菜单草稿")
    or_fail (update_menu env (as_published menu)) (server_error "发布菜单失败")
    respond (success 200 "菜单已发布" (some (to_menu_vo (as_published menu))))

  unfoldable pub delete_draft : Text → Option Value → H (Unit {0})
  delete_draft param tenant = do
    account_id ← account_of param tenant
    found ← or_fail (get_by_account_id env account_id) (server_error "查询菜单失败")
    menu ← or_respond found (not_found "菜单不存在")
    reject (menu.status == published) (bad_request "已发布的菜单不能直接删除，请先取消发布")
    deleted ← or_fail (soft_delete_menu env menu.id) (server_error "删除失败")
    require deleted (not_found "菜单不存在或已删除")
    respond (success 200 "已删除" none)
