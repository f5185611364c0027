-- ===== src/Reply/Handlers.antt =====
-- The handlers of internal/handler/api/reply.go. They read the tenant of the context and make no use
-- of it.
use weiyeston.Base.{
  Option, none, some, List, map, ℤ, pos, Text, int_eq, ◌==◌, get_or, String, if◌then◌else◌,
}
use weiyeston.Strconv.{parse_int}
use weiyeston.Middleware.{Value, int64, float64}
use weiyeston.Http.{
  Env, Run, ◌>>=◌, ◌>>◌, pure, respond, or_respond, or_invalid, or_fail, require, Response, success,
  failure, Bound,
}
use weiyeston.Reply.{AutoReplyRule, W, list_by_account_id, get_by_id, create, update, soft_delete}

pub record CreateReplyRequest : Type 0 where
  pub keyword : Option Text
  pub match_type : ℤ
  pub reply_type : ℤ
  pub reply_content : Text
  pub reply_title : Option Text
  pub reply_desc : Option Text
  pub reply_cover_url : Option Text
  pub reply_url : Option Text
  pub status : ℤ
  pub sort_order : ℤ

pub record UpdateReplyRequest : Type 0 where
  pub keyword : Option Text
  pub match_type : Option ℤ
  pub reply_type : Option ℤ
  pub reply_content : Option Text
  pub reply_title : Option Text
  pub reply_desc : Option Text
  pub reply_cover_url : Option Text
  pub reply_url : Option Text
  pub status : Option ℤ
  pub sort_order : Option ℤ

-- The rule without its times.
pub record ReplyVo : Type 0 where
  pub id : ℤ
  pub account_id : ℤ
  pub keyword : Option Text
  pub match_type : ℤ
  pub reply_type : ℤ
  pub reply_content : Text
  pub reply_title : Option Text
  pub reply_desc : Option Text
  pub reply_cover_url : Option Text
  pub reply_url : Option Text
  pub status : ℤ
  pub sort_order : ℤ

pub data ReplyData : Type 0 where
  reply_vo : ReplyVo → ReplyData
  reply_list : List ReplyVo → ReplyData

abbrev pub to_reply_vo : AutoReplyRule → ReplyVo
to_reply_vo r = record {
  id = r.id;
  account_id = r.account_id;
  keyword = r.keyword;
  match_type = r.match_type;
  reply_type = r.reply_type;
  reply_content = r.reply_content;
  reply_title = r.reply_title;
  reply_desc = r.reply_desc;
  reply_cover_url = r.reply_cover_url;
  reply_url = r.reply_url;
  status = r.status;
  sort_order = r.sort_order;
}

abbrev pub H : Type 0 → Type 0
H A = W → Run W ReplyData A

abbrev pub bad_request : String → Response ReplyData
bad_request = failure 400 40001

abbrev pub not_found : String → Response ReplyData
not_found = failure 404 40401

abbrev pub server_error : String → Response ReplyData
server_error = failure 500 50001

abbrev pub get_tenant_id : Option Value → H ℤ
get_tenant_id (some (int64 v)) = pure v
get_tenant_id (some (float64 v)) = pure v
get_tenant_id (some _) = respond (bad_request "无效的租户信息")
get_tenant_id none = respond (failure 401 401 "未授权访问")

-- The fields that Create leaves to the database are Go's zero values. A status of 0 becomes 1.
abbrev pub new_rule : ℤ → CreateReplyRequest → AutoReplyRule
new_rule account_id req = record {
  id = pos 0;
  account_id = account_id;
  keyword = req.keyword;
  match_type = req.match_type;
  reply_type = req.reply_type;
  reply_content = req.reply_content;
  reply_title = req.reply_title;
  reply_desc = req.reply_desc;
  reply_cover_url = req.reply_cover_url;
  reply_url = req.reply_url;
  status = if req.status == pos 0 then pos 1 else req.status;
  sort_order = req.sort_order;
  deleted_at = none;
  created_at = 0;
  updated_at = 0;
}

abbrev pub given : Option Text → Option Text → Option Text
given none old = old
given (some s) old = some s

-- A field that the request gives replaces the rule's.
abbrev pub with_changes : UpdateReplyRequest → AutoReplyRule → AutoReplyRule
with_changes req r = record r {
  keyword = given req.keyword r.keyword;
  match_type = get_or req.match_type r.match_type;
  reply_type = get_or req.reply_type r.reply_type;
  reply_content = get_or req.reply_content r.reply_content;
  reply_title = given req.reply_title r.reply_title;
  reply_desc = given req.reply_desc r.reply_desc;
  reply_cover_url = given req.reply_cover_url r.reply_cover_url;
  reply_url = given req.reply_url r.reply_url;
  status = get_or req.status r.status;
  sort_order = get_or req.sort_order r.sort_order;
}

module _ (env : Env) (param : Text) (tenant : Option Value) where
  unfoldable pub list : H (Unit {0})
  list = do
    account_id ← or_respond (parse_int param) (bad_request "无效的公众号 ID")
    get_tenant_id tenant
    rules ← or_fail (list_by_account_id env account_id) (server_error "查询回复规则列表失败")
    respond (success 200 "ok" (some (reply_list (map to_reply_vo rules))))

  unfoldable pub create_reply : Bound CreateReplyRequest → H (Unit {0})
  create_reply body = do
    account_id ← or_respond (parse_int param) (bad_request "无效的公众号 ID")
    get_tenant_id tenant
    req ← or_invalid body (bad_request "参数错误: ")
    rule ← or_fail (create env (new_rule account_id req)) (server_error "创建回复规则失败")
    respond (success 201 "ok" (some (reply_vo (to_reply_vo rule))))

  -- From the rule that the id names.
  unfoldable pub change_rule : Bound UpdateReplyRequest → Option AutoReplyRule → H (Unit {0})
  change_rule body found = do
    rule ← or_respond found (not_found "回复规则不存在")
    req ← or_invalid body (bad_request "参数错误: ")
    or_fail (update env (with_changes req rule)) (server_error "更新回复规则失败")
    respond (success 200 "ok" (some (reply_vo (to_reply_vo (with_changes req rule)))))

  unfoldable pub update_reply : Bound UpdateReplyRequest → H (Unit {0})
  update_reply body = do
    rule_id ← or_respond (parse_int param) (bad_request "无效的规则 ID")
    get_tenant_id tenant
    found ← or_fail (get_by_id env rule_id) (server_error "查询回复规则失败")
    change_rule body found

  unfoldable pub delete_reply : H (Unit {0})
  delete_reply = do
    rule_id ← or_respond (parse_int param) (bad_request "无效的规则 ID")
    get_tenant_id tenant
    done ← or_fail (soft_delete env rule_id) (server_error "删除失败")
    require done (not_found "回复规则不存在或已删除")
    respond (success 200 "已删除" none)
