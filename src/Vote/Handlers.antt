-- ===== src/Vote/Handlers.antt =====
-- The handlers of internal/handler/api/vote.go. A number that a message quotes is left out of it.
use weiyeston.Base.{
  ℕ, Bool, true, false, ◌&&◌, Option, none, some, get_or, List, [], ◌∷◌, ℤ, pos, Text, text_eq,
  int_eq, nat_eq, ◌==◌, if◌then◌else◌, ltb, ltb_ℤ, leb_ℤ, length, String,
}
use weiyeston.Http.{
  Env, Run, next, ◌>>=◌, ◌>>◌, pure, respond, or_respond, or_invalid, or_fail, ignore, require,
  reject, Response, success, failure, Bound,
}
use weiyeston.Strconv.{parse_int}
use weiyeston.Middleware.{Value, int64, float64}
use weiyeston.Vote.{Vote, VoteOption, VoteRecord}
use weiyeston.Vote.Views.{Payload, vote_vo, result_vo, to_vote_vo, to_result_vo}
use weiyeston.Vote.Repo.{
  W, get_vote, create_vote, update_vote, soft_delete_vote, get_options, create_option,
  delete_options_by_vote_id, submit_vote, count_votes_by_user, get_results,
}

abbrev pub H : Type 0 → Type 0
H A = W → Run W Payload A

abbrev pub bad_request : String → Response Payload
bad_request = failure 400 40001

abbrev pub not_found : String → Response Payload
not_found = failure 404 40401

abbrev pub server_error : String → Response Payload
server_error = failure 500 50001

abbrev pub bad_id : Response Payload
bad_id = bad_request "无效的投票 ID"

abbrev pub bad_body : Response Payload
bad_body = bad_request "参数错误: "

-- getTenantID, on the key that the middleware left in the context.
abbrev pub get_tenant_id : Option Value → H ℤ
get_tenant_id (some (int64 v)) = pure v
get_tenant_id (some (float64 v)) = pure v
get_tenant_id (some _) = respond (bad_request "无效的租户信息")
get_tenant_id none = respond (failure 401 401 "未授权访问")

pub record CreateOptionItem : Type 0 where
  pub content : Text
  pub image_url : Option Text
  pub sort_order : ℤ

pub record CreateVoteRequest : Type 0 where
  pub title : Text
  pub description : Option Text
  pub cover_url : Option Text
  pub vote_type : ℤ
  pub max_choices : ℤ
  pub max_votes : ℤ
  pub start_time : Option ℕ
  pub end_time : Option ℕ
  pub status : ℤ
  pub options : List CreateOptionItem

pub record UpdateVoteRequest : Type 0 where
  pub title : Option Text
  pub description : Option Text
  pub cover_url : Option Text
  pub vote_type : Option ℤ
  pub max_choices : Option ℤ
  pub max_votes : Option ℤ
  pub start_time : Option ℕ
  pub end_time : Option ℕ
  pub status : Option ℤ
  pub options : List CreateOptionItem

pub record SubmitVoteRequest : Type 0 where
  pub option_ids : List ℤ
  pub openid : Text

abbrev one_if_zero : ℤ → ℤ
one_if_zero n = if n == pos 0 then pos 1 else n

-- The fields that CreateVote leaves to the database are Go's zero values.
abbrev pub new_vote : ℤ → CreateVoteRequest → Vote
new_vote tenant_id req = record {
  id = pos 0;
  account_id = tenant_id;
  title = req.title;
  description = req.description;
  cover_url = req.cover_url;
  vote_type = one_if_zero req.vote_type;
  max_choices = one_if_zero req.max_choices;
  max_votes = one_if_zero req.max_votes;
  start_time = req.start_time;
  end_time = req.end_time;
  total_votes = 0;
  status = req.status;
  deleted_at = none;
  created_at = 0;
  updated_at = 0;
}

abbrev pub new_option : ℤ → CreateOptionItem → VoteOption
new_option vote_id item = record {
  id = pos 0;
  vote_id = vote_id;
  content = item.content;
  image_url = item.image_url;
  sort_order = item.sort_order;
  vote_count = 0;
}

-- The parameters of the update: Go's zero value for what the request leaves out.
abbrev pub vote_changes : ℤ → UpdateVoteRequest → Vote
vote_changes id req = record {
  id = id;
  account_id = pos 0;
  title = get_or req.title [];
  description = req.description;
  cover_url = req.cover_url;
  vote_type = get_or req.vote_type (pos 0);
  max_choices = get_or req.max_choices (pos 0);
  max_votes = get_or req.max_votes (pos 0);
  start_time = req.start_time;
  end_time = req.end_time;
  total_votes = 0;
  status = get_or req.status (pos 0);
  deleted_at = none;
  created_at = 0;
  updated_at = 0;
}

-- The record that SubmitVote writes for one choice.
abbrev pub new_record : ℤ → Text → ℤ → VoteRecord
new_record id openid option_id = record {
  id = pos 0;
  vote_id = id;
  option_id = option_id;
  openid = openid;
  ip_address = none;
  user_agent = none;
  created_at = 0;
}

abbrev pub is_early : ℕ → Option ℕ → Bool
is_early now none = false
is_early now (some start) = ltb now start

abbrev pub is_late : ℕ → Option ℕ → Bool
is_late now none = false
is_late now (some end) = ltb end now

module _ (env : Env) where
  -- The loop over the options; a failure is only logged.
  unfoldable pub create_options : ℤ → List CreateOptionItem → H (Unit {0})
  create_options vote_id [] = pure tt
  create_options vote_id (item ∷ items) = do
    ignore (create_option env (new_option vote_id item))
    create_options vote_id items

  unfoldable pub create : Option Value → Bound CreateVoteRequest → H (Unit {0})
  create tenant body = do
    tenant_id ← get_tenant_id tenant
    req ← or_invalid body bad_body
    v ← or_fail (create_vote env (new_vote tenant_id req)) (server_error "创建投票失败")
    create_options v.id req.options
    options ← get_options env v.id
    respond (success 201 "投票已创建" (some (vote_vo (to_vote_vo v (get_or options [])))))

  -- The lookup that GetVote, GetResults and SubmitVote share.
  unfoldable pub find_vote : ℤ → H Vote
  find_vote id = do
    found ← or_fail (get_vote env id) (server_error "查询投票失败")
    or_respond found (not_found "投票不存在")

  unfoldable pub get : Option Value → Text → H (Unit {0})
  get tenant param = do
    _ ← get_tenant_id tenant
    id ← or_respond (parse_int param) bad_id
    v ← find_vote id
    options ← get_options env id
    respond (success 200 "ok" (some (vote_vo (to_vote_vo v (get_or options [])))))

  -- Without options in the request the old ones stay.
  unfoldable pub replace_options : ℤ → List CreateOptionItem → H (Unit {0})
  replace_options id [] = pure tt
  replace_options id (item ∷ items) = do
    ignore (delete_options_by_vote_id env id)
    create_options id (item ∷ items)

  unfoldable pub update : Option Value → Text → Bound UpdateVoteRequest → H (Unit {0})
  update tenant param body = do
    _ ← get_tenant_id tenant
    id ← or_respond (parse_int param) bad_id
    req ← or_invalid body bad_body
    or_fail (update_vote env (vote_changes id req)) (server_error "更新投票失败: ")
    replace_options id req.options
    respond (success 200 "投票已更新" none)

  unfoldable pub delete : Option Value → Text → H (Unit {0})
  delete tenant param = do
    _ ← get_tenant_id tenant
    id ← or_respond (parse_int param) bad_id
    or_fail (soft_delete_vote env id) (server_error "删除投票失败")
    respond (success 200 "投票已删除" none)

  unfoldable pub results : Text → H (Unit {0})
  results param = do
    id ← or_respond (parse_int param) bad_id
    v ← find_vote id
    options ← or_fail (get_results env id) (server_error "查询投票结果失败")
    respond (success 200 "ok" (some (result_vo (to_result_vo v options))))

  -- Status, time and choices: the checks of SubmitVote that read the vote alone.
  unfoldable pub check_ballot : Vote → SubmitVoteRequest → H (Unit {0})
  check_ballot v req = do
    require (v.status == pos 1) (bad_request "投票不在进行中")
    reject (is_early env.now v.start_time) (bad_request "投票尚未开始")
    reject (is_late env.now v.end_time) (bad_request "投票已结束")
    reject (v.vote_type == pos 1 && ltb 1 (length req.option_ids)) (bad_request "单选投票只能选择一个选项")
    reject (ltb_ℤ (pos 0) v.max_choices && ltb_ℤ v.max_choices (pos (length req.option_ids)))
        (bad_request "最多可选项")

  unfoldable pub check_count : Vote → ℤ → Text → H (Unit {0})
  check_count v id openid = do
    n ← or_fail (count_votes_by_user env id openid) (server_error "查询投票次数失败")
    reject (leb_ℤ v.max_votes (pos n)) (bad_request "已达到最大投票次数")

  unfoldable pub check_quota : Vote → ℤ → Text → H (Unit {0})
  check_quota v id openid w = elim (ltb_ℤ (pos 0) v.max_votes) [
    | true ↦ check_count v id openid w
    | false ↦ next tt w
  ]

  -- The loop over the chosen options, which stops at the first failure.
  unfoldable pub record_choices : ℤ → Text → List ℤ → H (Unit {0})
  record_choices id openid [] = pure tt
  record_choices id openid (option_id ∷ option_ids) = do
    or_fail (submit_vote env (new_record id openid option_id)) (server_error "提交投票失败")
    record_choices id openid option_ids

  unfoldable pub submit : Text → Bound SubmitVoteRequest → H (Unit {0})
  submit param body = do
    id ← or_respond (parse_int param) bad_id
    req ← or_invalid body bad_body
    v ← find_vote id
    check_ballot v req
    check_quota v id req.openid
    record_choices id req.openid req.option_ids
    respond (success 200 "投票成功" none)
