-- ===== src/Vote/Invariant.antt =====
-- The counters under the handlers of internal/handler/api/vote.go.
use weiyeston.Base.{
  true, false, Option, none, some, List, [], ◌∷◌, ℤ, pos, Text, ltb_ℤ, int_eq, refl, arith,
}
use weiyeston.Middleware.{Value, int64, float64, text, other}
use weiyeston.Strconv.{parse_int}
use weiyeston.Http.{Env, next, statement, after, or_respond, or_invalid, or_fail, ignore, Bound}
use weiyeston.Http.Keeps.{
  Keeps, On, Keeps-or_respond, Keeps-or_invalid, Keeps-or_fail, Keeps-ignore, Keeps-reject,
  Keeps->>=, Keeps->>, Keeps-statement,
}
use weiyeston.Vote.{Vote}
use weiyeston.Vote.Statements.{update_votes}
use weiyeston.Vote.Views.{Payload}
use weiyeston.Vote.Repo.{
  W, get_vote, create_vote, update_vote, soft_delete_vote, get_options, create_option,
  delete_options_by_vote_id, submit_vote, count_votes_by_user, get_results,
}
use weiyeston.Vote.Handlers.{
  H, get_tenant_id, create_options, create, find_vote, get, replace_options, update, delete,
  results, check_ballot, check_count, check_quota, record_choices, submit, CreateOptionItem,
  CreateVoteRequest, UpdateVoteRequest, SubmitVoteRequest, new_vote, new_option, vote_changes,
  new_record, bad_id, bad_body, server_error,
}
use weiyeston.Vote.Page.{list_votes, select_votes, offset_of, page_of, size_of}
use weiyeston.Vote.Counters.{
  IsCounted, insert_vote-IsCounted, update_votes-IsCounted, delete_votes-IsCounted,
  insert_option-IsCounted, delete_options-IsCounted,
}
use weiyeston.Vote.Tally.{submit_vote-IsCounted}

abbrev Inv : W → Type 0
Inv = On IsCounted

get_tenant_id-Keeps : (t : Option Value) → Keeps Inv (get_tenant_id t)
get_tenant_id-Keeps none w h = h
get_tenant_id-Keeps (some (int64 v)) w h = h
get_tenant_id-Keeps (some (float64 v)) w h = h
get_tenant_id-Keeps (some (text v)) w h = h
get_tenant_id-Keeps (some other) w h = h

module _ (env : Env) where
  create_options-Keeps :
      (id : ℤ) (items : List CreateOptionItem) → Keeps Inv (create_options env id items)
  unfolding create_options create_option
  create_options-Keeps id [] = λ w h. h
  create_options-Keeps id (item ∷ items) =
      Keeps->> Inv (ignore (create_option env (new_option id item))) (create_options env id items)
        (Keeps-ignore Inv (create_option env (new_option id item)) (
          Keeps-statement Payload IsCounted env _
            (insert_option-IsCounted (new_option id item) refl)))
        (create_options-Keeps id items)

  get_options-Keeps : (id : ℤ) → Keeps {D = Payload} Inv (get_options env id)
  unfolding get_options
  get_options-Keeps id w h = ground arith

  find_vote-Keeps : (id : ℤ) → Keeps Inv (find_vote env id)
  unfolding find_vote get_vote
  find_vote-Keeps id w h = ground arith

  create-Keeps : (t : Option Value) (body : Bound CreateVoteRequest) → Keeps Inv (create env t body)
  unfolding create create_vote
  create-Keeps t body = Keeps->>= Inv (get_tenant_id t) _ (get_tenant_id-Keeps t) λ tenant.
      Keeps->>= Inv (or_invalid body bad_body) _ (Keeps-or_invalid Inv body bad_body) λ req.
        Keeps->>= Inv (or_fail (create_vote env (new_vote tenant req)) (server_error "创建投票失败")) _
          (Keeps-or_fail Inv (create_vote env (new_vote tenant req)) _ (
            Keeps-statement Payload IsCounted env _
              (insert_vote-IsCounted env.now (new_vote tenant req) refl)))
          λ v.
            Keeps->> Inv (create_options env v.id req.options) _
              (create_options-Keeps v.id req.options)
              (Keeps->>= Inv (get_options env v.id) _ (get_options-Keeps v.id) λ _. λ w h. h)

  replace_options-Keeps :
      (id : ℤ) (items : List CreateOptionItem) → Keeps Inv (replace_options env id items)
  unfolding replace_options delete_options_by_vote_id
  replace_options-Keeps id [] = λ w h. h
  replace_options-Keeps id (item ∷ items) =
      Keeps->> Inv (ignore (delete_options_by_vote_id env id))
        (create_options env id (item ∷ items))
        (Keeps-ignore Inv (delete_options_by_vote_id env id)
          (Keeps-statement Payload IsCounted env _ (delete_options-IsCounted id)))
        (create_options-Keeps id (item ∷ items))

  update_vote-Keeps : (v : Vote) → Keeps {D = Payload} Inv (update_vote env v)
  unfolding update_vote
  update_vote-Keeps v =
      Keeps->>= Inv (statement env (update_votes env.now v)) _
        (Keeps-statement Payload IsCounted env _ (update_votes-IsCounted env.now v)) λ _. λ w h. h

  update-Keeps :
      (t : Option Value) (param : Text) (body : Bound UpdateVoteRequest)
      → Keeps Inv (update env t param body)
  unfolding update
  update-Keeps t param body = Keeps->>= Inv (get_tenant_id t) _ (get_tenant_id-Keeps t) λ _.
      Keeps->>= Inv (or_respond (parse_int param) bad_id) _
        (Keeps-or_respond Inv (parse_int param) bad_id)
        λ id. Keeps->>= Inv (or_invalid body bad_body) _ (Keeps-or_invalid Inv body bad_body) λ req.
          Keeps->> Inv (or_fail (update_vote env (vote_changes id req)) (server_error "更新投票失败: ")) _
            (Keeps-or_fail Inv (update_vote env (vote_changes id req)) _
              (update_vote-Keeps (vote_changes id req)))
            (Keeps->> Inv (replace_options env id req.options) _
              (replace_options-Keeps id req.options) λ w h. h)

  delete-Keeps : (t : Option Value) (param : Text) → Keeps Inv (delete env t param)
  unfolding delete soft_delete_vote
  delete-Keeps t param = Keeps->>= Inv (get_tenant_id t) _ (get_tenant_id-Keeps t) λ _.
      Keeps->>= Inv (or_respond (parse_int param) bad_id) _
        (Keeps-or_respond Inv (parse_int param) bad_id)
        λ id.
          Keeps->> Inv (or_fail (soft_delete_vote env id) (server_error "删除投票失败")) _
            (Keeps-or_fail Inv (soft_delete_vote env id) _
              (Keeps-statement Payload IsCounted env _ (delete_votes-IsCounted env.now id)))
            λ w h. h

  record_choices-Keeps :
      (id : ℤ) (openid : Text) (ids : List ℤ) → Keeps Inv (record_choices env id openid ids)
  unfolding record_choices
  record_choices-Keeps id openid [] = λ w h. h
  record_choices-Keeps id openid (o ∷ ids) =
      Keeps->> Inv (or_fail (submit_vote env (new_record id openid o)) (server_error "提交投票失败")) _
        (Keeps-or_fail Inv (submit_vote env (new_record id openid o)) _
          (submit_vote-IsCounted env (new_record id openid o)))
        (record_choices-Keeps id openid ids)

  check_ballot-Keeps : (v : Vote) (req : SubmitVoteRequest) → Keeps Inv (check_ballot env v req)
  unfolding check_ballot
  check_ballot-Keeps v req w h = ground arith

  count_votes-Keeps :
      (id : ℤ) (openid : Text) → Keeps {D = Payload} Inv (count_votes_by_user env id openid)
  unfolding count_votes_by_user
  count_votes-Keeps id openid w h = ground arith

  check_count-Keeps : (v : Vote) (id : ℤ) (openid : Text) → Keeps Inv (check_count env v id openid)
  unfolding check_count
  check_count-Keeps v id openid =
      Keeps->>= Inv (or_fail (count_votes_by_user env id openid) (server_error "查询投票次数失败")) _
        (Keeps-or_fail Inv (count_votes_by_user env id openid) _ (count_votes-Keeps id openid))
        λ n. Keeps-reject Inv _ _

  check_quota-Keeps : (v : Vote) (id : ℤ) (openid : Text) → Keeps Inv (check_quota env v id openid)
  unfolding check_quota
  check_quota-Keeps v id openid w h =
      elim (ltb_ℤ (pos 0) v.max_votes)
        as (λ b.
          Inv (after (elim b [ true ↦ check_count env v id openid w | false ↦ next tt w ]))) [
            | true ↦ check_count-Keeps v id openid w h
            | false ↦ h
          ]

  submit-Keeps : (param : Text) (body : Bound SubmitVoteRequest) → Keeps Inv (submit env param body)
  unfolding submit
  submit-Keeps param body =
      Keeps->>= Inv (or_respond (parse_int param) bad_id) _
        (Keeps-or_respond Inv (parse_int param) bad_id)
        λ id. Keeps->>= Inv (or_invalid body bad_body) _ (Keeps-or_invalid Inv body bad_body) λ req.
          Keeps->>= Inv (find_vote env id) _ (find_vote-Keeps id) λ v.
            Keeps->> Inv (check_ballot env v req) _ (check_ballot-Keeps v req) (
              Keeps->> Inv (check_quota env v id req.openid) _ (check_quota-Keeps v id req.openid) (
                Keeps->> Inv (record_choices env id req.openid req.option_ids) _
                  (record_choices-Keeps id req.openid req.option_ids) λ w h. h))

  get-Keeps : (t : Option Value) (param : Text) → Keeps Inv (get env t param)
  unfolding get
  get-Keeps t param = Keeps->>= Inv (get_tenant_id t) _ (get_tenant_id-Keeps t) λ _.
      Keeps->>= Inv (or_respond (parse_int param) bad_id) _
        (Keeps-or_respond Inv (parse_int param) bad_id)
        λ id.
          Keeps->>= Inv (find_vote env id) _ (find_vote-Keeps id)
            λ v. Keeps->>= Inv (get_options env id) _ (get_options-Keeps id) λ _. λ w h. h

  get_results-Keeps : (id : ℤ) → Keeps {D = Payload} Inv (get_results env id)
  unfolding get_results
  get_results-Keeps id w h = ground arith

  results-Keeps : (param : Text) → Keeps Inv (results env param)
  unfolding results
  results-Keeps param =
      Keeps->>= Inv (or_respond (parse_int param) bad_id) _
        (Keeps-or_respond Inv (parse_int param) bad_id)
        λ id. Keeps->>= Inv (find_vote env id) _ (find_vote-Keeps id) λ v.
          Keeps->>= Inv (or_fail (get_results env id) (server_error "查询投票结果失败")) _
            (Keeps-or_fail Inv (get_results env id) _ (get_results-Keeps id)) λ _. λ w h. h

list_votes-Keeps :
    (env : Env) (t : Option Value) (page size : Option Text)
    → Keeps Inv (list_votes env t page size)
unfolding list_votes select_votes
list_votes-Keeps env t page size =
    Keeps->>= Inv (get_tenant_id t) _ (get_tenant_id-Keeps t) λ tenant_id.
      let read = select_votes tenant_id (offset_of (page_of page) (size_of size)) (size_of size) in
      Keeps->>= Inv (or_fail (statement env read) (server_error "查询投票列表失败")) _
        (Keeps-or_fail Inv (statement env read) _
          (Keeps-statement Payload IsCounted env read λ u h. ground arith))
        λ votes. λ w h. h

-- The requests to the routes of a vote.
pub data Request : Type 0 where
  to_create : Option Value → Bound CreateVoteRequest → Request
  to_list : Option Value → (page size : Option Text) → Request
  to_get : Option Value → Text → Request
  to_update : Option Value → Text → Bound UpdateVoteRequest → Request
  to_delete : Option Value → Text → Request
  to_results : Text → Request
  to_submit : Text → Bound SubmitVoteRequest → Request

abbrev pub handle : Env → Request → H (Unit {0})
handle env (to_create tenant body) = create env tenant body
handle env (to_list tenant page size) = list_votes env tenant page size
handle env (to_get tenant param) = get env tenant param
handle env (to_update tenant param body) = update env tenant param body
handle env (to_delete tenant param) = delete env tenant param
handle env (to_results param) = results env param
handle env (to_submit param body) = submit env param body

-- The server after a series of requests, one at a time, each at its time and with its failures.
abbrev pub serve : List (Env × Request) → W → W
serve [] w = w
serve ((env, request) ∷ requests) w = serve requests (after (handle env request w))

handle-Keeps : (env : Env) (request : Request) → Keeps Inv (handle env request)
handle-Keeps env (to_create tenant body) = create-Keeps env tenant body
handle-Keeps env (to_list tenant page size) = list_votes-Keeps env tenant page size
handle-Keeps env (to_get tenant param) = get-Keeps env tenant param
handle-Keeps env (to_update tenant param body) = update-Keeps env tenant param body
handle-Keeps env (to_delete tenant param) = delete-Keeps env tenant param
handle-Keeps env (to_results param) = results-Keeps env param
handle-Keeps env (to_submit param body) = submit-Keeps env param body

-- After any series of requests, whichever of their statements fail, the counter of each option is at
-- most the number of its records, and the total of each vote at most the number of the records of the
-- vote, if that held before the series.
pub serve-IsCounted :
    (requests : List (Env × Request)) (w : W)
    → IsCounted w.tables
    → IsCounted (serve requests w).tables
serve-IsCounted [] w h = h
serve-IsCounted ((env, request) ∷ requests) w h =
    serve-IsCounted requests (after (handle env request w)) (handle-Keeps env request w h)
