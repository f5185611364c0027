-- ===== src/Account/Serve.antt =====
-- The server under a series of one tenant's requests on accounts.
use weiyeston.Base.{some, List, [], ◌∷◌, ℤ, Text, ◌≡◌, refl}
use weiyeston.Middleware.{int64}
use weiyeston.Http.{Env, after, Bound, or_respond}
use weiyeston.Http.Keeps.{Keeps, On, Keeps-or_respond, Keeps->>=}
use weiyeston.Keys.{HasUniqueIds, IsNumbered}
use weiyeston.Account.{WechatAccount}
use weiyeston.Account.Repo.{W}
use weiyeston.Account.Views.{CreateAccountRequest, UpdateAccountRequest}
use weiyeston.Account.Handlers.{
  H, Outside, create_account, get_account, update_account, delete_account, generate_auth_url,
  get_auth_status,
}
use weiyeston.Account.Listing.{ListAccountsRequest, list_accounts, list_accounts-Keeps}
use weiyeston.Account.Rows.{IsApart, foreign, id_of}
use weiyeston.Account.Apart.{
  create_account-Keeps, get_account-Keeps, update_account-Keeps, delete_account-Keeps,
  get_auth_status-Keeps,
}

pub data AccountRequest : Type 0 where
  to_create : Bound CreateAccountRequest → AccountRequest
  to_get to_delete to_auth_status : Text → AccountRequest
  to_update : Text → Bound UpdateAccountRequest → AccountRequest
  to_auth_url : AccountRequest
  to_list : Bound ListAccountsRequest → AccountRequest

module _ (outside : Outside) (tenant_id : ℤ) where
  abbrev pub handle : Env → AccountRequest → H (Unit {0})
  handle env (to_create body) = create_account outside env (some (int64 tenant_id)) body
  handle env (to_get param) = get_account env param (some (int64 tenant_id))
  handle env (to_delete param) = delete_account outside env param (some (int64 tenant_id))
  handle env (to_auth_status param) = get_auth_status env param (some (int64 tenant_id))
  handle env (to_update param body) = update_account outside env param (some (int64 tenant_id)) body
  handle env to_auth_url = generate_auth_url outside env (some (int64 tenant_id))
  handle env (to_list query) = list_accounts env outside.ilike (some (int64 tenant_id)) query

  -- One request at a time, each at its time and with its failures.
  abbrev pub serve_accounts : List (Env × AccountRequest) → W → W
  serve_accounts [] w = w
  serve_accounts ((env, request) ∷ requests) w =
      serve_accounts requests (after (handle env request w))

  module _ (others : List WechatAccount) where
    handle-IsApart :
        (env : Env) (request : AccountRequest)
        → Keeps (On (IsApart tenant_id others)) (handle env request)
    unfolding generate_auth_url
    handle-IsApart env (to_create body) = create_account-Keeps env tenant_id others outside body
    handle-IsApart env (to_get param) = get_account-Keeps env tenant_id others param
    handle-IsApart env (to_delete param) = delete_account-Keeps env tenant_id others outside param
    handle-IsApart env (to_auth_status param) = get_auth_status-Keeps env tenant_id others param
    handle-IsApart env (to_update param body) =
        update_account-Keeps env tenant_id others outside param body
    handle-IsApart env to_auth_url =
        Keeps->>= (On (IsApart tenant_id others)) (or_respond (outside.pre_auth_url tenant_id) _) _
          (Keeps-or_respond (On (IsApart tenant_id others)) (outside.pre_auth_url tenant_id) _)
          λ url. λ w h. h
    handle-IsApart env (to_list query) =
        list_accounts-Keeps env (IsApart tenant_id others) outside.ilike tenant_id query

    serve-IsApart :
        (requests : List (Env × AccountRequest)) (w : W)
        → IsApart tenant_id others w.tables
        → IsApart tenant_id others (serve_accounts requests w).tables
    serve-IsApart [] w h = h
    serve-IsApart ((env, request) ∷ requests) w h =
        serve-IsApart requests (after (handle env request w)) (handle-IsApart env request w h)

-- No series of a tenant's requests, whatever WeChat answers and whichever statements fail, adds,
-- changes or deletes a row of another tenant, if ids are a key of the table below the next id.
pub serve_accounts-foreign :
    (outside : Outside) (tenant_id : ℤ) (requests : List (Env × AccountRequest)) (w : W)
    → HasUniqueIds id_of w.tables.accounts
    → IsNumbered id_of w.tables.next_account w.tables.accounts
    → foreign tenant_id (serve_accounts outside tenant_id requests w).tables
      ≡ foreign tenant_id w.tables
serve_accounts-foreign outside tenant_id requests w u n =
    (serve-IsApart outside tenant_id (foreign tenant_id w.tables) requests w
      record { unique = u; numbered = n; apart = refl }).apart
