-- ===== src/Account/Listing.antt =====
-- The page of internal/handler/api/account.go, List, with ListPaginated of
-- internal/repository/account/account.go, and the accounts whose tokens are to be renewed.
use weiyeston.Base.{
  ℕ, ◌-◌, ◌*◌, Bool, true, false, ◌&&◌, ◌||◌, Option, none, some, is_none, List, [], ℤ, pos, negsuc,
  Text, text_eq, int_eq, nat_eq, ◌==◌, if◌then◌else◌, ltb, ltb_ℤ, neg, wrapped, filter, count,
  sort_by, take, drop, map,
}
use weiyeston.Http.{
  Env, Run, statement, ◌>>=◌, pure, respond, or_invalid, or_fail, success, failure, Bound,
}
use weiyeston.Http.Keeps.{
  Keeps, Kept, On, Keeps-or_invalid, Keeps-or_fail, Keeps->>=, Keeps-statement,
}
use weiyeston.Middleware.{Value, int64}
use weiyeston.Account.{WechatAccount, AccountTables}
use weiyeston.Account.Repo.{W, query, newest_first, is_of_tenant}
use weiyeston.Account.Views.{Payload, account_page, to_account_vo}
use weiyeston.Account.Handlers.{H, get_tenant_id, server_error}

pub record ListAccountsRequest : Type 0 where
  pub page : ℕ
  pub page_size : ℕ
  pub keyword : Text
  pub auth_type : ℤ
  pub auth_status : ℤ

abbrev is_like : (Text → Text → Bool) → Text → Option Text → Bool
is_like ilike keyword none = false
is_like ilike keyword (some s) = ilike keyword s

-- The WHERE of ListPaginated; whether a text is ILIKE `%keyword%` is the parameter.
abbrev pub is_listed : (Text → Text → Bool) → ℤ → ListAccountsRequest → WechatAccount → Bool
is_listed ilike tenant_id p a =
    is_of_tenant tenant_id a
    && (p.keyword == [] || is_like ilike p.keyword a.name || is_like ilike p.keyword a.wx_app_id)
    && (if ltb_ℤ (pos 0) p.auth_type then a.auth_type == p.auth_type else true)
    && (if ltb_ℤ p.auth_status (pos 0) then true else a.auth_status == p.auth_status)

abbrev pub page_offset : (page size : ℕ) → ℤ
page_offset page size = if page == 0 then neg size else wrapped ((page - 1) * size)

-- LIMIT and OFFSET, of which the database refuses a negative one.
abbrev pub limited : {A : Type 0} → ℕ → ℤ → List A → Option (List A)
limited size (pos offset) rows = some (take size (drop offset rows))
limited size (negsuc n) rows = none

abbrev read_rows :
    AccountTables → Option (List WechatAccount) → Option (List WechatAccount × AccountTables)
read_rows t none = none
read_rows t (some rows) = some (rows, t)

abbrev pub select_accounts :
    (WechatAccount → Bool)
    → (size : ℕ) → ℤ
    → AccountTables
    → Option (List WechatAccount × AccountTables)
select_accounts p size offset t =
    read_rows t (limited size offset (sort_by newest_first (filter p t.accounts)))

abbrev with_total : ℕ → Option (List WechatAccount) → Option (List WechatAccount × ℕ)
with_total total none = none
with_total total (some accounts) = some (accounts, total)

read_rows-Kept :
    (K : AccountTables → Type 0) (t : AccountTables) (o : Option (List WechatAccount))
    → K t
    → Kept K (read_rows t o)
read_rows-Kept K t none h = tt
read_rows-Kept K t (some rows) h = h

module _ (env : Env) where
  abbrev pub read_page :
      (WechatAccount → Bool)
      → ListAccountsRequest
      → Option ℕ
      → W
      → Run W Payload (Option (List WechatAccount × ℕ))
  read_page p params none = pure none
  read_page p params (some total) = do
    accounts ←
        statement env
          (select_accounts p params.page_size (page_offset params.page params.page_size))
    pure (with_total total accounts)

  unfoldable pub list_paginated :
      (Text → Text → Bool)
      → ℤ
      → ListAccountsRequest
      → W
      → Run W Payload (Option (List WechatAccount × ℕ))
  list_paginated ilike tenant_id params = do
    total ← query env (count (is_listed ilike tenant_id params))
    read_page (is_listed ilike tenant_id params) params total

  abbrev pub is_due : ℕ → Option ℕ → Bool
  is_due before none = true
  is_due before (some end) = ltb end before

  unfoldable pub get_manual_accounts_needing_refresh :
      {D : Type 0} → (before : ℕ) → W → Run W D (Option (List WechatAccount))
  get_manual_accounts_needing_refresh before = query env λ accounts.
      sort_by (λ a b. ltb a.created_at b.created_at)
        (filter
          (λ a.
            a.auth_type == pos 1
            && a.auth_status == pos 1
            && is_none a.deleted_at
            && is_due before a.token_expire_at)
          accounts)

  unfoldable pub list_accounts :
      (Text → Text → Bool) → Option Value → Bound ListAccountsRequest → H (Unit {0})
  list_accounts ilike value request = do
    tenant_id ← get_tenant_id value
    req ← or_invalid request (failure 400 40002 "分页参数错误")
    found ← or_fail (list_paginated ilike tenant_id req) (server_error "查询公众号列表失败")
    respond (
        success 200 "ok"
          (some (account_page (map to_account_vo found.0) found.1 req.page req.page_size)))

  read_page-Keeps :
      (K : AccountTables → Type 0) (p : WechatAccount → Bool) (params : ListAccountsRequest)
      (total : Option ℕ)
      → Keeps (On K) (read_page p params total)
  read_page-Keeps K p params none = λ w h. h
  read_page-Keeps K p params (some total) =
      let q = select_accounts p params.page_size (page_offset params.page params.page_size) in
      Keeps->>= (On K) (statement env q) _
        (Keeps-statement Payload K env q λ t h.
          read_rows-Kept K t
            (limited params.page_size (page_offset params.page params.page_size)
              (sort_by newest_first (filter p t.accounts)))
            h)
        λ accounts. λ w h. h

  list_paginated-Keeps :
      (K : AccountTables → Type 0) (ilike : Text → Text → Bool) (tenant_id : ℤ)
      (params : ListAccountsRequest)
      → Keeps (On K) (list_paginated ilike tenant_id params)
  unfolding list_paginated
  list_paginated-Keeps K ilike tenant_id params =
      Keeps->>= (On K) (query env (count (is_listed ilike tenant_id params))) _
        (Keeps-statement Payload K env
          (λ t. some (count (is_listed ilike tenant_id params) t.accounts, t)) λ t h. h)
        (read_page-Keeps K (is_listed ilike tenant_id params) params)

  pub list_accounts-Keeps :
      (K : AccountTables → Type 0) (ilike : Text → Text → Bool) (tenant_id : ℤ)
      (request : Bound ListAccountsRequest)
      → Keeps (On K) (list_accounts ilike (some (int64 tenant_id)) request)
  unfolding list_accounts
  list_accounts-Keeps K ilike tenant_id request =
      Keeps->>= (On K) (or_invalid request (failure 400 40002 "分页参数错误")) _
        (Keeps-or_invalid (On K) request _)
        λ req.
          Keeps->>= (On K) (or_fail (list_paginated ilike tenant_id req) (server_error "查询公众号列表失败"))
            _
            (Keeps-or_fail (On K) (list_paginated ilike tenant_id req) _
              (list_paginated-Keeps K ilike tenant_id req))
            λ found. λ w h. h
