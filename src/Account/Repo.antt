-- ===== src/Account/Repo.antt =====
-- internal/repository/account/account.go: the SQL and the methods of Repo.
use weiyeston.Base.{
  ℕ, suc, Bool, ◌&&◌, Option, none, some, is_none, List, [], ◌∷◌, ◌++◌, ℤ, pos, Text, text_eq,
  int_eq, nat_eq, ◌==◌, find, filter, count, update_where, sort_by, take, drop, ltb, leb_ℤ,
  pos_part, if◌then◌else◌,
}
use weiyeston.Http.{Env, World, Run, next, statement, ◌>>=◌, pure}
use weiyeston.Account.{WechatAccount, AccountTables, is_live, is_text, is_manual, admitted}

-- The store is the cache, which no repository method touches.
abbrev pub W : Type 0
W = World AccountTables (List (Text × Text))

abbrev pub stored : ℕ → WechatAccount → AccountTables → WechatAccount
stored now a t = record a {
  id = pos t.next_account;
  deleted_at = none;
  created_at = now;
  updated_at = now;
}

-- SET … of Update: all but the key, the tenant and the times.
abbrev pub rewritten : ℕ → WechatAccount → WechatAccount → WechatAccount
rewritten now a old = record a {
  id = old.id;
  tenant_id = old.tenant_id;
  deleted_at = old.deleted_at;
  created_at = old.created_at;
  updated_at = now;
}

abbrev pub newest_first : WechatAccount → WechatAccount → Bool
newest_first a b = ltb b.created_at a.created_at

abbrev pub is_of_tenant : ℤ → WechatAccount → Bool
is_of_tenant tenant_id a = a.tenant_id == tenant_id && is_none a.deleted_at

module _ (now : ℕ) where
  unfoldable pub insert_account :
      WechatAccount → AccountTables → Option (WechatAccount × AccountTables)
  insert_account a t =
      if t.is_tenant a.tenant_id
      then admitted (stored now a t) (record t {
        accounts = t.accounts ++ stored now a t ∷ [];
        next_account = suc t.next_account;
      })
      else none

  -- The rows affected, and the tables.
  unfoldable pub update_live :
      ℤ → (WechatAccount → WechatAccount) → AccountTables → Option (ℕ × AccountTables)
  update_live id change t =
      admitted (count (is_live id) t.accounts)
        (record t { accounts = update_where (is_live id) change t.accounts })

  -- SET … of UpdateToken.
  abbrev pub with_tokens : (access refresh : Text) (expire_at : ℕ) → WechatAccount → WechatAccount
  with_tokens access refresh expire_at a = record a {
    access_token = some access;
    refresh_token = some refresh;
    token_expire_at = some expire_at;
    auth_status = pos 1;
    updated_at = now;
  }

  abbrev pub deleted : WechatAccount → WechatAccount
  deleted a = record a { deleted_at = some now; updated_at = now }

abbrev pub if_affected : Option ℕ → Option (Unit {0})
if_affected none = none
if_affected (some rows) = if rows == 0 then none else some tt

abbrev pub whether_affected : Option ℕ → Option Bool
whether_affected none = none
whether_affected (some rows) = some (ltb 0 rows)

abbrev pub whatever_affected : Option ℕ → Option (Unit {0})
whatever_affected none = none
whatever_affected (some rows) = some tt

module _ {D : Type 0} (env : Env) where
  -- A query that reads the rows.
  abbrev pub query : {A : Type 0} → (List WechatAccount → A) → W → Run W D (Option A)
  query f = statement env (λ t. some (f t.accounts, t))

  unfoldable pub create : WechatAccount → W → Run W D (Option WechatAccount)
  create a = statement env (insert_account env.now a)

  -- An id that is not positive is an error with no statement sent.
  unfoldable pub get_by_id : ℤ → W → Run W D (Option (Option WechatAccount))
  get_by_id id w = if leb_ℤ id (pos 0) then next none w else query (find (is_live id)) w

  unfoldable pub get_by_tenant_id : ℤ → W → Run W D (Option (List WechatAccount))
  get_by_tenant_id tenant_id w =
      if leb_ℤ tenant_id (pos 0)
      then next none w
      else query (λ accounts. sort_by newest_first (filter (is_of_tenant tenant_id) accounts)) w

  unfoldable pub get_by_app_id : Text → W → Run W D (Option (Option WechatAccount))
  get_by_app_id app_id w =
      if app_id == []
      then next none w
      else query (find (λ a. is_text app_id a.wx_app_id && is_none a.deleted_at)) w

  -- No row affected is an error too.
  unfoldable pub update : WechatAccount → W → Run W D (Option (Unit {0}))
  update a = do
    rows ← statement env (update_live env.now a.id (rewritten env.now a))
    pure (if_affected rows)

  unfoldable pub soft_delete : ℤ → W → Run W D (Option (Unit {0}))
  soft_delete id = do
    rows ← statement env (update_live env.now id (deleted env.now))
    pure (whatever_affected rows)

  unfoldable pub list : (tenant_id offset limit : ℤ) → W → Run W D (Option (List WechatAccount))
  list tenant_id offset limit w =
      if leb_ℤ limit (pos 0)
      then next none w
      else query
          (λ accounts. take (pos_part limit) (
            drop (pos_part offset)
              (sort_by newest_first (filter (is_of_tenant tenant_id) accounts))))
          w

  unfoldable pub get_by_app_id_and_tenant : Text → ℤ → W → Run W D (Option (Option WechatAccount))
  get_by_app_id_and_tenant app_id tenant_id w =
      if app_id == []
      then next none w
      else query (find (λ a. is_text app_id a.wx_app_id && a.tenant_id == tenant_id && is_manual a))
          w

  unfoldable pub count_by_tenant : ℤ → W → Run W D (Option ℕ)
  count_by_tenant tenant_id = query (count (is_of_tenant tenant_id))

  unfoldable pub soft_delete_with_return : ℤ → W → Run W D (Option Bool)
  soft_delete_with_return id = do
    rows ← statement env (update_live env.now id (deleted env.now))
    pure (whether_affected rows)

  unfoldable pub get_by_authorizer_appid : Text → W → Run W D (Option (Option WechatAccount))
  get_by_authorizer_appid appid w =
      if appid == []
      then next none w
      else query (find (λ a. is_text appid a.authorizer_appid && is_none a.deleted_at)) w

  unfoldable pub update_token :
      (id : ℤ) (access refresh : Text) (expire_at : ℕ) → W → Run W D (Option (Unit {0}))
  update_token id access refresh expire_at = do
    rows ← statement env (update_live env.now id (with_tokens env.now access refresh expire_at))
    pure (whatever_affected rows)

  unfoldable pub update_auth_status : ℤ → ℤ → W → Run W D (Option (Unit {0}))
  update_auth_status id status = do
    rows ←
        statement env
          (update_live env.now id (λ a. record a { auth_status = status; updated_at = env.now }))
    pure (whatever_affected rows)
