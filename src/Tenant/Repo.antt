-- ===== src/Tenant/Repo.antt =====
-- internal/repository/tenant/tenant.go: the SQL and the methods of Repo, but for the LIKE patterns of
-- List, which are a parameter.
use weiyeston.Base.{
  ℕ, suc, Bool, true, false, not, ◌&&◌, ◌||◌, Option, none, some, is_none, List, [], ◌∷◌, ◌++◌, ℤ,
  pos, Text, text_eq, int_eq, nat_eq, ◌==◌, find, any, filter, count, update_where, sort_by, take,
  drop, ltb, leb_ℤ, pos_part, if◌then◌else◌,
}
use weiyeston.Http.{Env, World, Run, next, statement, ◌>>=◌, pure}
use weiyeston.Tenant.{Tenant, TenantTables, is_live, is_named, has_phone, is_role}

abbrev pub W : Type 0 → Type 0
W C = World TenantTables C

-- The row of Create: the columns that it does not name get their defaults.
abbrev pub stored : ℕ → Tenant → TenantTables → Tenant
stored now a t = record a {
  id = pos t.next_tenant;
  vip_end_time = none;
  last_login_at = none;
  deleted_at = none;
  created_at = now;
  updated_at = now;
}

-- A statement that writes neither the names of live tenants nor the roles meets no constraint.
unfoldable pub update_live : ℤ → (Tenant → Tenant) → TenantTables → Option (ℕ × TenantTables)
update_live id change t = some (
  count (is_live id) t.tenants,
  record t { tenants = update_where (is_live id) change t.tenants },
)

module _ (now : ℕ) where
  unfoldable pub insert_tenant : Tenant → TenantTables → Option (Tenant × TenantTables)
  insert_tenant a t =
      if is_role a.role && not (any (is_named a.username) t.tenants)
      then some (
        stored now a t,
        record t { tenants = t.tenants ++ stored now a t ∷ []; next_tenant = suc t.next_tenant },
      )
      else none

  -- SET … of Update.
  abbrev pub rewritten : Tenant → Tenant → Tenant
  rewritten a old = record old {
    nickname = a.nickname;
    email = a.email;
    phone = a.phone;
    avatar_url = a.avatar_url;
    status = a.status;
    vip_level = a.vip_level;
    vip_end_time = a.vip_end_time;
    role = a.role;
    updated_at = now;
  }

  unfoldable pub update_tenant : Tenant → TenantTables → Option (ℕ × TenantTables)
  update_tenant a t =
      if is_role a.role || count (is_live a.id) t.tenants == 0
      then update_live a.id (rewritten a) t
      else none

  abbrev pub deleted : Tenant → Tenant
  deleted a = record a { deleted_at = some now; updated_at = now }

  abbrev pub with_password : Text → Tenant → Tenant
  with_password hash a = record a { password_hash = hash; updated_at = now }

  abbrev pub with_profile :
      (nickname email phone company avatar_url : Option Text) → Tenant → Tenant
  with_profile nickname email phone company avatar_url a = record a {
    nickname = nickname;
    email = email;
    phone = phone;
    company = company;
    avatar_url = avatar_url;
    updated_at = now;
  }

abbrev pub if_affected : Option ℕ → Option (Unit {0})
if_affected none = none
if_affected (some rows) = if rows == 0 then none else some tt

abbrev pub newest_first : Tenant → Tenant → Bool
newest_first a b = ltb b.created_at a.created_at

abbrev has_status : Option ℤ → Tenant → Bool
has_status none t = true
has_status (some status) t = t.status == status

abbrev is_like : (Text → Text → Bool) → Text → Option Text → Bool
is_like ilike keyword none = false
is_like ilike keyword (some s) = ilike keyword s

-- The WHERE of List; whether a text is like `%keyword%` is the parameter.
abbrev pub matches : (Text → Text → Bool) → Text → Option ℤ → Tenant → Bool
matches ilike keyword status t =
    is_none t.deleted_at
    && (keyword == [] || ilike keyword t.username || is_like ilike keyword t.nickname)
    && has_status status t

abbrev with_total : ℕ → Option (List Tenant) → Option (List Tenant × ℕ)
with_total total none = none
with_total total (some users) = some (users, total)

abbrev pub limit_of : ℤ → ℕ
limit_of limit = if leb_ℤ limit (pos 0) then 20 else pos_part limit

module _ {C D : Type 0} (env : Env) where
  abbrev pub query : {A : Type 0} → (List Tenant → A) → W C → Run (W C) D (Option A)
  query f = statement env (λ t. some (f t.tenants, t))

  unfoldable pub create : Tenant → W C → Run (W C) D (Option Tenant)
  create a = statement env (insert_tenant env.now a)

  -- An id that is not positive is an error with no statement sent.
  unfoldable pub get_by_id : ℤ → W C → Run (W C) D (Option (Option Tenant))
  get_by_id id w = if leb_ℤ id (pos 0) then next none w else query (find (is_live id)) w

  unfoldable pub get_by_username : Text → W C → Run (W C) D (Option (Option Tenant))
  get_by_username username w =
      if username == [] then next none w else query (find (is_named username)) w

  -- Of several rows PostgreSQL may give any; the model gives the first of the table.
  unfoldable pub get_by_phone : Text → W C → Run (W C) D (Option (Option Tenant))
  get_by_phone phone w = if phone == [] then next none w else query (find (has_phone phone)) w

  unfoldable pub update : Tenant → W C → Run (W C) D (Option (Unit {0}))
  update a = do rows ← statement env (update_tenant env.now a); pure (if_affected rows)

  unfoldable pub soft_delete : ℤ → W C → Run (W C) D (Option ℕ)
  soft_delete id = statement env (update_live id (deleted env.now))

  unfoldable pub update_password : ℤ → Text → W C → Run (W C) D (Option (Unit {0}))
  update_password id hash = do
    rows ← statement env (update_live id (with_password env.now hash))
    pure (if_affected rows)

  unfoldable pub update_profile :
      ℤ
      → (nickname email phone company avatar_url : Option Text) → W C
      → Run (W C) D (Option (Unit {0}))
  update_profile id nickname email phone company avatar_url = do
    rows ←
        statement env
          (update_live id (with_profile env.now nickname email phone company avatar_url))
    pure (if_affected rows)

  unfoldable pub select_page :
      (Tenant → Bool) → (limit offset : ℤ) → Option ℕ → W C → Run (W C) D (Option (List Tenant × ℕ))
  select_page p limit offset none = pure none
  select_page p limit offset (some total) = do
    users ← query (λ tenants.
        take (limit_of limit) (drop (pos_part offset) (sort_by newest_first (filter p tenants))))
    pure (with_total total users)

  -- The page and the number of all rows that match.
  unfoldable pub list :
      (Text → Text → Bool)
      → (keyword : Text) → Option ℤ
      → (limit offset : ℤ) → W C
      → Run (W C) D (Option (List Tenant × ℕ))
  unfolding select_page
  list ilike keyword status limit offset = do
    total ← query (count (matches ilike keyword status))
    select_page (matches ilike keyword status) limit offset total
