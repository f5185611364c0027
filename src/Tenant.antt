-- ===== src/Tenant.antt =====
-- internal/model/tenant.go and the table tenants. Times are in nanoseconds. Of the columns' types only
-- the unique index on the names of live tenants and the check on roles are modelled.
pub mod Repo
pub mod Keeps
use weiyeston.Base.{
  ℕ, Bool, false, ◌&&◌, ◌||◌, Option, none, some, is_none, List, ℤ, Text, codes, text_eq, int_eq,
  ◌==◌,
}

pub record Tenant : Type 0 where
  pub id : ℤ
  pub username : Text
  pub password_hash : Text
  pub nickname : Option Text
  pub email : Option Text
  pub phone : Option Text
  pub company : Option Text
  pub avatar_url : Option Text
  pub role : Text
  pub status : ℤ
  pub vip_end_time : Option ℤ
  pub vip_level : Text
  pub last_login_at : Option ℕ
  pub deleted_at : Option ℕ
  pub created_at : ℕ
  pub updated_at : ℕ

pub record TenantTables : Type 0 where
  pub tenants : List Tenant
  pub next_tenant : ℕ

abbrev pub is_live : ℤ → Tenant → Bool
is_live id t = t.id == id && is_none t.deleted_at

abbrev pub is_named : Text → Tenant → Bool
is_named username t = t.username == username && is_none t.deleted_at

abbrev is_text : Text → Option Text → Bool
is_text s none = false
is_text s (some t) = t == s

abbrev pub has_phone : Text → Tenant → Bool
has_phone phone t = is_text phone t.phone && is_none t.deleted_at

abbrev pub admin_role : Text
admin_role = codes "admin"

abbrev pub user_role : Text
user_role = codes "user"

-- The check chk_tenants_role of the migrations.
abbrev pub is_role : Text → Bool
is_role role = role == admin_role || role == user_role

abbrev pub id_of : Tenant → ℤ
id_of t = t.id
