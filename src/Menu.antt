-- ===== src/Menu.antt =====
-- internal/handler/api/menu.go: the custom menu of an account, a draft until it is published.
--
-- A statement is `none` where the foreign key of migrations/000004_wechat_menu.up.sql refuses it. The
-- column menu_json is JSONB: `jsonb` is the text that PostgreSQL gives back for a text that it takes, with
-- its own spaces and order of keys. A text that it does not take is a failure of the statement.
pub mod Handlers
pub mod Rows
pub mod Walk
pub mod Serve
pub mod Published
pub mod Single
pub mod Json
pub mod RoundTrip
mod Tests
use weiyeston.Base.{
  ℕ, suc, ◌+◌, Bool, true, false, ◌&&◌, ◌||◌, not, Option, none, some, is_none, List, [], ◌∷◌, ◌++◌,
  ℤ, pos, Text, int_eq, nat_eq, ◌==◌, if◌then◌else◌, find, filter, count, update_where, sort_by,
  ltb, ltb_ℤ, leb_ℤ,
}
use weiyeston.Http.{Env, World, Run, next, stop, statement, ◌>>=◌, pure}

-- internal/model/menu.go.
pub record WechatMenu : Type 0 where
  pub id : ℤ
  pub account_id : ℤ
  pub menu_json : Text
  pub status : ℤ
  pub published_at : Option ℕ
  pub deleted_at : Option ℕ
  pub created_at : ℕ
  pub updated_at : ℕ

abbrev pub draft : ℤ
draft = pos 0

abbrev pub published : ℤ
published = pos 1

pub record MenuTables : Type 0 where
  pub menus : List WechatMenu
  pub next_menu : ℕ
  pub is_account : ℤ → Bool
  pub jsonb : Text → Text

abbrev pub W : Type 0
W = World MenuTables (Unit {0})

-- WHERE account_id = $1 AND deleted_at IS NULL.
abbrev pub is_menu_of : ℤ → WechatMenu → Bool
is_menu_of account_id m = m.account_id == account_id && is_none m.deleted_at

-- WHERE id = $4 AND deleted_at IS NULL.
abbrev pub is_row : ℤ → WechatMenu → Bool
is_row id m = m.id == id && is_none m.deleted_at

-- ORDER BY status DESC, updated_at DESC.
abbrev pub comes_first : WechatMenu → WechatMenu → Bool
comes_first a b = ltb_ℤ b.status a.status || a.status == b.status && ltb b.updated_at a.updated_at

unfoldable pub select_menu : ℤ → MenuTables → Option WechatMenu
select_menu account_id t =
    find (λ m. true) (sort_by comes_first (filter (is_menu_of account_id) t.menus))

abbrev pub stored : ℕ → WechatMenu → MenuTables → WechatMenu
stored now m t = record m {
  id = pos t.next_menu;
  deleted_at = none;
  created_at = now;
  updated_at = now;
}

abbrev pub rewritten : ℕ → WechatMenu → WechatMenu → WechatMenu
rewritten now m old = record old {
  menu_json = m.menu_json;
  status = m.status;
  published_at = m.published_at;
  updated_at = now;
}

-- A menu with its text as the column holds it.
abbrev pub in_column : MenuTables → WechatMenu → WechatMenu
in_column t m = record m { menu_json = t.jsonb m.menu_json }

module _ (now : ℕ) where
  -- RETURNING has the id and the times, so the caller's text stays as it was sent.
  unfoldable pub insert_menu : WechatMenu → MenuTables → Option (WechatMenu × MenuTables)
  insert_menu m t =
      if t.is_account m.account_id
      then some (
        stored now m t,
        record t {
          menus = t.menus ++ in_column t (stored now m t) ∷ [];
          next_menu = suc t.next_menu;
        },
      )
      else none

  -- The rows affected, and the tables.
  unfoldable pub update_menus : WechatMenu → MenuTables → Option (ℕ × MenuTables)
  update_menus m t = some (
    count (is_row m.id) t.menus,
    record t { menus = update_where (is_row m.id) (rewritten now (in_column t m)) t.menus },
  )

  -- The trigger of the table stamps the row.
  unfoldable pub delete_menus : ℤ → MenuTables → Option (ℕ × MenuTables)
  delete_menus id t = some (
    count (is_row id) t.menus,
    record t {
      menus =
          update_where (is_row id) (λ m. record m { deleted_at = some now; updated_at = now })
            t.menus;
    },
  )

abbrev pub if_affected : Option ℕ → Option (Unit {0})
if_affected none = none
if_affected (some rows) = if rows == 0 then none else some tt

abbrev pub whether_affected : Option ℕ → Option Bool
whether_affected none = none
whether_affected (some rows) = some (ltb 0 rows)

module _ {D : Type 0} (env : Env) where
  -- An id that is not positive is an error with no statement sent.
  unfoldable pub get_by_account_id : ℤ → W → Run W D (Option (Option WechatMenu))
  get_by_account_id account_id w =
      if leb_ℤ account_id (pos 0)
      then next none w
      else statement env (λ t. some (select_menu account_id t, t)) w

  unfoldable pub create_menu : WechatMenu → W → Run W D (Option WechatMenu)
  create_menu m = statement env (insert_menu env.now m)

  -- No row affected is an error too.
  unfoldable pub update_menu : WechatMenu → W → Run W D (Option (Unit {0}))
  update_menu m = do rows ← statement env (update_menus env.now m); pure (if_affected rows)

  unfoldable pub soft_delete_menu : ℤ → W → Run W D (Option Bool)
  soft_delete_menu id = do
    rows ← statement env (delete_menus env.now id)
    pure (whether_affected rows)
