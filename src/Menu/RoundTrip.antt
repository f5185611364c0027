-- ===== src/Menu/RoundTrip.antt =====
-- SaveDraft and then GetMenu of internal/handler/api/menu.go.
use weiyeston.Base.{
  ℕ, suc, Bool, true, false, Option, none, some, [], ◌∷◌, ◌++◌, ℤ, pos, Text, int_eq, nat_eq, ◌==◌,
  if◌then◌else◌, ◌≡◌, refl, count, update_where, leb_ℤ,
}
use weiyeston.Http.{
  Env, Run, next, after, answer, success, bound, or_fail, respond, settle, ◌>>=◌, ◌>>◌,
}
use weiyeston.Strconv.{parse_int}
use weiyeston.Middleware.{int64}
use weiyeston.Menu.{
  WechatMenu, W, is_row, select_menu, insert_menu, update_menus, rewritten, in_column, stored,
  get_by_account_id, create_menu, update_menu,
}
use weiyeston.Menu.Handlers.{MenuVo, new_menu, to_menu_vo, get_menu, save_draft, save, server_error}
use weiyeston.Menu.Single.{IsSingle}
use weiyeston.Menu.Json.{HasJson, HasJson-select, inserted-HasJson, updated-HasJson}

-- A server none of whose statements fail.
abbrev pub quiet : ℕ → Env
quiet now = record { now = now; fails = λ n. false }

saved-HasJson :
    (now : ℕ) (account_id : ℤ) (menu_json : Text) (o : Option WechatMenu) (t : W)
    → select_menu account_id t.tables ≡ o
    → t.tables.is_account account_id ≡ true
    → IsSingle t.tables
    → HasJson account_id
        (t.tables.jsonb menu_json)
        (after (save (quiet now) account_id menu_json o t)).tables
unfolding save create_menu insert_menu update_menu update_menus
saved-HasJson now account_id menu_json none t e a h = go (t.tables.is_account account_id) a
  where
    go :
        (b : Bool)
        → b ≡ true
        → HasJson account_id
            (t.tables.jsonb menu_json)
            (after (
              (or_fail {D = MenuVo}
                    (λ (w : W). settle w (
                      if b
                      then some (
                        stored now (new_menu account_id menu_json) w.tables,
                        record w.tables {
                          menus =
                              w.tables.menus
                              ++ in_column w.tables
                                  (stored now (new_menu account_id menu_json) w.tables)
                                ∷ [];
                          next_menu = suc w.tables.next_menu;
                        },
                      )
                      else none))
                    (server_error "创建菜单草稿失败")
                  >>= (λ m. respond {A = Unit {0}} (success 201 "草稿已保存" (some (to_menu_vo m)))))
                t)).tables
    go true x = inserted-HasJson now account_id menu_json t.tables e
    go false x = cc
saved-HasJson now account_id menu_json (some old) t e a h =
    go (count (is_row old.id) t.tables.menus == 0)
  where
    go :
        (b : Bool)
        → HasJson account_id
            (t.tables.jsonb menu_json)
            (after (
              (or_fail {D = MenuVo}
                    (λ (w : W). next (if b then none else some tt) (record w {
                      tables = record w.tables {
                        menus =
                            update_where
                              (is_row old.id)
                              (rewritten now
                                (in_column w.tables (record old { menu_json = menu_json })))
                              w.tables.menus;
                      };
                      sent = suc w.sent;
                    }))
                    (server_error "更新菜单草稿失败")
                  >> respond {A = Unit {0}} (
                      success 200 "草稿已更新"
                        (some (to_menu_vo (record old { menu_json = menu_json })))))
                t)).tables
    go true = updated-HasJson now account_id menu_json old t.tables h e
    go false = updated-HasJson now account_id menu_json old t.tables h e

got :
    (now : ℕ) (account_id : ℤ) (w : W)
    → leb_ℤ account_id (pos 0) ≡ false
    → get_by_account_id {D = MenuVo} (quiet now) account_id w
      ≡ next (some (select_menu account_id w.tables)) (record w { sent = suc w.sent })
unfolding get_by_account_id
got now account_id w e = go (leb_ℤ account_id (pos 0)) e
  where
    go :
        (b : Bool)
        → b ≡ false
        → ◌≡◌ {A = Run W MenuVo (Option (Option WechatMenu))}
            (if b
              then next none w
              else next (some (select_menu account_id w.tables)) (record w { sent = suc w.sent }))
            (next (some (select_menu account_id w.tables)) (record w { sent = suc w.sent }))
    go true x = cc
    go false x = refl

module _ (param : Text) (tenant : ℤ) (account_id : ℤ) (parsed : parse_int param ≡ some account_id)
    (positive : leb_ℤ account_id (pos 0) ≡ false) where
  save_draft-HasJson :
      (now : ℕ) (menu_json : Text) (w : W)
      → w.tables.is_account account_id ≡ true
      → IsSingle w.tables
      → HasJson account_id
          (w.tables.jsonb menu_json)
          (after (save_draft (quiet now) param (some (int64 tenant)) (bound menu_json) w)).tables
  unfolding save_draft
  save_draft-HasJson now menu_json w a h =
      rw (parsed, ◌>>=◌, got now account_id w positive)
        (saved-HasJson now account_id menu_json (select_menu account_id w.tables)
          (record w { sent = suc w.sent }) refl a h)

  get_menu-select :
      (now : ℕ) (m : WechatMenu) (w : W)
      → select_menu account_id w.tables ≡ some m
      → answer (get_menu (quiet now) param (some (int64 tenant)) w)
        ≡ some (success 200 "ok" (some (to_menu_vo m)))
  unfolding get_menu
  get_menu-select now m w e = rw (parsed, ◌>>=◌, got now account_id w positive, e) refl

-- With a positive id of an account that exists and has at most one menu, and where no statement fails,
-- GetMenu right after SaveDraft answers 200 with a menu of that account, whose JSON text is what a JSONB
-- column gives back for the text that was saved.
pub save_draft-get_menu :
    (param : Text) (tenant account_id : ℤ) (now later : ℕ) (menu_json : Text) (w : W)
    → parse_int param ≡ some account_id
    → leb_ℤ account_id (pos 0) ≡ false
    → w.tables.is_account account_id ≡ true
    → IsSingle w.tables
    → (m : WechatMenu) × (answer (
          get_menu
            (quiet later)
            param
            (some (int64 tenant))
            (after (save_draft (quiet now) param (some (int64 tenant)) (bound menu_json) w)))
        ≡ some (success 200 "ok" (some (to_menu_vo m))))
      × (m.menu_json ≡ w.tables.jsonb menu_json)
      × (m.account_id ≡ account_id)
save_draft-get_menu param tenant account_id now later menu_json w e p a h =
    let saved = after (save_draft (quiet now) param (some (int64 tenant)) (bound menu_json) w) in
    let (m, selected, json, owner) =
      HasJson-select account_id (w.tables.jsonb menu_json) saved.tables
        (save_draft-HasJson param tenant account_id e p now menu_json w a h) in
    (m, get_menu-select param tenant account_id e p later m saved selected, json, owner)
