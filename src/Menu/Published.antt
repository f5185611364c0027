-- ===== src/Menu/Published.antt =====
-- Published menus under the handlers of internal/handler/api/menu.go.
use weiyeston.Base.{ℕ, ◌≡◌, sym, ap, ◌∙◌, List, ℤ, All-map}
use weiyeston.Http.{Env}
use weiyeston.Menu.{WechatMenu, W, published}
use weiyeston.Menu.Handlers.{new_menu}
use weiyeston.Menu.Rows.{
  IsHeld, select_menu-Owns, insert_menu-IsHeld, update_menus-IsHeld, delete_menus-IsHeld,
}
use weiyeston.Menu.Walk.{KeptByMenus}
use weiyeston.Menu.Serve.{MenuRequest, serve_menus, serve_menus-Keeps}

IsHeld-KeptByMenus : (account_id : ℤ) (n : ℕ) → KeptByMenus (IsHeld account_id n)
IsHeld-KeptByMenus held n = record {
  inserted = λ now account_id menu_json t e h.
      insert_menu-IsHeld held n now (new_menu account_id menu_json) t h;
  rewrote = λ now account_id old m t e i s h.
      update_menus-IsHeld held n now m t
        (All-map {P = λ x. x.id ≡ old.id → x ≡ old}
          {Q = λ x. x.id ≡ m.id → x.status ≡ published → m.status ≡ published}
          (λ x l k p. s (sym (ap (λ (y : WechatMenu). y.status) (l (k ∙ i))) ∙ p)) t.menus
          (select_menu-Owns account_id old t h.unique e))
        h;
  discarded = λ now account_id m t e d h.
      delete_menus-IsHeld held n now m t (select_menu-Owns account_id m t h.unique e) d h;
}

-- No series of requests, whichever of their statements fail, takes away a published menu: if ids are
-- a key of the table and lie below the next id, that stays so and an account that has at least n live
-- published menus keeps at least n of them.
pub serve_menus-IsHeld :
    (account_id : ℤ) (n : ℕ) (requests : List (Env × MenuRequest)) (w : W)
    → IsHeld account_id n w.tables
    → IsHeld account_id n (serve_menus requests w).tables
serve_menus-IsHeld account_id n =
    serve_menus-Keeps (IsHeld account_id n) (IsHeld-KeptByMenus account_id n)
