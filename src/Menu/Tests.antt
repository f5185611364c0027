-- ===== src/Menu/Tests.antt =====
-- The theorems on menus at concrete tables.
use weiyeston.Base.{
  filter, ◌!=◌, nat_eq, false, none, some, List, [], ◌∷◌, pos, codes, int_eq, nat_eq, ◌==◌, refl,
  arith, count,
}
use weiyeston.Middleware.{int64}
use weiyeston.Http.{Env, bound}
use weiyeston.Menu.{WechatMenu, W}
use weiyeston.Menu.Rows.{IsHeld}
use weiyeston.Menu.Serve.{MenuRequest, to_save, to_delete, serve_menus}
use weiyeston.Menu.Published.{serve_menus-IsHeld}
use weiyeston.Base.{text_eq, ◌≡◌}
use weiyeston.Http.{answer, after, success}
use weiyeston.Strconv.{parse_int, parse_uint, scan}
use weiyeston.Menu.Handlers.{get_menu, save_draft, to_menu_vo}
use weiyeston.Menu.Single.{IsSingle, serve_menus-IsSingle}
use weiyeston.Menu.RoundTrip.{quiet, save_draft-get_menu}

abbrev shown : WechatMenu
shown = record {
  id = pos 1;
  account_id = pos 3;
  menu_json = codes "{}";
  status = pos 1;
  published_at = some 5;
  deleted_at = none;
  created_at = 4;
  updated_at = 5;
}

abbrev one_menu : W
one_menu = record {
  tables = record {
    menus = shown ∷ [];
    next_menu = 2;
    is_account = λ id. id == pos 3;
    jsonb = filter (λ c. c != 32);
  };
  sent = 0;
  store = tt;
}

abbrev later : Env
later = record { now = 9; fails = λ n. false }

abbrev save_and_delete : List (Env × MenuRequest)
save_and_delete =
    (later, to_save (codes "3") (some (int64 (pos 8))) (bound (codes "{\"button\":[]}")))
    ∷ (later, to_delete (codes "3") (some (int64 (pos 8))))
    ∷ []

one_menu-IsHeld : IsHeld (pos 3) 1 one_menu.tables
unfolding count
one_menu-IsHeld = record { unique = (tt, tt); numbered = (refl, tt); held = omega arith }

serve_menus-IsHeld_example : IsHeld (pos 3) 1 (serve_menus save_and_delete one_menu).tables
serve_menus-IsHeld_example = serve_menus-IsHeld (pos 3) 1 save_and_delete one_menu one_menu-IsHeld

one_menu-IsSingle : IsSingle one_menu.tables
unfolding count
one_menu-IsSingle = record { single = λ id. ground arith }

serve_menus-IsSingle_example : IsSingle (serve_menus save_and_delete one_menu).tables
serve_menus-IsSingle_example = serve_menus-IsSingle save_and_delete one_menu one_menu-IsSingle

three_parsed : parse_int (codes "3") ≡ some (pos 3)
unfolding parse_int parse_uint scan
three_parsed = refl

save_draft-get_menu_example :
    (m : WechatMenu) × (answer (
        get_menu (quiet 10) (codes "3") (some (int64 (pos 8))) (
          after (
            save_draft
              (quiet 9)
              (codes "3")
              (some (int64 (pos 8)))
              (bound (codes "[ ]"))
              one_menu)))
      ≡ some (success 200 "ok" (some (to_menu_vo m))))
    × (m.menu_json ≡ codes "[]")
    × (m.account_id ≡ pos 3)
unfolding filter
save_draft-get_menu_example =
    save_draft-get_menu (codes "3") (pos 8) (pos 3) 9 10 (codes "[ ]") one_menu three_parsed refl
      refl one_menu-IsSingle
