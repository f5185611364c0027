-- ===== src/Menu/Single.antt =====
-- The number of an account's menus under the handlers of internal/handler/api/menu.go.
use weiyeston.Base.{
  ℕ, ◌≤◌, Bool, true, none, some, List, [], ◌∷◌, ℤ, Text, int_eq, ◌≡◌, refl, sym, ◌∙◌, find, filter,
  count, update_where, sort_by, count-append, count-sort_by, arith, int_beq_iff,
}
use weiyeston.Http.{Env}
use weiyeston.Http.Keeps.{Kept, Kept-if}
use weiyeston.Menu.{
  WechatMenu, MenuTables, W, is_menu_of, is_row, comes_first, select_menu, insert_menu,
  update_menus, delete_menus, rewritten, in_column, stored,
}
use weiyeston.Menu.Handlers.{new_menu}
use weiyeston.Menu.Walk.{KeptByMenus}
use weiyeston.Menu.Serve.{MenuRequest, serve_menus, serve_menus-Keeps}

pub record IsSingle (t : MenuTables) : Type 0 where
  pub single : (account_id : ℤ) → count (is_menu_of account_id) t.menus ≤ 1

module _ {A : Type 0} where
  count-filter : (p : A → Bool) (xs : List A) → count p (filter p xs) ≡ count p xs
  unfolding count filter
  count-filter p [] = refl
  count-filter p (x ∷ xs) = ground (arith, count-filter p xs)

  find-eq-none : (p : A → Bool) (xs : List A) → find (λ x. true) xs ≡ none → count p xs ≡ 0
  unfolding find count
  find-eq-none p [] e = refl
  find-eq-none p (x ∷ xs) e = cc

  -- An update that brings no row into a condition does not raise the count of its rows.
  count-update_where_le :
      (p c : A → Bool) (f : A → A) (xs : List A)
      → ((x : A) → c (f x) ≡ true → c x ≡ true)
      → count c (update_where p f xs) ≤ count c xs
  unfolding count update_where
  count-update_where_le p c f [] k = omega arith
  count-update_where_le p c f (x ∷ xs) k = ground (arith, k x, count-update_where_le p c f xs k)

pub select_menu-none :
    (account_id : ℤ) (t : MenuTables)
    → select_menu account_id t ≡ none
    → count (is_menu_of account_id) t.menus ≡ 0
unfolding select_menu
select_menu-none account_id t e =
    sym (
      count-sort_by (is_menu_of account_id) comes_first (filter (is_menu_of account_id) t.menus)
      ∙ count-filter (is_menu_of account_id) t.menus)
    ∙ find-eq-none (is_menu_of account_id)
        (sort_by comes_first (filter (is_menu_of account_id) t.menus)) e

inserted-IsSingle :
    (now : ℕ) (account_id : ℤ) (menu_json : Text) (t : MenuTables)
    → select_menu account_id t ≡ none
    → IsSingle t
    → Kept IsSingle (insert_menu now (new_menu account_id menu_json) t)
unfolding insert_menu count
inserted-IsSingle now account_id menu_json t e h =
    Kept-if IsSingle (t.is_account account_id) _ record {
      single = λ id. ground (
        arith,
        h.single id,
        select_menu-none account_id t e,
        int_beq_iff account_id id,
        count-append (is_menu_of id) t.menus
            (in_column t (stored now (new_menu account_id menu_json) t) ∷ []),
      );
    }

updated-IsSingle :
    (now : ℕ) (m : WechatMenu) (t : MenuTables) → IsSingle t → Kept IsSingle (update_menus now m t)
unfolding update_menus
updated-IsSingle now m t h = record {
  single = λ id. omega (
    arith,
    h.single id,
    count-update_where_le (is_row m.id) (is_menu_of id) (rewritten now (in_column t m)) t.menus
        (λ x k. k),
  );
}

deleted-IsSingle :
    (now : ℕ) (id : ℤ) (t : MenuTables) → IsSingle t → Kept IsSingle (delete_menus now id t)
unfolding delete_menus
deleted-IsSingle now id t h = record {
  single = λ account_id. omega (
    arith,
    h.single account_id,
    count-update_where_le (is_row id) (is_menu_of account_id)
        (λ (m : WechatMenu). record m { deleted_at = some now; updated_at = now }) t.menus
        (λ x k. ground arith),
  );
}

IsSingle-KeptByMenus : KeptByMenus IsSingle
IsSingle-KeptByMenus = record {
  inserted = inserted-IsSingle;
  rewrote = λ now account_id old m t e i s h. updated-IsSingle now m t h;
  discarded = λ now account_id m t e d h. deleted-IsSingle now m.id t h;
}

-- If no account has more than one menu that is not deleted, then none has after any series of requests
-- on menus, whichever of their statements fail.
pub serve_menus-IsSingle :
    (requests : List (Env × MenuRequest)) (w : W)
    → IsSingle w.tables
    → IsSingle (serve_menus requests w).tables
serve_menus-IsSingle = serve_menus-Keeps IsSingle IsSingle-KeptByMenus
