-- ===== src/Menu/Rows.antt =====
-- The statements of internal/handler/api/menu.go on rows and their ids.
use weiyeston.Base.{
  ℕ, ◌≤◌, Bool, true, false, ◌&&◌, some, [], ◌∷◌, ℤ, int_eq, nat_eq, ◌==◌, filter, count, sort_by,
  ◌≡◌, refl, ap, arith, All, All-map, All-append, All-update_where, All-filter, count-append,
  int_beq_iff,
}
use weiyeston.Http.Keeps.{Kept, Kept-if}
use weiyeston.Keys.{
  HasUniqueIds, same_row, update_where-HasUniqueIds, append-HasUniqueIds, IsNumbered,
  IsNumbered-fresh, IsNumbered-suc, All-sort_by, All-find, count-update_where,
}
use weiyeston.Menu.{
  WechatMenu, MenuTables, published, is_menu_of, is_row, comes_first, select_menu, insert_menu,
  update_menus, delete_menus, rewritten, in_column, stored,
}

abbrev pub is_published : ℤ → WechatMenu → Bool
is_published account_id m = is_menu_of account_id m && m.status == published

-- The ids are a key, and the account has at least so many published menus.
pub record IsHeld (account_id : ℤ) (n : ℕ) (t : MenuTables) : Type 0 where
  pub unique : HasUniqueIds (λ (m : WechatMenu). m.id) t.menus
  pub numbered : IsNumbered (λ (m : WechatMenu). m.id) t.next_menu t.menus
  pub held : n ≤ count (is_published account_id) t.menus

-- The rows with the id of a menu are that menu.
abbrev pub Owns : WechatMenu → MenuTables → Type 0
Owns m t = All (λ (x : WechatMenu). x.id ≡ m.id → x ≡ m) t.menus

pub select_menu-Owns :
    (account_id : ℤ) (m : WechatMenu) (t : MenuTables)
    → HasUniqueIds (λ (m : WechatMenu). m.id) t.menus
    → select_menu account_id t ≡ some m
    → Owns m t
unfolding select_menu
select_menu-Owns account_id m t u e =
    All-find (λ m. Owns m t) (λ m. true)
      (sort_by comes_first (filter (is_menu_of account_id) t.menus)) m
      (All-sort_by (λ m. Owns m t) comes_first (filter (is_menu_of account_id) t.menus)
        (All-filter (λ m. Owns m t) (is_menu_of account_id) t.menus
          (same_row (λ (m : WechatMenu). m.id) t.menus u)))
      e

module _ (account_id : ℤ) (n now : ℕ) where
  pub insert_menu-IsHeld :
      (m : WechatMenu) (t : MenuTables)
      → IsHeld account_id n t
      → Kept (IsHeld account_id n) (insert_menu now m t)
  unfolding insert_menu
  insert_menu-IsHeld m t h = Kept-if (IsHeld account_id n) (t.is_account m.account_id) _ record {
    unique =
        append-HasUniqueIds (λ (m : WechatMenu). m.id) t.menus (in_column t (stored now m t))
          (IsNumbered-fresh (λ (m : WechatMenu). m.id) t.next_menu t.menus h.numbered) h.unique;
    numbered =
        All-append _ t.menus _
          (IsNumbered-suc (λ (m : WechatMenu). m.id) t.next_menu t.menus h.numbered)
          (ground arith, tt);
    held = omega (
      arith,
      h.held,
      count-append (is_published account_id) t.menus (in_column t (stored now m t) ∷ []),
    );
  }

  pub update_menus-IsHeld :
      (m : WechatMenu) (t : MenuTables)
      → All (λ (x : WechatMenu). x.id ≡ m.id → x.status ≡ published → m.status ≡ published) t.menus
      → IsHeld account_id n t
      → Kept (IsHeld account_id n) (update_menus now m t)
  unfolding update_menus
  update_menus-IsHeld m t k h = record {
    unique =
        update_where-HasUniqueIds (λ (m : WechatMenu). m.id) (is_row m.id)
          (rewritten now (in_column t m)) t.menus (λ x. refl) h.unique;
    numbered =
        All-update_where _ (is_row m.id) (rewritten now (in_column t m)) t.menus (λ x p l. l)
          h.numbered;
    held = omega (
      arith,
      h.held,
      count-update_where (is_row m.id) (is_published account_id) (rewritten now (in_column t m))
          t.menus
          (All-map
            (λ x l p c. ground (
              arith,
              l,
              int_beq_iff x.id m.id,
              int_beq_iff x.status published,
              int_beq_iff m.status published,
            ))
            t.menus k),
    );
  }

  abbrev deleted : WechatMenu → WechatMenu
  deleted m = record m { deleted_at = some now; updated_at = now }

  still_draft :
      (x m : WechatMenu)
      → is_row m.id x ≡ true
      → is_published account_id x ≡ true
      → (x.id ≡ m.id → x ≡ m)
      → (m.status == published) ≡ false
      → ⊥
  still_draft x m p c l d =
      let ids : x.id ≡ m.id = ground (arith, int_beq_iff x.id m.id) in
      let status : (x.status == published) ≡ true = ground arith in
      let same : (x.status == published) ≡ (m.status == published) =
        ap (λ (y : WechatMenu). y.status == published) (l ids) in
      cc

  pub delete_menus-IsHeld :
      (m : WechatMenu) (t : MenuTables)
      → Owns m t
      → (m.status == published) ≡ false
      → IsHeld account_id n t
      → Kept (IsHeld account_id n) (delete_menus now m.id t)
  unfolding delete_menus
  delete_menus-IsHeld m t o d h = record {
    unique =
        update_where-HasUniqueIds (λ (m : WechatMenu). m.id) (is_row m.id) deleted t.menus
          (λ x. refl) h.unique;
    numbered = All-update_where _ (is_row m.id) deleted t.menus (λ x p l. l) h.numbered;
    held = omega (
      arith,
      h.held,
      count-update_where (is_row m.id) (is_published account_id) deleted t.menus
          (All-map (λ x l p c. absurd (still_draft x m p c l d)) t.menus o),
    );
  }
