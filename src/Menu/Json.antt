-- ===== src/Menu/Json.antt =====
-- The JSON text of an account's menu in the table of internal/handler/api/menu.go.
use weiyeston.Base.{
  ℕ, suc, ◌≤◌, Bool, true, false, none, some, List, [], ◌∷◌, ◌++◌, ℤ, Text, int_eq, nat_eq, ◌≡◌,
  ◌≢◌, refl, sym, ap, ◌∙◌, filter, count, update_where, sort_by, count-append, arith, int_beq_iff,
  All, All-map, All-append, All-filter, update_where-All, Option-cases, Bool-cases, inl, inr,
}
use weiyeston.Keys.{All-sort_by, All-find, count-update_where}
use weiyeston.Menu.{
  WechatMenu, MenuTables, is_menu_of, is_row, comes_first, select_menu, in_column, rewritten,
  in_column, stored,
}
use weiyeston.Menu.Handlers.{new_menu}
use weiyeston.Menu.Single.{IsSingle, select_menu-none}

module _ {A : Type 0} (p : A → Bool) where
  All-filter_self : (xs : List A) → All (λ x. p x ≡ true) (filter p xs)
  unfolding filter
  All-filter_self [] = tt
  All-filter_self (x ∷ xs) = ground (arith, All-filter_self xs)

  none_counted : (xs : List A) → count p xs ≡ 0 → All (λ x. p x ≡ false) xs
  unfolding count
  none_counted [] e = tt
  none_counted (x ∷ xs) e = ground (arith, none_counted xs)

  -- At most one row is one row.
  only_row :
      (xs : List A) → count p xs ≤ 1 → All (λ m. p m ≡ true → All (λ x. p x ≡ true → x ≡ m) xs) xs
  unfolding count
  only_row [] h = tt
  only_row (y ∷ ys) h = elim (Bool-cases (p y)) [
    | inl here ↦
        let z = none_counted ys (let rest : count p ys ≡ 0 = ground arith in rest) in
        (
          λ e. (λ k. refl, All-map {Q = λ x. p x ≡ true → x ≡ y} (λ x f k. cc) ys z),
          All-map {Q = λ m. p m ≡ true → All (λ x. p x ≡ true → x ≡ m) (y ∷ ys)} (λ m f k. cc) ys z,
        )
    | inr gone ↦
        let rest : count p ys ≤ 1 = ground arith in
        (
          λ e. cc,
          All-map {P = λ m. p m ≡ true → All (λ x. p x ≡ true → x ≡ m) ys}
              {Q = λ m. p m ≡ true → All (λ x. p x ≡ true → x ≡ m) (y ∷ ys)}
              (λ m k e. (λ c. cc, k e)) ys (only_row ys rest),
        )
  ]

pub select_menu-All :
    (P : WechatMenu → Type 0) (account_id : ℤ) (m : WechatMenu) (t : MenuTables)
    → select_menu account_id t ≡ some m
    → All P t.menus
    → P m × (is_menu_of account_id m ≡ true)
unfolding select_menu
select_menu-All P account_id m t e h =
    let rows = filter (is_menu_of account_id) t.menus in
    (
      All-find P (λ x. true) (sort_by comes_first rows) m
          (All-sort_by P comes_first rows (All-filter P (is_menu_of account_id) t.menus h)) e,
      All-find (λ x. is_menu_of account_id x ≡ true) (λ x. true) (sort_by comes_first rows) m
          (All-sort_by (λ x. is_menu_of account_id x ≡ true) comes_first rows
            (All-filter_self (is_menu_of account_id) t.menus))
          e,
    )

-- The menus of an account all have one JSON text, and there is one.
abbrev pub HasJson : ℤ → Text → MenuTables → Type 0
HasJson account_id menu_json t =
    All (λ (x : WechatMenu). is_menu_of account_id x ≡ true → x.menu_json ≡ menu_json) t.menus
    × (count (is_menu_of account_id) t.menus ≢ 0)

pub HasJson-select :
    (account_id : ℤ) (menu_json : Text) (t : MenuTables)
    → HasJson account_id menu_json t
    → (m : WechatMenu) × (select_menu account_id t ≡ some m)
      × (m.menu_json ≡ menu_json)
      × (m.account_id ≡ account_id)
HasJson-select account_id menu_json t h = elim (Option-cases (select_menu account_id t)) [
  | inl e ↦ absurd (h.1 (select_menu-none account_id t e))
  | inr (m, e) ↦
      let (json, live) = select_menu-All _ account_id m t e h.0 in
      (m, e, json live, ground (arith, int_beq_iff m.account_id account_id))
]

pub inserted-HasJson :
    (now : ℕ) (account_id : ℤ) (menu_json : Text) (t : MenuTables)
    → select_menu account_id t ≡ none
    → HasJson account_id (t.jsonb menu_json) (record t {
      menus = t.menus ++ in_column t (stored now (new_menu account_id menu_json) t) ∷ [];
      next_menu = suc t.next_menu;
    })
unfolding count
inserted-HasJson now account_id menu_json t e =
    let zero = select_menu-none account_id t e in
    (
      All-append
          (λ (x : WechatMenu). is_menu_of account_id x ≡ true → x.menu_json ≡ t.jsonb menu_json)
          t.menus _
          (All-map {Q = λ x. is_menu_of account_id x ≡ true → x.menu_json ≡ t.jsonb menu_json}
            (λ x f k. cc) t.menus (none_counted (is_menu_of account_id) t.menus zero))
          (λ k. refl, tt),
      λ k. ground (
        arith,
        int_beq_iff account_id account_id,
        count-append (is_menu_of account_id) t.menus
            (in_column t (stored now (new_menu account_id menu_json) t) ∷ []),
      ),
    )

pub updated-HasJson :
    (now : ℕ) (account_id : ℤ) (menu_json : Text) (old : WechatMenu) (t : MenuTables)
    → IsSingle t
    → select_menu account_id t ≡ some old
    → HasJson account_id (t.jsonb menu_json) (record t {
      menus =
          update_where
            (is_row old.id)
            (rewritten now (in_column t (record old { menu_json = menu_json })))
            t.menus;
    })
updated-HasJson now account_id menu_json old t h e =
    let p = is_menu_of account_id in
    let (only, live) =
      select_menu-All _ account_id old t e (only_row p t.menus (h.single account_id)) in
    (
      update_where-All {P = λ x. p x ≡ true → x ≡ old}
          {Q = λ x. p x ≡ true → x.menu_json ≡ t.jsonb menu_json} (is_row old.id)
          (rewritten now (in_column t (record old { menu_json = menu_json }))) t.menus
          (λ x r l k. refl)
          (λ x r l k. absurd (
            let same = ap (λ (y : WechatMenu). y.id) (l k) in
            ground (arith, same, int_beq_iff x.id old.id)))
          (only live),
      λ zero.
          let grown =
            count-update_where (is_row old.id) p
              (rewritten now (in_column t (record old { menu_json = menu_json }))) t.menus
              (All-map {Q = λ x. is_row old.id x ≡ true → p x ≡ true → p x ≡ true} (λ x l r k. k)
                t.menus (only live)) in
          let none_there : count p t.menus ≡ 0 = omega (arith, grown, zero) in
          let (dead, alive) =
            select_menu-All _ account_id old t e (none_counted p t.menus none_there) in
          let clash = sym dead ∙ alive in cc,
    )
