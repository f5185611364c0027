-- ===== src/Account/Rows.antt =====
-- The statements of internal/repository/account/account.go: the key of the table, and the rows of one
-- tenant and of the others.
use weiyeston.Base.{
  ℕ, Bool, true, false, not, ◌&&◌, some, List, [], ◌∷◌, ◌++◌, ℤ, pos, int_eq, ◌==◌, find, filter,
  count, ltb_ℤ, ◌≡◌, sym, ap, ◌∙◌, arith, All, All-map, All-append, All-update_where, find_sound,
  int_beq_iff,
}
use mathlib.Core.List.{append-nil}
use weiyeston.Http.Keeps.{Kept, Kept-if}
use weiyeston.Keys.{
  HasUniqueIds, same_row, update_where-HasUniqueIds, append-HasUniqueIds, IsNumbered,
  IsNumbered-fresh, IsNumbered-suc, All-find, filter-append, filter-update_where,
}
use weiyeston.Account.{
  WechatAccount, AccountTables, is_live, admitted, is_index, app_id_key, authorizer_key,
}
use weiyeston.Account.Repo.{insert_account, update_live, stored}

abbrev pub is_foreign : ℤ → WechatAccount → Bool
is_foreign tenant_id a = not (a.tenant_id == tenant_id)

abbrev pub foreign : ℤ → AccountTables → List WechatAccount
foreign tenant_id t = filter (is_foreign tenant_id) t.accounts

abbrev pub id_of : WechatAccount → ℤ
id_of a = a.id

-- The ids are a key, and the rows that are not the tenant's are the given ones.
pub record IsApart (tenant_id : ℤ) (others : List WechatAccount) (t : AccountTables) : Type 0 where
  pub unique : HasUniqueIds id_of t.accounts
  pub numbered : IsNumbered id_of t.next_account t.accounts
  pub apart : foreign tenant_id t ≡ others

-- The rows with an id are the tenant's.
abbrev pub IsMine : ℤ → ℤ → AccountTables → Type 0
IsMine tenant_id id t = All (λ (x : WechatAccount). x.id ≡ id → x.tenant_id ≡ tenant_id) t.accounts

pub find-IsMine :
    (tenant_id id : ℤ) (a : WechatAccount) (t : AccountTables)
    → HasUniqueIds id_of t.accounts
    → find (is_live id) t.accounts ≡ some a
    → a.tenant_id ≡ tenant_id
    → (a.id ≡ id) × IsMine tenant_id id t
find-IsMine tenant_id id a t u e o =
    let live = find_sound (is_live id) t.accounts a e in
    let same : a.id ≡ id = ground (arith, int_beq_iff a.id id) in
    (
      same,
      All-map {P = λ x. x.id ≡ a.id → x ≡ a} {Q = λ x. x.id ≡ id → x.tenant_id ≡ tenant_id}
          (λ x l k. ap (λ (y : WechatAccount). y.tenant_id) (l (k ∙ sym same)) ∙ o) t.accounts
          (All-find (λ a. All (λ (x : WechatAccount). x.id ≡ a.id → x ≡ a) t.accounts) (is_live id)
            t.accounts a (same_row id_of t.accounts u) e),
    )

module _ {A : Type 0} (J : AccountTables → Type 0) where
  pub admitted-Kept : (a : A) (t : AccountTables) → J t → Kept J (admitted a t)
  unfolding admitted
  admitted-Kept a t h =
      Kept-if J (is_index app_id_key t.accounts && is_index authorizer_key t.accounts) (some (a, t))
        h

module _ (tenant_id : ℤ) (others : List WechatAccount) where
  pub insert_account-IsApart :
      (now : ℕ) (a : WechatAccount) (t : AccountTables)
      → a.tenant_id ≡ tenant_id
      → IsApart tenant_id others t
      → Kept (IsApart tenant_id others) (insert_account now a t)
  unfolding insert_account filter
  insert_account-IsApart now a t o h =
      Kept-if (IsApart tenant_id others) (t.is_tenant a.tenant_id) _ (
        admitted-Kept (IsApart tenant_id others) (stored now a t) _ record {
          unique =
              append-HasUniqueIds id_of t.accounts (stored now a t)
                (IsNumbered-fresh id_of t.next_account t.accounts h.numbered) h.unique;
          numbered =
              All-append _ t.accounts _ (IsNumbered-suc id_of t.next_account t.accounts h.numbered)
                (ground arith, tt);
          apart =
              filter-append (is_foreign tenant_id) t.accounts (stored now a t ∷ [])
              ∙ ap (λ rows. foreign tenant_id t ++ rows) dropped
              ∙ append-nil _
              ∙ h.apart;
        })
    where
      dropped : filter (is_foreign tenant_id) (stored now a t ∷ []) ≡ []
      dropped = ground (arith, int_beq_iff a.tenant_id tenant_id)

  pub update_live-IsApart :
      (now : ℕ) (id : ℤ) (change : WechatAccount → WechatAccount) (t : AccountTables)
      → ((x : WechatAccount) → (change x).id ≡ x.id)
      → ((x : WechatAccount) → (change x).tenant_id ≡ x.tenant_id)
      → IsMine tenant_id id t
      → IsApart tenant_id others t
      → Kept (IsApart tenant_id others) (update_live now id change t)
  unfolding update_live
  update_live-IsApart now id change t i o m h =
      admitted-Kept (IsApart tenant_id others) (count (is_live id) t.accounts) _ record {
        unique = update_where-HasUniqueIds id_of (is_live id) change t.accounts i h.unique;
        numbered =
            All-update_where _ (is_live id) change t.accounts
              (λ x p l. ap (λ k. ltb_ℤ k (pos t.next_account)) (i x) ∙ l) h.numbered;
        apart =
            filter-update_where (is_foreign tenant_id) (is_live id) change t.accounts
              (All-map (λ x l p. mine x l p) t.accounts m)
            ∙ h.apart;
      }
    where
      mine :
          (x : WechatAccount)
          → (x.id ≡ id → x.tenant_id ≡ tenant_id)
          → is_live id x ≡ true
          → (is_foreign tenant_id x ≡ false) × (is_foreign tenant_id (change x) ≡ false)
      mine x l p =
          let ids : x.id ≡ id = ground (arith, int_beq_iff x.id id) in
          let home : is_foreign tenant_id x ≡ false =
            ground (arith, l ids, int_beq_iff x.tenant_id tenant_id) in
          (home, ap (λ k. not (k == tenant_id)) (o x) ∙ home)

  pub update_live-IsMine :
      (now : ℕ) (id : ℤ) (change : WechatAccount → WechatAccount) (t : AccountTables)
      → ((x : WechatAccount) → (change x).id ≡ x.id)
      → ((x : WechatAccount) → (change x).tenant_id ≡ x.tenant_id)
      → IsMine tenant_id id t
      → Kept (IsMine tenant_id id) (update_live now id change t)
  unfolding update_live
  update_live-IsMine now id change t i o m =
      admitted-Kept (IsMine tenant_id id) (count (is_live id) t.accounts) _ (
        All-update_where (λ (x : WechatAccount). x.id ≡ id → x.tenant_id ≡ tenant_id) (is_live id)
          change t.accounts (λ x p l e. o x ∙ l (sym (i x) ∙ e)) m)
