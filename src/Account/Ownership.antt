-- ===== src/Account/Ownership.antt =====
-- internal/middleware/account.go, and the chain of it with the tenant middleware.
use weiyeston.Base.{
  suc, Bool, true, false, Option, none, some, ℤ, pos, Text, int_eq, ◌==◌, if◌then◌else◌, find,
  leb_ℤ, ◌≡◌, ◌↔◌, refl, arith, sym, ◌∙◌, ap, subst, int_beq_iff, some_injective, Bool-cases, inl,
  inr,
}
use weiyeston.Http.{
  Env, Run, next, stop, settle, ◌>>=◌, or_respond, or_fail, require, Response, failure, status_of,
}
use weiyeston.Strconv.{parse_int}
use weiyeston.Middleware.{Value, int64, float64, Context}
use weiyeston.Middleware.Tenant.{tenant, precedence, header_tenant, tenant-precedence}
use weiyeston.Account.{WechatAccount, is_live}
use weiyeston.Account.Repo.{W, get_by_id}

abbrev pub number_of : Value → Option ℤ
number_of (int64 v) = some v
number_of (float64 v) = some v
number_of _ = none

abbrev known : Option Value → Option ℤ
known none = none
known (some v) = number_of v

abbrev pub anonymous : Response (Unit {0})
anonymous = failure 401 401 "未授权访问"

module _ (env : Env) where
  abbrev pub lookup_owner : ℤ → ℤ → W → Run W (Unit {0}) (Unit {0})
  lookup_owner account_id tenant_id = do
    found ← or_fail (get_by_id env account_id) (failure 500 50001 "服务器内部错误")
    a ← or_respond found (failure 404 40401 "公众号不存在")
    require (a.tenant_id == tenant_id) (failure 403 40301 "无权限操作该公众号")

  unfoldable pub check_account_ownership : Text → Option Value → W → Run W (Unit {0}) (Unit {0})
  check_account_ownership param tenant_id = do
    account_id ← or_respond (parse_int param) (failure 400 40001 "无效的公众号 ID")
    tenant ← or_respond (known tenant_id) anonymous
    lookup_owner account_id tenant

  -- v1.Use(Tenant()) and then the group's Use(CheckAccountOwnership).
  unfoldable pub tenant_then_ownership : Text → Text → Context → W → Run W (Unit {0}) (Unit {0})
  tenant_then_ownership header param ctx w = elim (tenant header ctx) [
    | next a c ↦ check_account_ownership param c.tenant_id w
    | stop r c ↦ stop r w
  ]

  lookup_owner-passes :
      (account_id tenant_id : ℤ) (w : W)
      → leb_ℤ account_id (pos 0) ≡ false
      → env.fails w.sent ≡ false
      → (status_of (lookup_owner account_id tenant_id w) ≡ none) ↔ (
          (a : WechatAccount) × (find (is_live account_id) w.tables.accounts ≡ some a)
          × (a.tenant_id ≡ tenant_id))
  unfolding get_by_id
  lookup_owner-passes account_id tenant_id w p q =
      go (leb_ℤ account_id (pos 0)) (env.fails w.sent) p q
    where
      decided :
          (o : Option WechatAccount) (t : W)
          → (status_of (
                (or_respond o (failure {D = Unit {0}} 404 40401 "公众号不存在")
                    >>= (λ a. require (a.tenant_id == tenant_id) (failure 403 40301 "无权限操作该公众号")))
                  t)
              ≡ none)
            ↔ ((a : WechatAccount) × (o ≡ some a) × (a.tenant_id ≡ tenant_id))
      decided none t = (λ h. cc, λ h. let clash = h.1 in cc)
      decided (some a) t = elim (Bool-cases (a.tenant_id == tenant_id)) [
        | inl same ↦ (λ h. (a, refl, (int_beq_iff a.tenant_id tenant_id).0 same), λ h. rw same refl)
        | inr differs ↦ (
          λ h. let clash = rw differs at h in cc,
          λ h.
              let same = some_injective h.1 in
              let owner : a.tenant_id ≡ tenant_id =
                ap (λ (x : WechatAccount). x.tenant_id) same ∙ h.2 in
              ground (arith, int_beq_iff a.tenant_id tenant_id),
        )
      ]

      go :
          (b c : Bool)
          → b ≡ false
          → c ≡ false
          → (status_of (
                (or_fail
                      (λ (w : W).
                        if b
                        then next none w
                        else if c
                        then next none (record w { sent = suc w.sent })
                        else settle w
                            (some (find (is_live account_id) w.tables.accounts, w.tables)))
                      (failure {D = Unit {0}} 500 50001 "服务器内部错误")
                    >>= (λ o. or_respond o (failure 404 40401 "公众号不存在") >>= (λ a.
                        require (a.tenant_id == tenant_id) (failure 403 40301 "无权限操作该公众号"))))
                  w)
              ≡ none)
            ↔ ((a : WechatAccount) × (find (is_live account_id) w.tables.accounts ≡ some a)
                × (a.tenant_id ≡ tenant_id))
      go true c x y = cc
      go false true x y = cc
      go false false x y =
          decided (find (is_live account_id) w.tables.accounts) (record w { sent = suc w.sent })

-- With a positive account id and a query that does not fail, a request passes the two middlewares
-- exactly if the account is there and belongs to the tenant that the header names, or without such a
-- number in the header to the tenant, else the user, of the context.
pub tenant_then_ownership-passes :
    (env : Env) (header param : Text) (ctx : Context) (w : W) (account_id : ℤ)
    → parse_int param ≡ some account_id
    → leb_ℤ account_id (pos 0) ≡ false
    → env.fails w.sent ≡ false
    → (status_of (tenant_then_ownership env header param ctx w) ≡ none) ↔ (
        (a : WechatAccount) × (find (is_live account_id) w.tables.accounts ≡ some a)
        × (number_of (precedence (header_tenant header) ctx.tenant_id ctx.user_id)
            ≡ some a.tenant_id))
unfolding tenant_then_ownership check_account_ownership
tenant_then_ownership-passes env header param ctx w account_id e p q =
    subst
      (λ r. (status_of r ≡ none) ↔ (
        (a : WechatAccount) × (find (is_live account_id) w.tables.accounts ≡ some a)
        × (number_of (precedence (header_tenant header) ctx.tenant_id ctx.user_id)
            ≡ some a.tenant_id)))
      (sym (
        ap
          (λ r. elim r [
            | next a c ↦ check_account_ownership env param c.tenant_id w
            | stop r c ↦ stop r w
          ])
          (tenant-precedence header ctx)
        ∙ ap
            (λ o.
              (or_respond o (failure 400 40001 "无效的公众号 ID") >>= (λ account_id.
                  or_respond
                    (number_of (precedence (header_tenant header) ctx.tenant_id ctx.user_id))
                    anonymous
                  >>= (λ tenant. lookup_owner env account_id tenant)))
                w)
            e))
      (by_tenant (number_of (precedence (header_tenant header) ctx.tenant_id ctx.user_id)))
  where
    by_tenant :
        (o : Option ℤ)
        → (status_of ((or_respond o anonymous >>= (λ tenant. lookup_owner env account_id tenant)) w)
            ≡ none)
          ↔ ((a : WechatAccount) × (find (is_live account_id) w.tables.accounts ≡ some a)
              × (o ≡ some a.tenant_id))
    by_tenant none = (λ h. cc, λ h. let clash = h.2 in cc)
    by_tenant (some id) =
        let passes = lookup_owner-passes env account_id id w p q in
        (
          λ h. let (a, f, o) = passes.0 h in (a, f, ap some (sym o)),
          λ h. passes.1 (h.0, h.1, sym (some_injective h.2)),
        )
