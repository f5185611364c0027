-- ===== src/Auth/Password/Change.antt =====
-- ChangePassword of internal/handler/api/auth.go.
use weiyeston.Base.{
  ℕ, Bool, true, false, Option, none, some, ℤ, pos, text_eq, nat_eq, int_eq, leb_ℤ, ◌≡◌, refl, sym,
  ap, ◌∙◌, arith, find, find_sound, if◌then◌else◌, some_injective,
}
use weiyeston.Http.{
  Env, next, stop, ◌>>=◌, ◌>>◌, or_fail, or_respond, require, Response, bound, failure,
}
use weiyeston.Http.Hoare.{
  Ensures, OnValue, Ensures-stop, Ensures->>=, Ensures->>, Ensures-or_fail, Ensures-require,
  Ensures-statement,
}
use weiyeston.Middleware.{int64}
use weiyeston.Tenant.{Tenant, TenantTables, is_live}
use weiyeston.Tenant.Repo.{W, get_by_id, query}
use weiyeston.Auth.{Services, verify_password}
use weiyeston.Auth.Views.{AuthData, ChangePasswordRequest}
use weiyeston.Auth.Handlers.{server_error, set_password}
use weiyeston.Auth.Password.{IsReplaced, set_password-Ensures, is_live-eq-true}
use weiyeston.Auth.Profile.{change_password}

module _ {C : Type 0} (s : Services C) (env : Env) (salt : ℕ) (id : ℤ) where
  -- The tenant of the context gave its old password.
  pub record IsChanged (req : ChangePasswordRequest) (before after : TenantTables) : Type 0 where
    pub user : Tenant
    pub live : find (is_live id) before.tenants ≡ some user
    pub named : (user.id ≡ id) × (user.deleted_at ≡ none)
    pub old : verify_password s user.password_hash req.old_password ≡ true
    pub replaced : IsReplaced s env id req.new_password before after

  module _ (req : ChangePasswordRequest) (w : W C) where
    abbrev ChangeDone : Response AuthData → W C → Type 0
    ChangeDone r t = r.status ≡ 200 → IsChanged req w.tables t.tables

    abbrev Live : Option Tenant → W C → Type 0
    Live found t = (t.tables ≡ w.tables) × (find (is_live id) w.tables.tenants ≡ found)

    get_by_id-Live :
        Ensures (OnValue Live (ChangeDone server_error)) ChangeDone (get_by_id env id w)
    unfolding get_by_id
    get_by_id-Live = go (leb_ℤ id (pos 0))
      where
        go :
            (b : Bool)
            → Ensures
                (OnValue Live (ChangeDone server_error))
                ChangeDone
                (if b then next none w else query env (find (is_live id)) w)
        go true = λ h. absurd (omega (arith, h))
        go false =
            Ensures-statement (OnValue Live (ChangeDone server_error)) ChangeDone env
              (λ t. some (find (is_live id) t.tenants, t)) w (λ h. absurd (omega (arith, h)))
              λ a t h. (sym (ap (λ p. p.1) (some_injective h)), ap (λ p. p.0) (some_injective h))

    Live-Ensures :
        (found : Option Tenant) (u : W C)
        → Live found u
        → Ensures
            (λ _ t. Unit {0})
            ChangeDone
            ((or_respond found (failure 404 40401 "用户不存在") >>= (λ user.
                require
                  (verify_password s user.password_hash req.old_password)
                  (failure 400 40002 "旧密码不正确")
                >> set_password s env salt id req.new_password "密码修改失败" "密码修改成功"))
              u)
    Live-Ensures none u f = λ h. absurd (omega (arith, h))
    Live-Ensures (some user) u f =
        Ensures->> (λ _ t. (verify_password s user.password_hash req.old_password ≡ true) × (t ≡ u))
          (λ _ t. Unit {0}) ChangeDone
          (require (verify_password s user.password_hash req.old_password) _) _ u
          (Ensures-require _ ChangeDone (verify_password s user.password_hash req.old_password) _ u
            (λ v. (v, refl)) λ _ h. absurd (omega (arith, h)))
          λ _ t (old, same).
            set_password-Ensures s env ChangeDone id req.new_password w salt _ _ t
              (ap (λ w. w.tables) same ∙ f.0) (λ t h. absurd (omega (arith, h)))
              (λ t h. absurd (omega (arith, h)))
              λ t replaced _. record {
                user = user;
                live = f.1;
                named = is_live-eq-true id user (find_sound (is_live id) w.tables.tenants user f.1);
                old = old;
                replaced = replaced;
              }

    change_password-Ensures :
        Ensures
          (λ _ t. Unit {0})
          ChangeDone
          (change_password env s salt (some (int64 id)) (bound req) w)
    unfolding change_password
    change_password-Ensures =
        Ensures->>= Live (λ _ t. Unit {0}) ChangeDone (or_fail (get_by_id env id) _) _ w
          (Ensures-or_fail Live ChangeDone (get_by_id env id) _ w get_by_id-Live)
          λ found t f. Live-Ensures found t f

-- ChangePassword answers 200 only if the context names a live tenant and the old password is that
-- tenant's. The row of the tenant then has a hash that accepts the new password, which has at most 72
-- bytes, and the time of the request as its update; every other column and every other row are as they
-- were.
pub change_password-IsChanged :
    {C : Type 0} (s : Services C) (env : Env) (salt : ℕ) (id : ℤ) (req : ChangePasswordRequest)
    (w t : W C) (r : Response AuthData)
    → change_password env s salt (some (int64 id)) (bound req) w ≡ stop r t
    → r.status ≡ 200
    → IsChanged s env salt id req w.tables t.tables
change_password-IsChanged s env salt id req w t r h =
    Ensures-stop (λ _ t. Unit {0}) (ChangeDone s env salt id req w)
      (change_password env s salt (some (int64 id)) (bound req) w)
      (change_password-Ensures s env salt id req w) h
