-- ===== src/Auth/Password/Reset.antt =====
-- ResetPassword of internal/handler/api/auth.go.
use weiyeston.Base.{
  ℕ, Bool, true, false, Option, none, some, [], text_eq, nat_eq, int_eq, ◌==◌, ◌≡◌, refl, sym, ap,
  arith, find, find_sound, Text, codes, ◌∙◌, Option-cases, inl, inr, if◌then◌else◌, text_beq_iff,
  some_injective, subst,
}
use weiyeston.Http.{Env, next, stop, ◌>>=◌, or_fail, or_respond, require, Response, bound, failure}
use weiyeston.Http.Hoare.{
  Ensures, OnValue, Ensures-stop, Ensures->>=, Ensures->>, Ensures-or_fail, Ensures-require,
  Ensures-statement,
}
use weiyeston.Tenant.{Tenant, TenantTables, has_phone}
use weiyeston.Tenant.Repo.{W, get_by_phone, query}
use weiyeston.Auth.{Services}
use weiyeston.Auth.Views.{AuthData, ResetPasswordRequest}
use weiyeston.Auth.Handlers.{server_error, phone_pattern, preset_code, set_password, reset_password}
use weiyeston.Auth.Password.{IsReplaced, set_password-Ensures}

has_phone-eq-true :
    (phone : Text) (a : Tenant)
    → has_phone phone a ≡ true
    → (a.phone ≡ some phone) × (a.deleted_at ≡ none)
has_phone-eq-true phone a e = elim (Option-cases a.deleted_at) [
  | inr (end, gone) ↦ let clash = rw gone at e in absurd (ground (arith, clash))
  | inl live ↦ elim (Option-cases a.phone) [
    | inl missing ↦ let clash = rw missing at e in absurd (ground (arith, clash))
    | inr (held, there) ↦
        let same = rw there at e in
        (there ∙ ap some (ground (arith, same, text_beq_iff held phone)), live)
  ]
]

module _ {C : Type 0} (s : Services C) (env : Env) (salt : ℕ) where
  -- The code 888888, and a live tenant with the number.
  pub record IsReset (req : ResetPasswordRequest) (before after : TenantTables) : Type 0 where
    pub user : Tenant
    pub code : req.code ≡ codes "888888"
    pub phone : phone_pattern req.phone ≡ true
    pub found : find (has_phone req.phone) before.tenants ≡ some user
    pub owner : (user.phone ≡ some req.phone) × (user.deleted_at ≡ none)
    pub replaced : IsReplaced s env user.id req.new_password before after

  module _ (req : ResetPasswordRequest) (w : W C) where
    abbrev ResetDone : Response AuthData → W C → Type 0
    ResetDone r t = r.status ≡ 200 → IsReset req w.tables t.tables

    abbrev Found : Option Tenant → W C → Type 0
    Found found t = (t.tables ≡ w.tables) × (find (has_phone req.phone) w.tables.tenants ≡ found)

    get_by_phone-Found :
        Ensures (OnValue Found (ResetDone server_error)) ResetDone (get_by_phone env req.phone w)
    unfolding get_by_phone
    get_by_phone-Found = go (req.phone == [])
      where
        go :
            (b : Bool)
            → Ensures
                (OnValue Found (ResetDone server_error))
                ResetDone
                (if b then next none w else query env (find (has_phone req.phone)) w)
        go true = λ h. absurd (omega (arith, h))
        go false =
            Ensures-statement (OnValue Found (ResetDone server_error)) ResetDone env
              (λ t. some (find (has_phone req.phone) t.tenants, t)) w
              (λ h. absurd (omega (arith, h)))
              λ a t h. (sym (ap (λ p. p.1) (some_injective h)), ap (λ p. p.0) (some_injective h))

    Found-Ensures :
        (found : Option Tenant) (u : W C)
        → Found found u
        → req.code ≡ preset_code
        → phone_pattern req.phone ≡ true
        → Ensures
            (λ _ t. Unit {0})
            ResetDone
            ((or_respond found (failure 404 40401 "该手机号未注册") >>= (λ user.
                set_password s env salt user.id req.new_password "密码重置失败" "密码重置成功，请使用新密码登录"))
              u)
    Found-Ensures none u f c p = λ h. absurd (omega (arith, h))
    Found-Ensures (some user) u f c p =
        set_password-Ensures s env ResetDone user.id req.new_password w salt _ _ u f.0
          (λ t h. absurd (omega (arith, h))) (λ t h. absurd (omega (arith, h)))
          λ t replaced _. record {
            user = user;
            code = c;
            phone = p;
            found = f.1;
            owner =
                has_phone-eq-true req.phone user
                  (find_sound (has_phone req.phone) w.tables.tenants user f.1);
            replaced = replaced;
          }

    reset_password-Ensures :
        Ensures (λ _ t. Unit {0}) ResetDone (reset_password s env salt (bound req) w)
    unfolding reset_password
    reset_password-Ensures =
        Ensures->> (λ _ t. (phone_pattern req.phone ≡ true) × (t ≡ w)) (λ _ t. Unit {0}) ResetDone
          (require (phone_pattern req.phone) _) _ w
          (Ensures-require _ ResetDone (phone_pattern req.phone) _ w (λ p. (p, refl))
            λ _ h. absurd (omega (arith, h)))
          λ _ u (p, same).
            Ensures->> (λ _ t. ((req.code == preset_code) ≡ true) × (t ≡ w)) (λ _ t. Unit {0})
              ResetDone (require (req.code == preset_code) _) _ u
              (Ensures-require _ ResetDone (req.code == preset_code) _ u (λ c. (c, same))
                λ _ h. absurd (omega (arith, h)))
              λ _ v (c, same').
                Ensures->>= Found (λ _ t. Unit {0}) ResetDone
                  (or_fail (get_by_phone env req.phone) _) _ v
                  (Ensures-or_fail Found ResetDone (get_by_phone env req.phone) _ v (
                    subst
                      (λ v.
                        Ensures (OnValue Found (ResetDone server_error)) ResetDone
                          (get_by_phone env req.phone v))
                      (sym same') get_by_phone-Found))
                  λ found t f. Found-Ensures found t f ((text_beq_iff req.code preset_code).0 c) p

-- ResetPassword answers 200 only with the code 888888, and with a number of the phone pattern that a live
-- tenant has. The row of that tenant then has a hash that accepts the new password, which has at most
-- 72 bytes, and the time of the request as its update; every other column and every other row are as
-- they were.
pub reset_password-IsReset :
    {C : Type 0} (s : Services C) (env : Env) (salt : ℕ) (req : ResetPasswordRequest) (w t : W C)
    (r : Response AuthData)
    → reset_password s env salt (bound req) w ≡ stop r t
    → r.status ≡ 200
    → IsReset s env salt req w.tables t.tables
reset_password-IsReset s env salt req w t r h =
    Ensures-stop (λ _ t. Unit {0}) (ResetDone s env salt req w)
      (reset_password s env salt (bound req) w) (reset_password-Ensures s env salt req w) h
