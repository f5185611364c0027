-- ===== src/Auth/Granted.antt =====
-- What a successful Login of internal/handler/api/auth.go took, and what it leaves.
use weiyeston.Base.{
  ℕ, Bool, true, false, Option, none, some, [], ℤ, pos, Text, text_eq, int_eq, ◌==◌, ltb_ℤ,
  some_injective, ◌⊎◌, subst, ◌≡◌, ◌≢◌, refl, sym, ap, ◌∙◌, arith, find, if◌then◌else◌, int_beq_iff,
  update_where, inl, inr,
}
use weiyeston.Http.{Env, next, stop, or_fail, reject, require, ignore, Response, bound}
use weiyeston.Http.Hoare.{
  Ensures, OnValue, Ensures-stop, Ensures->>=, Ensures->>, Ensures-or_fail, Ensures-require,
  Ensures-reject, Ensures-ignore, Ensures-statement,
}
use weiyeston.Redis.{command}
use weiyeston.Redis.Hoare.{Ensures-command}
use weiyeston.Tenant.{Tenant, TenantTables, is_named, is_live}
use weiyeston.Tenant.Repo.{W, get_by_username, query, update_live}
use weiyeston.Auth.{Services, Draws, verify_password, generate_access_token, refresh_key}
use weiyeston.Auth.Views.{AuthData, LoginRequest}
use weiyeston.Auth.Handlers.{server_error}
use weiyeston.Auth.Issued.{HasToken, issue-Ensures}
use weiyeston.Auth.Session.{
  rate_key, minute, is_past, touched, touch, start_window, limit_login, check_account, welcome,
  logged_in, login_user, login,
}

-- The tenants with the time of a login.
abbrev pub touched_in : ℕ → ℤ → TenantTables → TenantTables
touched_in now id t = record t { tenants = update_where (is_live id) (touched now) t.tenants }

module _ {C : Type 0} (s : Services C) (env : Env) (draws : Draws) where
  -- The request named a live, approved and enabled member by its password.
  pub record IsGranted (req : LoginRequest) (w : W C) (r : Response AuthData) (t : W C)
      : Type 0 where
    pub user : Tenant
    pub access : Text
    pub found : find (is_named req.username) w.tables.tenants ≡ some user
    pub approved : user.status ≢ pos 0
    pub enabled : user.status ≢ pos 2
    pub member : is_past env.now user.vip_end_time ≡ false
    pub verified : verify_password s user.password_hash req.password ≡ true
    pub signed : generate_access_token s env.now draws.jti user ≡ some access
    pub answered : r ≡ welcome s env draws user access draws.refresh
    pub held : HasToken s env draws user.id draws.refresh t
    pub tables : (t.tables ≡ w.tables) ⊎ (t.tables ≡ touched_in env.now user.id w.tables)

  module _ (req : LoginRequest) (w : W C) where
    abbrev Success : Response AuthData → W C → Type 0
    Success r t = r.status ≡ 200 → IsGranted req w r t

    abbrev Same : W C → Type 0
    Same t = t.tables ≡ w.tables

    start_window-Same :
        (b : Bool) (ip : Text) (u : W C)
        → Same u
        → Ensures (λ _ t. Same t) Success (start_window s env b ip u)
    unfolding start_window
    start_window-Same false ip u e = e
    start_window-Same true ip u e =
        Ensures-ignore (λ _ t. Same t) Success
          (command env λ c. some (tt, s.redis.expire env.now (rate_key ip) minute c)) u
          (Ensures-command (λ _ t. Same t) Success env
            (λ c. some (tt, s.redis.expire env.now (rate_key ip) minute c)) u e λ a c _. e)

    limit_login-Same :
        (ip : Text) (u : W C) → Same u → Ensures (λ _ t. Same t) Success (limit_login s env ip u)
    unfolding limit_login
    limit_login-Same ip u e =
        Ensures->>= (λ _ t. Same t) (λ _ t. Same t) Success
          (or_fail (command env (s.redis.incr env.now (rate_key ip))) _) _ u
          (Ensures-or_fail (λ _ t. Same t) Success
            (command env (s.redis.incr env.now (rate_key ip))) _ u
            (Ensures-command (OnValue (λ _ t. Same t) (Success _)) Success env
              (s.redis.incr env.now (rate_key ip)) u (λ h. absurd (omega (arith, h))) λ a c _. e))
          λ n t e'.
            Ensures->> (λ _ t. Same t) (λ _ t. Same t) Success (start_window s env (n == pos 1) ip)
              _ t (start_window-Same (n == pos 1) ip t e')
              λ _ v e''.
                Ensures-reject (λ _ t. Same t) Success (ltb_ℤ (pos 5) n) _ v (λ _. e'')
                  λ _ h. absurd (omega (arith, h))

    -- The row that a query found, or an error.
    abbrev Found : Option Tenant → W C → Type 0
    Found found t = Same t × (find (is_named req.username) w.tables.tenants ≡ found)

    get_by_username-Found :
        (u : W C)
        → Same u
        → Ensures
            (OnValue Found (Success server_error))
            Success
            (get_by_username env req.username u)
    unfolding get_by_username
    get_by_username-Found u e = go (req.username == [])
      where
        go :
            (b : Bool)
            → Ensures
                (OnValue Found (Success server_error))
                Success
                (if b then next none u else query env (find (is_named req.username)) u)
        go true = λ h. absurd (omega (arith, h))
        go false =
            Ensures-statement (OnValue Found (Success server_error)) Success env
              (λ t. some (find (is_named req.username) t.tenants, t)) u
              (λ h. absurd (omega (arith, h)))
              λ a t h. (
                sym (ap (λ p. p.1) (some_injective h)) ∙ e,
                ap (λ t. find (is_named req.username) t.tenants) (sym e)
                    ∙ ap (λ p. p.0) (some_injective h),
              )

    check_account-Ensures :
        (user : Tenant) (N : W C → Type 0) (u : W C)
        → N u
        → Ensures
            (λ _ t.
              N t
              × (user.status ≢ pos 0)
              × (user.status ≢ pos 2)
              × (is_past env.now user.vip_end_time ≡ false))
            Success
            (check_account s env user u)
    unfolding check_account
    check_account-Ensures user N u n =
        Ensures->> (λ _ t. N t × (user.status ≢ pos 0)) _ Success (reject (user.status == pos 0) _)
          _ u
          (Ensures-reject (λ _ t. N t × (user.status ≢ pos 0)) Success (user.status == pos 0) _ u
            (λ e. (n, λ same. ground (arith, e, same, int_beq_iff user.status (pos 0))))
            λ _ h. absurd (omega (arith, h)))
          λ _ t p.
            Ensures->> (λ _ t. N t × (user.status ≢ pos 0) × (user.status ≢ pos 2)) _ Success
              (reject (user.status == pos 2) _) _ t
              (Ensures-reject (λ _ t. N t × (user.status ≢ pos 0) × (user.status ≢ pos 2)) Success
                (user.status == pos 2) _ t
                (λ e. (p.0, p.1, λ same. ground (arith, e, same, int_beq_iff user.status (pos 2))))
                λ _ h. absurd (omega (arith, h)))
              λ _ v q.
                Ensures-reject _ Success (is_past env.now user.vip_end_time) _ v
                  (λ e. (q.0, q.1, q.2, e)) λ _ h. absurd (omega (arith, h))

    -- The time of the login is written, or the statement failed.
    abbrev Touched : ℤ → W C → W C → Type 0
    Touched id u t =
        (t.store ≡ u.store) × ((t.tables ≡ u.tables) ⊎ (t.tables ≡ touched_in env.now id u.tables))

    logged_in-Ensures :
        (user : Tenant) (access : Text) (u : W C)
        → ((t : W C)
            → Touched user.id u t
            → IsGranted req w (welcome s env draws user access draws.refresh) t)
        → Ensures (λ _ t. Unit {0}) Success (logged_in s env draws user access draws.refresh u)
    unfolding logged_in update_live
    logged_in-Ensures user access u k =
        Ensures->> (λ _ t. Touched user.id u t) (λ _ t. Unit {0}) Success
          (ignore (touch s env user.id)) _ u
          (Ensures-ignore (λ _ t. Touched user.id u t) Success (touch s env user.id) u
            (Ensures-statement (λ _ t. Touched user.id u t) Success env
              (update_live user.id (touched env.now)) u (refl, inl refl)
              λ a t h. (refl, inr (sym (ap (λ p. p.1) (some_injective h))))))
          λ _ t e. λ h. k t e

    login_user-Ensures :
        (found : Option Tenant) (u : W C)
        → Found found u
        → Ensures (λ _ t. Unit {0}) Success (login_user s env draws req.password found u)
    unfolding login_user
    login_user-Ensures none u e = λ h. absurd (omega (arith, h))
    login_user-Ensures (some user) u e =
        Ensures->> _ (λ _ t. Unit {0}) Success (check_account s env user) _ u
          (check_account-Ensures user Same u e.0)
          λ _ t (same, pending, disabled, member).
            Ensures->> (λ _ t. Same t × (verify_password s user.password_hash req.password ≡ true))
              (λ _ t. Unit {0}) Success (require _ _) _ t
              (Ensures-require _ Success (verify_password s user.password_hash req.password) _ t
                (λ v. (same, v)) λ _ h. absurd (omega (arith, h)))
              λ _ t (same', verified).
                issue-Ensures s env draws Success (λ t h. absurd (omega (arith, h))) user
                  (logged_in s env draws user) t
                  λ access u signed held tables.
                    logged_in-Ensures user access u λ v (store, written). record {
                      user = user;
                      access = access;
                      found = e.1;
                      approved = pending;
                      enabled = disabled;
                      member = member;
                      verified = verified;
                      signed = signed;
                      answered = refl;
                      held = ap (λ c. s.redis.peek (refresh_key user.id) c) store ∙ held;
                      tables =
                          subst (λ x. (v.tables ≡ x) ⊎ (v.tables ≡ touched_in env.now user.id x))
                            (tables ∙ same') written;
                    }

-- Login answers 200 only to the name of a live tenant that is neither waiting for approval nor disabled,
-- whose membership has not ended, with a password that its hash accepts. The answer then holds an
-- access token that is signed for that tenant and the refresh token that Redis holds for it from now.
pub login-IsGranted :
    {C : Type 0} (s : Services C) (env : Env) (draws : Draws) (ip : Text) (req : LoginRequest)
    (w t : W C) (r : Response AuthData)
    → login s env draws ip (bound req) w ≡ stop r t
    → r.status ≡ 200
    → IsGranted s env draws req w r t
unfolding login
login-IsGranted s env draws ip req w t r h =
    Ensures-stop (λ _ t. Unit {0}) (Success s env draws req w) (login s env draws ip (bound req) w)
      (Ensures->> (λ _ t. Same s env draws req w t) (λ _ t. Unit {0}) (Success s env draws req w)
        (limit_login s env ip) _ w (limit_login-Same s env draws req w ip w refl)
        λ _ u e.
          Ensures->>= (Found s env draws req w) (λ _ t. Unit {0}) (Success s env draws req w)
            (or_fail (get_by_username env req.username) _) _ u
            (Ensures-or_fail (Found s env draws req w) (Success s env draws req w)
              (get_by_username env req.username) _ u (get_by_username-Found s env draws req w u e))
            λ found v f. login_user-Ensures s env draws req w found v f)
      h
