-- ===== src/Auth/Walk/Session.antt =====
-- Login, Refresh and Logout, for an invariant of the tenants.
use weiyeston.Base.{
  Bool, true, false, ◌||◌, Option, some, [], pos, Text, text_eq, int_eq, ◌==◌, ◌!=◌, ltb_ℤ, refl,
  get_or,
}
use weiyeston.Http.{Env, or_respond, or_fail, or_invalid, require, reject, ignore, Bound}
use weiyeston.Http.Keeps.{
  Keeps, Keeps-or_fail, Keeps-require, Keeps-reject, Keeps->>=, Keeps->>, Keeps-or_respond,
  Keeps-or_invalid, Keeps-ignore,
}
use weiyeston.Middleware.{Value}
use weiyeston.Redis.{command}
use weiyeston.Tenant.{Tenant, TenantTables}
use weiyeston.Tenant.Keeps.{Keeps-command, get_by_id-Keeps, get_by_username-Keeps}
use weiyeston.Tenant.Repo.{get_by_id, get_by_username}
use weiyeston.Auth.{
  Services, Draws, verify_password, generate_access_token, generate_refresh_token,
  revoke_refresh_token, get_refresh_token, refresh_key, put_token,
}
use weiyeston.Auth.Views.{AuthData, LoginRequest}
use weiyeston.Auth.Handlers.{H, current_user}
use weiyeston.Auth.Session.{
  unverified_user, rate_key, minute, is_past, touched, touch, start_window, limit_login,
  check_account, issue, logged_in, login_user, login, refresh_user, refresh, logout,
}
use weiyeston.Auth.Walk.{KeptByAuth, L, current_user-Keeps, change-Keeps}

module _ {C : Type 0} (J : TenantTables → Type 0) (s : Services C) (env : Env) where
  start_window-Keeps : (b : Bool) (ip : Text) → Keeps (L J) (start_window s env b ip)
  unfolding start_window
  start_window-Keeps false ip = λ w h. h
  start_window-Keeps true ip =
      Keeps-ignore (L J) (command env λ c. some (tt, s.redis.expire env.now (rate_key ip) minute c))
        (Keeps-command AuthData J env λ c. some (tt, s.redis.expire env.now (rate_key ip) minute c))

  limit_login-Keeps : (ip : Text) → Keeps (L J) (limit_login s env ip)
  unfolding limit_login
  limit_login-Keeps ip =
      Keeps->>= (L J) (or_fail (command env (s.redis.incr env.now (rate_key ip))) _) _
        (Keeps-or_fail (L J) (command env (s.redis.incr env.now (rate_key ip))) _
          (Keeps-command AuthData J env (s.redis.incr env.now (rate_key ip))))
        λ n.
          Keeps->> (L J) (start_window s env (n == pos 1) ip) _ (start_window-Keeps (n == pos 1) ip)
            (Keeps-reject (L J) (ltb_ℤ (pos 5) n) _)

  check_account-Keeps : (user : Tenant) → Keeps (L J) (check_account s env user)
  unfolding check_account
  check_account-Keeps user =
      Keeps->> (L J) (reject (user.status == pos 0) _) _
        (Keeps-reject (L J) (user.status == pos 0) _)
        (Keeps->> (L J) (reject (user.status == pos 2) _) _
          (Keeps-reject (L J) (user.status == pos 2) _)
          (Keeps-reject (L J) (is_past env.now user.vip_end_time) _))

  issue-Keeps :
      (draws : Draws) (user : Tenant) (reply : Text → Text → H C (Unit {0}))
      → ((a r : Text) → Keeps (L J) (reply a r))
      → Keeps (L J) (issue s env draws user reply)
  unfolding issue generate_refresh_token
  issue-Keeps draws user reply k =
      Keeps->>= (L J) (or_respond (generate_access_token s env.now draws.jti user) _) _
        (Keeps-or_respond (L J) (generate_access_token s env.now draws.jti user) _)
        λ access.
          Keeps->>= (L J) (or_fail (generate_refresh_token s env draws.refresh user.id) _) _
            (Keeps-or_fail (L J) (generate_refresh_token s env draws.refresh user.id) _
              (Keeps-command AuthData J env (put_token s env.now draws.refresh user.id)))
            λ r. k access r

  pub refresh-Keeps :
      (draws : Draws) (header : Text) (body : Bound Text)
      → Keeps (L J) (refresh s env draws header body)
  unfolding refresh refresh_user get_refresh_token
  refresh-Keeps draws header body =
      Keeps->>= (L J) (or_invalid body _) _ (Keeps-or_invalid (L J) body _) λ given.
        Keeps->> (L J) (reject (unverified_user s header == pos 0) _) _
          (Keeps-reject (L J) (unverified_user s header == pos 0) _)
          (Keeps->>= (L J) (or_fail (get_refresh_token s env (unverified_user s header)) _) _
            (Keeps-or_fail (L J) (get_refresh_token s env (unverified_user s header)) _ (
              Keeps-command AuthData J env λ c.
                some
                  (get_or (s.redis.get env.now (refresh_key (unverified_user s header)) c) [], c)))
            λ stored.
              Keeps->> (L J) (reject (stored == [] || stored != given) _) _
                (Keeps-reject (L J) (stored == [] || stored != given) _)
                (Keeps->>= (L J) (get_by_id env (unverified_user s header)) _
                  (get_by_id-Keeps AuthData J env (unverified_user s header))
                  λ found.
                    Keeps->>= (L J) (or_respond found _) _ (Keeps-or_respond (L J) found _) λ row.
                      Keeps->>= (L J) (or_respond row _) _ (Keeps-or_respond (L J) row _)
                        λ user. issue-Keeps draws user _ λ a r. λ w h. h))

  pub logout-Keeps : (current : Option Value) → Keeps (L J) (logout s env current)
  unfolding logout revoke_refresh_token
  logout-Keeps current =
      Keeps->>= (L J) (current_user current) _ (current_user-Keeps J current) λ id.
        Keeps->> (L J) (or_fail (revoke_refresh_token s env id) _) _
          (Keeps-or_fail (L J) (revoke_refresh_token s env id) _
            (Keeps-command AuthData J env λ c. some (tt, s.redis.del (refresh_key id) c)))
          λ w h. h

  pub login-Keeps :
      KeptByAuth J
      → (draws : Draws) (ip : Text) (body : Bound LoginRequest)
      → Keeps (L J) (login s env draws ip body)
  unfolding login login_user logged_in
  login-Keeps kept draws ip body =
      Keeps->>= (L J) (or_invalid body _) _ (Keeps-or_invalid (L J) body _) λ req.
        Keeps->> (L J) (limit_login s env ip) _ (limit_login-Keeps ip) (
          Keeps->>= (L J) (or_fail (get_by_username env req.username) _) _
            (Keeps-or_fail (L J) (get_by_username env req.username) _
              (get_by_username-Keeps AuthData J env req.username))
            λ found. Keeps->>= (L J) (or_respond found _) _ (Keeps-or_respond (L J) found _) λ user.
              Keeps->> (L J) (check_account s env user) _ (check_account-Keeps user) (
                Keeps->> (L J) (require (verify_password s user.password_hash req.password) _) _
                  (Keeps-require (L J) (verify_password s user.password_hash req.password) _)
                  (issue-Keeps draws user (logged_in s env draws user) λ a r.
                    Keeps->> (L J) (ignore (touch s env user.id)) _
                      (Keeps-ignore (L J) (touch s env user.id)
                        (change-Keeps J kept env AuthData user.id (touched env.now) λ t. refl))
                      λ w h. h)))
