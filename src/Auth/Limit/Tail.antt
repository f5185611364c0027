-- ===== src/Auth/Limit/Tail.antt =====
-- What follows the limiter in Login of internal/handler/api/auth.go leaves the counters of addresses.
use weiyeston.Base.{
  ℕ, suc, Bool, true, false, Option, none, some, [], ◌∷◌, ℤ, pos, Text, text_eq, int_eq, ◌==◌, ◌≡◌,
  ◌≢◌, refl, sym, ap, ◌∙◌, arith, find, if◌then◌else◌, subst, some_injective,
}
use weiyeston.Http.{
  Env, World, next, after, ◌>>=◌, or_fail, or_respond, reject, require, ignore, Response, statement,
  settle,
}
use weiyeston.Http.Keeps.{
  Keeps, Keeps-or_fail, Keeps-require, Keeps-reject, Keeps->>=, Keeps->>, Keeps-or_respond,
  Keeps-ignore,
}
use weiyeston.Redis.{command, receive}
use weiyeston.Redis.Laws.{peek-set_apart}
use weiyeston.Tenant.{Tenant, TenantTables, is_named}
use weiyeston.Tenant.Repo.{W, get_by_username, query, update_live}
use weiyeston.Auth.{
  Services, Draws, verify_password, generate_access_token, generate_refresh_token, put_token,
  refresh_key, refresh_lifetime,
}
use weiyeston.Auth.Views.{AuthData, LoginRequest}
use weiyeston.Auth.Session.{
  rate_key, is_past, touched, touch, check_account, issue, logged_in, login_user,
}
use weiyeston.Auth.Limit.Window.{Counts, CountsAt}

-- The keys of refresh tokens and of counters differ.
first_code : Text → ℕ
first_code [] = 0
first_code (c ∷ s) = c

refresh_key-ne-rate_key : (id : ℤ) (ip : Text) → refresh_key id ≢ rate_key ip
unfolding first_code
refresh_key-ne-rate_key id ip e = absurd (omega (arith, ap first_code e))

module _ {C : Type 0} (I : C → Type 0) (env : Env) where
  abbrev Stored : {T : Type 0} → World T C → Type 0
  Stored w = I w.store

  statement-Stored :
      {T A : Type 0}
      → (D : Type 0) (q : T → Option (A × T)) → Keeps {D = D} Stored (statement env q)
  statement-Stored {T = T} {A = A} D q w h = go (env.fails w.sent) (q w.tables)
    where
      go :
          (b : Bool) (o : Option (A × T))
          → Stored
              (after {D = D} (if b then next none (record w { sent = suc w.sent }) else settle w o))
      go true o = h
      go false none = h
      go false (some (a, t)) = h

  command-Stored :
      {T A : Type 0}
      → (D : Type 0) (q : C → Option (A × C))
      → ((c c' : C) (a : A) → I c → q c ≡ some (a, c') → I c')
      → Keeps {D = D} (Stored {T = T}) (command env q)
  command-Stored {A = A} D q k w h = go (env.fails w.sent) (q w.store) refl
    where
      go :
          (b : Bool) (o : Option (A × C))
          → q w.store ≡ o
          → Stored (
              after {D = D} (if b then next none (record w { sent = suc w.sent }) else receive w o))
      go true o e = h
      go false none e = h
      go false (some (a, c)) e = k w.store c a h e

module _ {C : Type 0} (s : Services C) (start : ℕ) (ip : Text) (n : ℕ) (env : Env) where
  abbrev I : C → Type 0
  I c = CountsAt start n (s.redis.peek (rate_key ip) c)

  abbrev K : W C → Type 0
  K = Counts start s ip n

  username-Counts : (name : Text) → Keeps {D = AuthData} K (get_by_username env name)
  unfolding get_by_username
  username-Counts name w h = go (name == [])
    where
      go :
          (b : Bool)
          → K (after {D = AuthData} (if b then next none w else query env (find (is_named name)) w))
      go true = h
      go false =
          statement-Stored I env AuthData
            (λ (t : TenantTables). some (find (is_named name) t.tenants, t)) w h

  put_token-Counts :
      (uuid : Text) (id : ℤ) (c c' : C) (a : Text)
      → I c
      → put_token s env.now uuid id c ≡ some (a, c')
      → I c'
  put_token-Counts uuid id c c' a h e =
      subst (CountsAt start n)
        (sym (
            peek-set_apart s.redis env.now (refresh_key id) uuid (refresh_lifetime s.jwt)
              (rate_key ip) c (refresh_key-ne-rate_key id ip))
          ∙ ap (s.redis.peek (rate_key ip)) (ap (λ p. p.1) (some_injective e)))
        h

  login_user-Counts :
      (draws : Draws) (password : Text) (found : Option Tenant)
      → Keeps K (login_user s env draws password found)
  unfolding login_user check_account issue generate_refresh_token logged_in
  login_user-Counts draws password found =
      Keeps->>= K (or_respond found _) _ (Keeps-or_respond K found _) λ user.
        Keeps->> K (check_account s env user) _
          (Keeps->> K (reject (user.status == pos 0) _) _ (Keeps-reject K (user.status == pos 0) _)
            (Keeps->> K (reject (user.status == pos 2) _) _
              (Keeps-reject K (user.status == pos 2) _)
              (Keeps-reject K (is_past env.now user.vip_end_time) _)))
          (Keeps->> K (require (verify_password s user.password_hash password) _) _
            (Keeps-require K (verify_password s user.password_hash password) _)
            (Keeps->>= K (or_respond (generate_access_token s env.now draws.jti user) _) _
              (Keeps-or_respond K (generate_access_token s env.now draws.jti user) _)
              λ access.
                Keeps->>= K (or_fail (generate_refresh_token s env draws.refresh user.id) _) _
                  (Keeps-or_fail K (generate_refresh_token s env draws.refresh user.id) _ (
                    command-Stored I env AuthData (put_token s env.now draws.refresh user.id)
                      (put_token-Counts draws.refresh user.id)))
                  λ r.
                    Keeps->> K (ignore (touch s env user.id)) _
                      (Keeps-ignore K (touch s env user.id)
                        (statement-Stored I env AuthData (update_live user.id (touched env.now))))
                      λ w h. h))

  pub login_tail-Counts :
      (draws : Draws) (req : LoginRequest) (r : Response AuthData)
      → Keeps K
          (or_fail (get_by_username env req.username) r >>= login_user s env draws req.password)
  login_tail-Counts draws req r =
      Keeps->>= K (or_fail (get_by_username env req.username) r) _
        (Keeps-or_fail K (get_by_username env req.username) r (username-Counts req.username))
        (login_user-Counts draws req.password)
