-- ===== src/Auth/Rotation.antt =====
-- Refresh and Logout of internal/handler/api/auth.go: which refresh tokens they take and leave.
use weiyeston.Base.{
  ℕ, ◌+◌, Bool, true, false, ◌||◌, Option, none, some, [], ℤ, pos, Text, text_eq, int_eq, ◌==◌,
  ◌!=◌, leb_ℤ, leb, ◌≡◌, ◌≢◌, refl, sym, ap, ◌∙◌, arith, find, if◌then◌else◌, int_beq_iff,
  text_beq_iff, find_sound, subst, some_injective, get_or,
}
use weiyeston.Http.{Env, next, stop, or_fail, reject, Response, bound}
use weiyeston.Http.Hoare.{
  Ensures, OnValue, Ensures-stop, Ensures->>=, Ensures->>, Ensures-or_fail, Ensures-reject,
  Ensures-statement,
}
use weiyeston.Middleware.{int64}
use weiyeston.Redis.{at_time, value_of}
use weiyeston.Redis.Hoare.{Ensures-command}
use weiyeston.Redis.Laws.{entry, get_missing, peek-del_same}
use weiyeston.Tenant.{Tenant, is_live}
use weiyeston.Tenant.Repo.{W, get_by_id, query}
use weiyeston.Auth.{
  Services, Draws, generate_access_token, get_refresh_token, refresh_key, refresh_lifetime,
  revoke_refresh_token,
}
use weiyeston.Auth.Views.{AuthData}
use weiyeston.Auth.Handlers.{server_error}
use weiyeston.Auth.Session.{unverified_user, refresh, refresh_user, renewed, logout}
use weiyeston.Auth.Issued.{HasToken, issue-Ensures}

module _ {C : Type 0} (s : Services C) (env : Env) (draws : Draws) (header given : Text) where
  abbrev id : ℤ
  id = unverified_user s header

  -- The request gave the token that Redis holds for the user that its access token names.
  pub record IsRenewed (w : W C) (r : Response AuthData) (t : W C) : Type 0 where
    pub user : Tenant
    pub access : Text
    pub named : user.id ≡ unverified_user s header
    pub live : find (is_live (unverified_user s header)) w.tables.tenants ≡ some user
    pub nonempty : given ≢ []
    pub taken : s.redis.get env.now (refresh_key (unverified_user s header)) w.store ≡ some given
    pub signed : generate_access_token s env.now draws.jti user ≡ some access
    pub answered : r ≡ renewed s env draws access draws.refresh
    pub held : HasToken s env draws (unverified_user s header) draws.refresh t
    pub tables : t.tables ≡ w.tables

  module _ (w : W C) where
    abbrev Success : Response AuthData → W C → Type 0
    Success r t = r.status ≡ 200 → IsRenewed w r t

    abbrev Took : Text → W C → Type 0
    Took stored t =
        (stored ≡ get_or (s.redis.get env.now (refresh_key id) w.store) []) × (t.tables ≡ w.tables)

    took-some : (o : Option Text) → given ≡ get_or o [] → given ≢ [] → o ≡ some given
    took-some none e n = absurd (n e)
    took-some (some x) e n = ap some (sym e)

    get_refresh_token-Took :
        (u : W C)
        → u.tables ≡ w.tables
        → u.store ≡ w.store
        → Ensures Took Success (or_fail (get_refresh_token s env id) server_error u)
    unfolding get_refresh_token
    get_refresh_token-Took u e f =
        Ensures-or_fail Took Success (get_refresh_token s env id) server_error u (
          Ensures-command (OnValue Took (Success server_error)) Success env
            (λ c. some (get_or (s.redis.get env.now (refresh_key id) c) [], c)) u
            (λ h. absurd (omega (arith, h)))
            λ a c h. (
              sym (ap (λ p. p.0) (some_injective h))
                  ∙ ap (λ c. get_or (s.redis.get env.now (refresh_key id) c) []) f,
              e,
            ))

    abbrev Row : Option (Option Tenant) → W C → Type 0
    Row o t =
        (t.tables ≡ w.tables)
        × ((user : Tenant) → o ≡ some (some user) → find (is_live id) w.tables.tenants ≡ some user)

    get_by_id-Row : (u : W C) → u.tables ≡ w.tables → Ensures Row Success (get_by_id env id u)
    unfolding get_by_id
    get_by_id-Row u e = go (leb_ℤ id (pos 0))
      where
        go :
            (b : Bool)
            → Ensures Row Success (if b then next none u else query env (find (is_live id)) u)
        go true = (e, λ user h. cc)
        go false =
            Ensures-statement Row Success env (λ t. some (find (is_live id) t.tenants, t)) u
              (e, λ user h. cc)
              λ a t h. (
                sym (ap (λ p. p.1) (some_injective h)) ∙ e,
                λ user k.
                    ap (λ t. find (is_live id) t.tenants) (sym e)
                    ∙ ap (λ p. p.0) (some_injective h)
                    ∙ some_injective k,
              )

    live-named : (user : Tenant) → find (is_live id) w.tables.tenants ≡ some user → user.id ≡ id
    live-named user h =
        let both = find_sound (is_live id) w.tables.tenants user h in
        ground (arith, both, int_beq_iff user.id id)

    refresh_user-Ensures :
        (o : Option (Option Tenant)) (u : W C)
        → Row o u
        → given ≢ []
        → s.redis.get env.now (refresh_key id) w.store ≡ some given
        → Ensures (λ _ t. Unit {0}) Success (refresh_user s env draws o u)
    unfolding refresh_user
    refresh_user-Ensures none u row n taken = λ h. absurd (omega (arith, h))
    refresh_user-Ensures (some none) u row n taken = λ h. absurd (omega (arith, h))
    refresh_user-Ensures (some (some user)) u row n taken =
        let found = row.1 user refl in
        issue-Ensures s env draws Success (λ t h. absurd (omega (arith, h))) user _ u
          λ access t signed held tables. λ h. record {
            user = user;
            access = access;
            named = live-named user found;
            live = found;
            nonempty = n;
            taken = taken;
            signed = signed;
            answered = refl;
            held = subst (λ i. HasToken s env draws i draws.refresh t) (live-named user found) held;
            tables = tables ∙ row.0;
          }

    pub refresh-Ensures :
        Ensures (λ _ t. Unit {0}) Success (refresh s env draws header (bound given) w)
    unfolding refresh
    refresh-Ensures =
        Ensures->> (λ _ t. (t.tables ≡ w.tables) × (t.store ≡ w.store)) (λ _ t. Unit {0}) Success
          (reject (id == pos 0) _) _ w
          (Ensures-reject _ Success (id == pos 0) _ w (λ _. (refl, refl))
            λ _ h. absurd (omega (arith, h)))
          λ _ v (same_tables, same_store).
            Ensures->>= Took (λ _ t. Unit {0}) Success
              (or_fail (get_refresh_token s env id) server_error) _ v
              (get_refresh_token-Took v same_tables same_store)
              λ stored t (took, tables).
                Ensures->> (λ _ v. (v.tables ≡ w.tables) × (stored ≡ given) × (given ≢ []))
                  (λ _ t. Unit {0}) Success (reject (stored == [] || stored != given) _) _ t
                  (Ensures-reject _ Success (stored == [] || stored != given) _ t
                    (λ e. (
                      tables,
                      ground (arith, e, text_beq_iff stored given),
                      λ n. ground (arith, e, n, text_beq_iff stored given, text_beq_iff stored []),
                    ))
                    λ _ h. absurd (omega (arith, h)))
                  λ _ v (tables', same', nonempty).
                    Ensures->>= Row (λ _ t. Unit {0}) Success (get_by_id env id) _ v
                      (get_by_id-Row v tables')
                      λ o x row. refresh_user-Ensures o x row nonempty (
                        took-some (s.redis.get env.now (refresh_key id) w.store) (sym same' ∙ took)
                          nonempty)

-- Refresh answers 200 only to the token that Redis gives at that time for the live tenant that the
-- Bearer token names, with an access token signed for that tenant. It leaves the tenants as they are, and
-- Redis then holds the refresh token of the answer for that tenant.
pub refresh-IsRenewed :
    {C : Type 0} (s : Services C) (env : Env) (draws : Draws) (header given : Text) (w t : W C)
    (r : Response AuthData)
    → refresh s env draws header (bound given) w ≡ stop r t
    → r.status ≡ 200
    → IsRenewed s env draws header given w r t
refresh-IsRenewed s env draws header given w t r h =
    Ensures-stop (λ _ t. Unit {0}) (Success s env draws header given w)
      (refresh s env draws header (bound given) w) (refresh-Ensures s env draws header given w) h

-- A value that GET gives is the value of the key, whenever it ends.
held-value :
    (now : ℕ) (value given : Text) (end : ℕ)
    → value_of (at_time now (some (entry value end))) ≡ some given
    → value ≡ given
held-value now value given end h = go (leb now end) h
  where
    go :
        (b : Bool)
        → value_of (if b then some (entry value end) else none) ≡ some given
        → value ≡ given
    go true h = some_injective h
    go false h = cc

-- After a Refresh that answers 200, a Refresh with the same refresh token and the same Bearer token does
-- not answer 200, whenever it comes, whatever fails and whatever came in between, as long as Redis holds
-- for that user what the first one left, unless the UUID that the first one drew is the old token.
pub refresh_spent :
    {C : Type 0} (s : Services C) (env later : Env) (draws draws' : Draws) (header given : Text)
    (w t v u : W C) (r r' : Response AuthData)
    → refresh s env draws header (bound given) w ≡ stop r t
    → r.status ≡ 200
    → draws.refresh ≢ given
    → s.redis.peek (refresh_key (unverified_user s header)) v.store
      ≡ s.redis.peek (refresh_key (unverified_user s header)) t.store
    → refresh s later draws' header (bound given) v ≡ stop r' u
    → r'.status ≢ 200
refresh_spent s env later draws draws' header given w t v u r r' h ok fresh same h' ok' =
    let first = refresh-IsRenewed s env draws header given w t r h ok in
    let second = refresh-IsRenewed s later draws' header given v u r' h' ok' in
    fresh (
      held-value later.now draws.refresh given (env.now + refresh_lifetime s.jwt) (
        ap (λ e. value_of (at_time later.now e)) (sym (same ∙ first.held))
        ∙ sym (s.redis.get_lem later.now (refresh_key (unverified_user s header)) v.store)
        ∙ second.taken))

module _ {C : Type 0} (s : Services C) (env : Env) (user_id : ℤ) (w : W C) where
  abbrev LoggedOut : Response AuthData → W C → Type 0
  LoggedOut r t = r.status ≡ 200 → s.redis.peek (refresh_key user_id) t.store ≡ none

  logout-Ensures : Ensures (λ _ t. Unit {0}) LoggedOut (logout s env (some (int64 user_id)) w)
  unfolding logout revoke_refresh_token
  logout-Ensures =
      Ensures->> (λ _ t. s.redis.peek (refresh_key user_id) t.store ≡ none) (λ _ t. Unit {0})
        LoggedOut (or_fail (revoke_refresh_token s env user_id) server_error) _ w
        (Ensures-or_fail _ LoggedOut (revoke_refresh_token s env user_id) server_error w (
          Ensures-command
            (OnValue (λ _ t. s.redis.peek (refresh_key user_id) t.store ≡ none)
              (LoggedOut server_error))
            LoggedOut env (λ c. some (tt, s.redis.del (refresh_key user_id) c)) w
            (λ h. absurd (omega (arith, h)))
            λ a c h.
              ap (λ c. s.redis.peek (refresh_key user_id) c)
                (sym (ap (λ p. p.1) (some_injective h)))
              ∙ peek-del_same s.redis (refresh_key user_id) w.store))
        λ _ t gone. λ _. gone

-- After a Logout that answers 200, no Refresh for that user answers 200, whatever token it gives and
-- whenever it comes, while Redis is as Logout left it.
pub logout-refresh :
    {C : Type 0} (s : Services C) (env later : Env) (draws : Draws) (user_id : ℤ)
    (header given : Text) (w t u : W C) (r r' : Response AuthData)
    → logout s env (some (int64 user_id)) w ≡ stop r t
    → r.status ≡ 200
    → unverified_user s header ≡ user_id
    → refresh s later draws header (bound given) t ≡ stop r' u
    → r'.status ≢ 200
logout-refresh s env later draws user_id header given w t u r r' h ok same h' ok' =
    let gone =
      Ensures-stop (λ _ t. Unit {0}) (LoggedOut s env user_id w)
        (logout s env (some (int64 user_id)) w) (logout-Ensures s env user_id w) h ok in
    let renewed = refresh-IsRenewed s later draws header given t u r' h' ok' in
    let missing = get_missing s.redis later.now (refresh_key user_id) t.store gone in
    let taken =
      subst (λ i. s.redis.get later.now (refresh_key i) t.store ≡ some given) same renewed.taken in
    cc
