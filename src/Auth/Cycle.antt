-- ===== src/Auth/Cycle.antt =====
-- A session of internal/handler/api/auth.go: Login, and Refresh with its tokens.
use weiyeston.Base.{
  ℕ, suc, ◌+◌, ◌≤◌, ◌<◌, ◌^◌, Bool, true, false, ◌||◌, Option, none, some, List, [], ◌∷◌, ◌++◌, ℤ,
  pos, Text, text_eq, int_eq, ◌==◌, ◌!=◌, leb_ℤ, ◌≡◌, ◌≢◌, refl, sym, ap, ◌∙◌, arith, find,
  update_where, if◌then◌else◌, int_beq_iff, text_beq_iff, All, get_or, subst, Bool-cases, inl, inr,
  ◌⊎◌,
}
use weiyeston.Http.{Env, next, stop, or_fail, or_respond, reject, Response, bound, answer, respond}
use weiyeston.Http.Forward.{
  >>=-of-next, >>-of-next, or_fail-of-next, reject-of-false, statement_runs,
}
use weiyeston.Keys.{HasUniqueIds, All-find}
use weiyeston.Strings.{has_prefix-append, trim_prefix-append}
use weiyeston.Middleware.Auth.{bearer}
use weiyeston.Redis.{command}
use weiyeston.Redis.Hoare.{command_runs}
use weiyeston.Redis.Laws.{get_held}
use weiyeston.Tenant.{Tenant, TenantTables, is_live, is_named}
use weiyeston.Tenant.Repo.{W, get_by_id, query}
use weiyeston.Tenant.{id_of}
use weiyeston.Auth.{
  Services, Draws, IsExact, access_claims, generate_access_token, generate_refresh_token,
  get_refresh_token, put_token, refresh_key, refresh_lifetime,
}
use weiyeston.Auth.Views.{AuthData, LoginRequest}
use weiyeston.Auth.Handlers.{server_error}
use weiyeston.Auth.Session.{
  unverified_user, refresh, refresh_user, renewed, login, welcome, issue, invalid_refresh, touched,
}
use weiyeston.Auth.Granted.{login-IsGranted, touched_in}

-- No statement of a request fails in the driver.
abbrev pub IsUp : Env → Type 0
IsUp env = (n : ℕ) → env.fails n ≡ false

module _ {C : Type 0} (s : Services C) (env : Env) (draws : Draws) (up : IsUp env) where
  issue_runs :
      (user : Tenant) (access : Text) (w : W C)
      → generate_access_token s env.now draws.jti user ≡ some access
      → answer (
          issue s env draws user (λ access refresh. respond (renewed s env draws access refresh)) w)
        ≡ some (renewed s env draws access draws.refresh)
  unfolding issue generate_refresh_token
  issue_runs user access w signed = ap answer (
      >>=-of-next (or_respond (generate_access_token s env.now draws.jti user) server_error) _ w
        (ap (λ o. or_respond o server_error w) signed)
      ∙ >>=-of-next (or_fail (command env (put_token s env.now draws.refresh user.id)) server_error)
          _ w
          (or_fail-of-next (command env (put_token s env.now draws.refresh user.id)) server_error w
            (command_runs env (put_token s env.now draws.refresh user.id) w (up w.sent) refl)))

  get_by_id_runs :
      (n : ℕ) (w : W C) (found : Option Tenant)
      → find (is_live (pos (suc n))) w.tables.tenants ≡ found
      → get_by_id {D = AuthData} env (pos (suc n)) w
        ≡ next (some found) (record w { sent = suc w.sent })
  unfolding get_by_id
  get_by_id_runs n w found e =
      let positive : leb_ℤ (pos (suc n)) (pos 0) ≡ false = ground arith in
      ap (λ b. if b then next none w else query env (find (is_live (pos (suc n)))) w) positive
      ∙ statement_runs env (λ t. some (find (is_live (pos (suc n))) t.tenants, t)) w (up w.sent)
          (ap (λ o. some (o, w.tables)) e)

  -- Refresh with the token that Redis holds for a live tenant answers with new tokens, if nothing
  -- fails.
  refresh_answers :
      (header given access : Text) (n : ℕ) (user : Tenant) (w : W C)
      → unverified_user s header ≡ pos (suc n)
      → s.redis.get env.now (refresh_key (pos (suc n))) w.store ≡ some given
      → given ≢ []
      → find (is_live (pos (suc n))) w.tables.tenants ≡ some user
      → generate_access_token s env.now draws.jti user ≡ some access
      → answer (refresh s env draws header (bound given) w)
        ≡ some (renewed s env draws access draws.refresh)
  unfolding refresh refresh_user get_refresh_token
  refresh_answers header given access n user w named held nonempty live signed =
      let sent = record w { sent = suc w.sent } in
      rw named (
        ap answer (
          >>-of-next (reject (pos (suc n) == pos 0) invalid_refresh) _ w
            (reject-of-false (pos (suc n) == pos 0) invalid_refresh w (ground arith))
          ∙ >>=-of-next (or_fail (command env took) server_error) _ w (
              or_fail-of-next (command env took) server_error w
                (command_runs env took w (up w.sent) (ap (λ o. some (get_or o [], w.store)) held)))
          ∙ >>-of-next (reject (given == [] || given != given) invalid_refresh) _ sent (
              reject-of-false (given == [] || given != given) invalid_refresh sent
                (ground (arith, nonempty, text_beq_iff given [], text_beq_iff given given)))
          ∙ >>=-of-next (get_by_id env (pos (suc n))) _ sent
              (get_by_id_runs n sent (some user) live))
        ∙ issue_runs user access (record sent { sent = suc sent.sent }) signed)
    where
      took : C → Option (Text × C)
      took c = some (get_or (s.redis.get env.now (refresh_key (pos (suc n))) c) [], c)

module _ (p : Tenant → Bool) (f : Tenant → Tenant) where
  find-update_where :
      (xs : List Tenant) (a : Tenant)
      → ((x : Tenant) → p x ≡ true → p (f x) ≡ true)
      → find p xs ≡ some a
      → find p (update_where p f xs) ≡ some (f a)
  unfolding find update_where
  find-update_where [] a k h = cc
  find-update_where (x ∷ xs) a k h = ground (arith, k x, find-update_where xs a k)

-- A row that a search finds is the live row of its id.
find-is_live :
    (name : Text) (xs : List Tenant) (user : Tenant)
    → HasUniqueIds id_of xs
    → find (is_named name) xs ≡ some user
    → find (is_live user.id) xs ≡ some user
unfolding find
find-is_live name [] user u h = cc
find-is_live name (x ∷ xs) user u h = elim (Bool-cases (is_named name x)) [
  | inl here ↦
      let same : x ≡ user = ground (arith, here, h) in
      subst (λ user. (if is_live user.id x then some x else find (is_live user.id) xs) ≡ some user)
        same (ground (arith, here, int_beq_iff x.id x.id))
  | inr later ↦
      let there : find (is_named name) xs ≡ some user = rw later at h in
      let found = find-is_live name xs user u.1 there in
      let apart : user.id ≢ x.id = All-find (λ y. y.id ≢ x.id) (is_named name) xs user u.0 there in
      ground (arith, found, apart, int_beq_iff x.id user.id)
]

-- An id that BIGSERIAL gives and a float64 holds.
abbrev pub IsNumber : ℤ → Type 0
IsNumber id = (n : ℕ) × (id ≡ pos (suc n)) × (suc n < 2 ^ 53)

module _ {C : Type 0} (s : Services C) where
  unverified_user-bearer :
      (now : ℕ) (jti access : Text) (user : Tenant)
      → generate_access_token s now jti user ≡ some access
      → IsExact user.id
      → unverified_user s (bearer ++ access) ≡ user.id
  unfolding unverified_user generate_access_token
  unverified_user-bearer now jti access user signed exact =
      let sub =
        s.tokens.unverified-sign s.jwt.secret (access_claims now jti s.jwt user) access signed
          exact in
      rw (has_prefix-append bearer access, trim_prefix-append bearer access, sub) refl

  -- The live row of a tenant after its login.
  live_after :
      (now : ℕ) (user : Tenant) (before after : TenantTables)
      → find (is_live user.id) before.tenants ≡ some user
      → (after ≡ before) ⊎ (after ≡ touched_in now user.id before)
      → (row : Tenant) × (find (is_live user.id) after.tenants ≡ some row)
  live_after now user before after live (inl same) =
      (user, ap (λ t. find (is_live user.id) t.tenants) same ∙ live)
  live_after now user before after live (inr changed) = (
    touched now user,
    ap (λ t. find (is_live user.id) t.tenants) changed
        ∙ find-update_where (is_live user.id) (touched now) before.tenants user (λ x h. h) live,
  )

-- After a Login that answers 200, a Refresh with the Bearer token and the refresh token of the answer
-- answers with new tokens, if it comes within the lifetime of the refresh token, the tenants and the
-- entries of Redis are still as Login left them, none of its statements fails and every access token can
-- be signed. Ids are to be a key of the table, positive and below 2^53, and the UUID that was drawn not
-- empty.
pub login-refresh :
    {C : Type 0} (s : Services C) (env later : Env) (draws draws' : Draws) (ip : Text)
    (req : LoginRequest) (w t v : W C) (r : Response AuthData)
    → login s env draws ip (bound req) w ≡ stop r t
    → r.status ≡ 200
    → v.tables ≡ t.tables
    → ((key : Text) → s.redis.peek key v.store ≡ s.redis.peek key t.store)
    → IsUp later
    → later.now ≤ env.now + refresh_lifetime s.jwt
    → ((user : Tenant)
        → (raw : Text) × (generate_access_token s later.now draws'.jti user ≡ some raw))
    → draws.refresh ≢ []
    → HasUniqueIds id_of w.tables.tenants
    → All (λ user. IsNumber user.id) w.tables.tenants
    → (user : Tenant) × (access : Text) × (access' : Text) × (r
        ≡ welcome s env draws user access draws.refresh)
      × (answer (refresh s later draws' (bearer ++ access) (bound draws.refresh) v)
          ≡ some (renewed s later draws' access' draws'.refresh))
login-refresh s env later draws draws' ip req w t v r h ok same_tables same_store up early signs
      drawn unique numbers =
    let g = login-IsGranted s env draws ip req w t r h ok in
    let (n, id, small) =
      All-find (λ user. IsNumber user.id) (is_named req.username) w.tables.tenants g.user numbers
        g.found in
    let live = find-is_live req.username w.tables.tenants g.user unique g.found in
    let (row, there) = live_after s env.now g.user w.tables t.tables live g.tables in
    let (access', signed) = signs row in
    let named =
      unverified_user-bearer s env.now draws.jti g.access g.user g.signed
        (exact n g.user.id id small) in
    let held =
      get_held s.redis later.now (refresh_key g.user.id) draws.refresh
        (env.now + refresh_lifetime s.jwt) v.store (same_store (refresh_key g.user.id) ∙ g.held)
        early in
    (
      g.user,
      g.access,
      access',
      g.answered,
      refresh_answers s later draws' up (bearer ++ g.access) draws.refresh access' n row v
          (named ∙ id)
          (subst (λ i. s.redis.get later.now (refresh_key i) v.store ≡ some draws.refresh) id held)
          drawn
          (ap (λ u. find (is_live (pos (suc n))) u.tenants) same_tables
            ∙ subst (λ i. find (is_live i) t.tables.tenants ≡ some row) id there)
          signed,
    )
  where
    exact : (n : ℕ) (id : ℤ) → id ≡ pos (suc n) → suc n < 2 ^ 53 → IsExact id
    exact n id e small = subst IsExact (sym e) (small, omega arith)
