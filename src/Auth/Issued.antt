-- ===== src/Auth/Issued.antt =====
-- The pair of tokens that Login and Refresh of internal/handler/api/auth.go issue.
use weiyeston.Base.{suc, ◌+◌, some, ℤ, Text, ◌≡◌, refl, sym, ap, ◌∙◌, some_injective}
use weiyeston.Http.{Env, or_fail, or_respond, Response}
use weiyeston.Http.Hoare.{Ensures, OnValue, Ensures->>=, Ensures-or_fail, Ensures-or_respond_cases}
use mathlib.Core.Path.{subst}
use weiyeston.Redis.Hoare.{Ensures-command}
use weiyeston.Redis.Laws.{peek-set_same, entry}
use weiyeston.Tenant.{Tenant}
use weiyeston.Tenant.Repo.{W}
use weiyeston.Auth.{
  Services, Draws, generate_access_token, generate_refresh_token, put_token, refresh_key,
  refresh_lifetime,
}
use weiyeston.Auth.Views.{AuthData}
use weiyeston.Auth.Handlers.{H, server_error}
use weiyeston.Auth.Session.{issue}

module _ {C : Type 0} (s : Services C) (env : Env) (draws : Draws) where
  -- The refresh token that Redis holds for a user.
  abbrev pub HasToken : ℤ → Text → W C → Type 0
  HasToken id refresh t =
      s.redis.peek (refresh_key id) t.store
      ≡ some (entry refresh (env.now + refresh_lifetime s.jwt))

  abbrev KeptAs : ℤ → W C → Text → W C → Type 0
  KeptAs id u refresh t =
      (refresh ≡ draws.refresh) × HasToken id draws.refresh t × (t.tables ≡ u.tables)

  module _ (E : Response AuthData → W C → Type 0) (failed : (t : W C) → E server_error t) where
    generate-Ensures :
        (id : ℤ) (u t : W C)
        → t.tables ≡ u.tables
        → Ensures
            (KeptAs id u)
            E
            (or_fail (generate_refresh_token s env draws.refresh id) server_error t)
    unfolding generate_refresh_token
    generate-Ensures id u t e =
        Ensures-or_fail (KeptAs id u) E (generate_refresh_token s env draws.refresh id) server_error
          t
          (Ensures-command (OnValue (KeptAs id u) (E server_error)) E env
            (put_token s env.now draws.refresh id) t (failed (record t { sent = suc t.sent }))
            λ refresh c h. (
              sym (ap (λ p. p.0) (some_injective h)),
              ap (λ c. s.redis.peek (refresh_key id) c) (sym (ap (λ p. p.1) (some_injective h)))
                  ∙ peek-set_same s.redis env.now (refresh_key id) draws.refresh
                      (refresh_lifetime s.jwt) t.store,
              e,
            ))

    -- What a reply can rely on: a signed access token, and the refresh token that Redis holds.
    pub issue-Ensures :
        (user : Tenant) (reply : Text → Text → H C (Unit {0})) (u : W C)
        → ((access : Text) (t : W C)
            → generate_access_token s env.now draws.jti user ≡ some access
            → HasToken user.id draws.refresh t
            → t.tables ≡ u.tables
            → Ensures (λ _ t. Unit {0}) E (reply access draws.refresh t))
        → Ensures (λ _ t. Unit {0}) E (issue s env draws user reply u)
    unfolding issue
    issue-Ensures user reply u k =
        Ensures->>=
          (λ access t. (generate_access_token s env.now draws.jti user ≡ some access) × (t ≡ u))
          (λ _ t. Unit {0}) E (or_respond (generate_access_token s env.now draws.jti user) _) _ u
          (Ensures-or_respond_cases _ E (generate_access_token s env.now draws.jti user) _ u
            (λ a h. (h, refl)) λ _. failed u)
          λ access t (signed, same).
            Ensures->>= (KeptAs user.id u) (λ _ t. Unit {0}) E
              (or_fail (generate_refresh_token s env draws.refresh user.id) _) _ t
              (generate-Ensures user.id u t (ap (λ w. w.tables) same))
              λ refresh v (r, held, tables).
                subst (λ x. Ensures (λ _ t. Unit {0}) E (reply access x v)) (sym r)
                  (k access v signed held tables)
