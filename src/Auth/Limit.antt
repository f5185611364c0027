-- ===== src/Auth/Limit.antt =====
-- The limit on logins in Login of internal/handler/api/auth.go: five in a minute for an address.
pub mod Window
pub mod Tail
use weiyeston.Base.{
  ℕ, zero, suc, ◌+◌, ◌-◌, ◌≤◌, ◌<◌, Bool, true, false, ◌&&◌, not, Option, none, some, List, [], ◌∷◌,
  ℤ, pos, Text, nat_eq, ◌==◌, ◌!=◌, ◌≡◌, refl, arith, All, if◌then◌else◌, Bool-cases, inl, inr,
  subst,
}
use weiyeston.Http.{
  Env, Run, next, stop, after, ◌>>=◌, ◌>>◌, or_fail, or_invalid, Response, Bound, invalid, bound,
}
use weiyeston.Http.Hoare.{Ensures, Ensures->>, Ensures-mono}
use weiyeston.Tenant.Repo.{W, get_by_username}
use weiyeston.Auth.{Services, Draws}
use weiyeston.Auth.Views.{AuthData, LoginRequest}
use weiyeston.Auth.Handlers.{server_error}
use weiyeston.Auth.Session.{minute, limit_login, login_user, login}
use weiyeston.Auth.Limit.Window.{Counts, CountsAt, Outcome, told, Passed, limit_login-Passed}
use weiyeston.Auth.Limit.Tail.{login_tail-Counts}

module _ {C : Type 0} (s : Services C) (ip : Text) where
  abbrev told_by : Run (W C) AuthData (Unit {0}) → Bool
  told_by (next a t) = false
  told_by (stop r t) = told r

  -- The logins of an address in a series that are told about an account or its password.
  unfoldable pub tries : List (Env × Draws × Bound LoginRequest) → W C → ℕ
  tries [] w = 0
  tries ((env, draws, body) ∷ requests) w =
      (if told_by (login s env draws ip body w) then 1 else 0)
      + tries requests (after (login s env draws ip body w))

  module _ (start : ℕ) where
    -- After so many logins, a request counts at most one more, and only the first five are told.
    abbrev Told : ℕ → Run (W C) AuthData (Unit {0}) → Type 0
    Told n (next a t) = Counts start s ip n t
    Told n (stop r t) = Outcome start s ip n r t

    Told-of-Counts :
        (n k : ℕ) (m : Run (W C) AuthData (Unit {0}))
        → Counts start s ip k (after m)
        → n < k
        → k ≤ 5
        → Ensures (λ _ t. Counts start s ip k t × (n ≤ k)) (Outcome start s ip n) m
    Told-of-Counts n k (next a t) c l f = (c, omega (arith, l))
    Told-of-Counts n k (stop r t) c l f = (k, c, omega (arith, l), λ _. (l, f))

    login-Outcome :
        (env : Env) (draws : Draws) (body : Bound LoginRequest) (n : ℕ) (w : W C)
        → start ≤ env.now
        → env.now ≤ start + minute
        → Counts start s ip n w
        → Ensures
            (λ _ t. (k : ℕ) × Counts start s ip k t × (n ≤ k))
            (Outcome start s ip n)
            (login s env draws ip body w)
    unfolding login told
    login-Outcome env draws invalid n w late early c =
        (n, c, omega arith, λ loud. absurd (ground (arith, loud)))
    login-Outcome env draws (bound req) n w late early c =
        Ensures->> (λ _ t. Passed start s ip n t) (λ _ t. (k : ℕ) × Counts start s ip k t × (n ≤ k))
          (Outcome start s ip n) (limit_login s env ip) _ w
          (limit_login-Passed start s ip env late early n w c)
          λ _ t (k, c', more, few).
            Ensures-mono (λ _ t. Counts start s ip k t × (n ≤ k)) _ (Outcome start s ip n)
              (Outcome start s ip n) _ (λ _ t p. (k, p.0, p.1)) (λ r t p. p)
              (Told-of-Counts n k
                ((or_fail (get_by_username env req.username) server_error
                    >>= login_user s env draws req.password)
                  t)
                (login_tail-Counts s start ip k env draws req server_error t c') more few)

    abbrev InWindow : Env × Draws × Bound LoginRequest → Type 0
    InWindow (env, draws, body) = (start ≤ env.now) × (env.now ≤ start + minute)

    -- One request of a series and the rest of it.
    step-le :
        (n rest : ℕ) (m : Run (W C) AuthData (Unit {0}))
        → Ensures (λ _ t. (k : ℕ) × Counts start s ip k t × (n ≤ k)) (Outcome start s ip n) m
        → ((k : ℕ) → Counts start s ip k (after m) → rest ≤ 5 - k)
        → (if told_by m then 1 else 0) + rest ≤ 5 - n
    step-le n rest (next a t) (k, c, l) f = omega (arith, l, f k c)
    step-le n rest (stop r t) (k, c, l, g) f = ground (arith, l, g, f k c)

    tries-le :
        (requests : List (Env × Draws × Bound LoginRequest)) (n : ℕ) (w : W C)
        → All InWindow requests
        → Counts start s ip n w
        → tries requests w ≤ 5 - n
    unfolding tries
    tries-le [] n w h c = omega arith
    tries-le ((env, draws, body) ∷ requests) n w h c =
        step-le n (tries requests (after (login s env draws ip body w)))
          (login s env draws ip body w) (login-Outcome env draws body n w h.0.0 h.0.1 c)
          λ k c'. tries-le requests k (after (login s env draws ip body w)) h.1 c'

-- Of the logins of one address in a minute, at most five are told anything about an account or its
-- password (an answer other than 400, 429 and 500), whatever they give and whichever of their
-- statements and commands fail, if the address has no counter at the start of that minute.
pub tries_limit :
    {C : Type 0} (s : Services C) (ip : Text) (start : ℕ)
    (requests : List (Env × Draws × Bound LoginRequest)) (w : W C)
    → All (InWindow s ip start) requests
    → Counts start s ip 0 w
    → tries s ip requests w ≤ 5
tries_limit s ip start requests w h c = tries-le s ip start requests 0 w h c
