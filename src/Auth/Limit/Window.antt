-- ===== src/Auth/Limit/Window.antt =====
-- The counter of an address in Redis while a minute runs.
use weiyeston.Base.{
  ℕ, zero, suc, ◌+◌, ◌≤◌, ◌<◌, Bool, true, false, ◌&&◌, Option, none, some, ℤ, pos, Text, nat_eq,
  int_eq, text_eq, ◌==◌, ◌!=◌, ltb_ℤ, ltb, ◌^◌, ◌≡◌, refl, sym, ap, ◌∙◌, arith, some_injective,
  Bool-cases, inl, inr,
}
use weiyeston.Http.{Env, or_fail, Response}
use weiyeston.Http.Hoare.{
  Ensures, OnValue, Ensures->>=, Ensures->>, Ensures-or_fail, Ensures-reject, Ensures-ignore,
}
use weiyeston.Strconv.{format_int}
use weiyeston.Redis.{Entry, at_time, command}
use weiyeston.Redis.Hoare.{Ensures-command}
use weiyeston.Tenant.Repo.{W}
use weiyeston.Auth.{Services}
use weiyeston.Auth.Views.{AuthData}
use weiyeston.Auth.Handlers.{server_error}
use weiyeston.Auth.Session.{rate_key, minute, start_window, limit_login, too_many}

-- An answer that tells about the account or its password: none of 400, 429 and 500.
unfoldable pub told : Response AuthData → Bool
told r = r.status != 400 && r.status != 429 && r.status != 500

module _ (start : ℕ) where
  abbrev pub Lasts : Option ℕ → Type 0
  Lasts none = Unit
  Lasts (some end) = start + minute ≤ end

  -- The key's entry after so many logins in the minute from `start`.
  abbrev pub CountsAt : ℕ → Option Entry → Type 0
  CountsAt zero e = (now : ℕ) → start ≤ now → at_time now e ≡ none
  CountsAt (suc n) e =
      (end : Option ℕ) × (e ≡ some (record { value = format_int (pos (suc n)); expire_at = end }))
      × Lasts end
      × (suc n < 2 ^ 63)

  module _ {C : Type 0} (s : Services C) (ip : Text) where
    abbrev pub Counts : ℕ → W C → Type 0
    Counts n w = CountsAt n (s.redis.peek (rate_key ip) w.store)

    -- How a login ends that starts with `n` logins counted.
    abbrev pub Outcome : ℕ → Response AuthData → W C → Type 0
    Outcome n r t = (k : ℕ) × Counts k t × (n ≤ k) × (told r ≡ true → (n < k) × (k ≤ 5))

    abbrev pub Passed : ℕ → W C → Type 0
    Passed n t = (k : ℕ) × Counts k t × (n < k) × (k ≤ 5)

    alive :
        (now : ℕ) (value : Text) (end : Option ℕ)
        → now ≤ start + minute
        → Lasts end
        → at_time now (some (record { value = value; expire_at = end }))
          ≡ some (record { value = value; expire_at = end })
    alive now value none l k = refl
    alive now value (some end) l k = ground arith

    module _ (env : Env) (late : start ≤ env.now) (early : env.now ≤ start + minute) where
      abbrev Next : ℕ → ℤ → C → Type 0
      Next n count c = (count ≡ pos (suc n)) × CountsAt (suc n) (s.redis.peek (rate_key ip) c)

      incr-Next :
          (n : ℕ) (w : W C) (count : ℤ) (c : C)
          → Counts n w
          → s.redis.incr env.now (rate_key ip) w.store ≡ some (count, c)
          → Next n count c
      incr-Next zero w count c k h =
          let (c', e, p) = s.redis.incr_fresh env.now (rate_key ip) w.store (k env.now late) in
          let same = some_injective (sym h ∙ e) in
          (
            ap (λ p. p.0) same,
            (none, ap (λ p. s.redis.peek (rate_key ip) p.1) same ∙ p, tt, omega arith),
          )
      incr-Next (suc n) w count c (end, q, l, small) h =
          let held = ap (at_time env.now) q ∙ alive env.now _ end early l in
          elim (Bool-cases (ltb (suc (suc n)) (2 ^ 63))) [
            | inl room ↦
                let (c', e, p) =
                  s.redis.incr_held env.now (rate_key ip) w.store (suc n) end held
                    (ground (arith, room)) in
                let same = some_injective (sym h ∙ e) in
                (
                  ap (λ p. p.0) same,
                  (end, ap (λ p. s.redis.peek (rate_key ip) p.1) same ∙ p, l, ground (arith, room)),
                )
            | inr full ↦
                let refused =
                  s.redis.incr_full env.now (rate_key ip) w.store (suc n) end held small
                    (ground (arith, full)) in
                cc
          ]

      -- A response that tells nothing, when no more logins are counted than before.
      untold :
          (n k : ℕ) (r : Response AuthData) (t : W C)
          → n ≤ k
          → told r ≡ false
          → Counts k t
          → Outcome n r t
      untold n k r t le quiet c = (k, c, le, λ loud. absurd (ground (arith, loud, quiet)))

      start_window-Counts :
          (n : ℕ) (b : Bool) (u : W C)
          → Counts (suc n) u
          → Ensures (λ _ t. Counts (suc n) t) (Outcome n) (start_window s env b ip u)
      unfolding start_window
      start_window-Counts n false u c = c
      start_window-Counts n true u (end, q, l, small) =
          Ensures-ignore (λ _ t. Counts (suc n) t) (Outcome n) (command env expire) u
            (Ensures-command (λ _ t. Counts (suc n) t) (Outcome n) env expire u (end, q, l, small)
              λ a c h. (
                some (env.now + minute),
                ap (s.redis.peek (rate_key ip)) (sym (ap (λ p. p.1) (some_injective h)))
                    ∙ s.redis.expire_held env.now (rate_key ip) minute u.store
                        (record { value = format_int (pos (suc n)); expire_at = end })
                        (ap (at_time env.now) q ∙ alive env.now _ end early l),
                omega (arith, late),
                small,
              ))
        where
          expire : C → Option (Unit {0} × C)
          expire c = some (tt, s.redis.expire env.now (rate_key ip) minute c)

      -- The limiter counts a login, and passes the first five.
      pub limit_login-Passed :
          (n : ℕ) (u : W C)
          → Counts n u
          → Ensures (λ _ t. Passed n t) (Outcome n) (limit_login s env ip u)
      unfolding limit_login told
      limit_login-Passed n u c =
          Ensures->>= (λ count t. (count ≡ pos (suc n)) × Counts (suc n) t) (λ _ t. Passed n t)
            (Outcome n) (or_fail (command env (s.redis.incr env.now (rate_key ip))) _) _ u
            (Ensures-or_fail (λ count t. (count ≡ pos (suc n)) × Counts (suc n) t) (Outcome n)
              (command env (s.redis.incr env.now (rate_key ip))) server_error u
              (Ensures-command
                (OnValue (λ count t. (count ≡ pos (suc n)) × Counts (suc n) t)
                  (Outcome n server_error))
                (Outcome n) env (s.redis.incr env.now (rate_key ip)) u
                (untold n n server_error (record u { sent = suc u.sent }) (omega arith) refl c)
                λ count c' h. incr-Next n u count c' c h))
            λ count t (counted, c').
              Ensures->> (λ _ t. Counts (suc n) t) (λ _ t. Passed n t) (Outcome n)
                (start_window s env (count == pos 1) ip) _ t
                (start_window-Counts n (count == pos 1) t c')
                λ _ v c''.
                  Ensures-reject (λ _ t. Passed n t) (Outcome n) (ltb_ℤ (pos 5) count) too_many v
                    (λ e. (suc n, c'', omega arith, ground (arith, e, counted)))
                    λ _. untold n (suc n) too_many v (omega arith) refl c''
