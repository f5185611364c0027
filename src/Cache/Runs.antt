-- ===== src/Cache/Runs.antt =====
-- The methods of internal/cache/redis.go where the server of Redis answers.
use weiyeston.Base.{
  ℕ, suc, false, some, [], Text, text_eq, ◌==◌, ◌≡◌, ◌≢◌, refl, ap, arith, text_beq_iff, get_or,
}
use weiyeston.Http.{Env, World, next}
use weiyeston.Redis.{Redis}
use weiyeston.Redis.Hoare.{command_runs}
use weiyeston.Cache

pub is_filled : (s : Text) → s ≢ [] → (s == []) ≡ false
is_filled s n = ground (arith, n, text_beq_iff s [])

module _ {T C D : Type 0} (redis : Redis C) (env : Env) (w : World T C)
    (up : env.fails w.sent ≡ false) where
  pub get_runs :
      (key value : Text)
      → redis.get env.now key w.store ≡ some value
      → Cache.get redis env {D = D} key w ≡ next (some value) (record w { sent = suc w.sent })
  unfolding Cache.get
  get_runs key value h =
      command_runs env (λ c. some (get_or (redis.get env.now key c) [], c)) w up
        (ap (λ o. some (get_or o [], w.store)) h)

  pub set_runs :
      (key value : Text) (ttl : ℕ)
      → Cache.set redis env {D = D} key value ttl w
        ≡ next
            (some tt)
            (record w { store = redis.set env.now key value ttl w.store; sent = suc w.sent })
  unfolding Cache.set
  set_runs key value ttl =
      command_runs env (λ c. some (tt, redis.set env.now key value ttl c)) w up refl
