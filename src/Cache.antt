-- ===== src/Cache.antt =====
-- internal/cache/redis.go: Client over the commands of Redis, with one key for Del.
pub mod Runs
use weiyeston.Base.{ℕ, Option, some, [], ℤ, Text, get_or}
use weiyeston.Http.{Env, World, Run}
use weiyeston.Redis.{Redis, command}

module _ {C : Type 0} (redis : Redis C) (env : Env) where
  -- The value of a key, or the empty text where there is none.
  unfoldable pub get : {T D : Type 0} → Text → World T C → Run (World T C) D (Option Text)
  get key = command env λ c. some (get_or (redis.get env.now key c) [], c)

  unfoldable pub set :
      {T D : Type 0} → (key value : Text) → ℕ → World T C → Run (World T C) D (Option (Unit {0}))
  set key value expiration = command env λ c. some (tt, redis.set env.now key value expiration c)

  unfoldable pub del : {T D : Type 0} → Text → World T C → Run (World T C) D (Option (Unit {0}))
  del key = command env λ c. some (tt, redis.del key c)

  unfoldable pub incr : {T D : Type 0} → Text → World T C → Run (World T C) D (Option ℤ)
  incr key = command env (redis.incr env.now key)

  unfoldable pub expire :
      {T D : Type 0} → Text → ℕ → World T C → Run (World T C) D (Option (Unit {0}))
  expire key expiration = command env λ c. some (tt, redis.expire env.now key expiration c)
