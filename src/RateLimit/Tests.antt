-- ===== src/RateLimit/Tests.antt =====
-- Runs of the limiter, and its theorems at concrete inputs.
use weiyeston.Base.{
  ◌+◌, ◌-◌, ◌*◌, ◌≤◌, true, false, ◌⊎◌, [], ◌∷◌, ◌≡◌, refl, arith, Text, text_eq, codes, pos,
  text_beq,
}
use weiyeston.Assoc.{lookup, insert}
use weiyeston.RateLimit.{
  token, RateLimitConfig, TokenBucket, Store, new_bucket, allow, cleanup, key_of, rate_limit,
  passed, refused, get_or_create,
}
use weiyeston.RateLimit.Bucket.{done, more, passes, last, passes-le}
use weiyeston.RateLimit.Store.{IsStore, IsStamped, IsDecided, rate_limit_lem, rate_limit-IsStore}
use weiyeston.RateLimit.Sweep.{rate_limit-cleanup}

abbrev two_a_second : RateLimitConfig
two_a_second = record { enabled = true; rate = 2; burst = pos 1; key_prefix = codes "rl" }

abbrev client : Text
client = codes "10.0.0.1"

second_request_refused :
    (rate_limit two_a_second 0 client (rate_limit two_a_second 0 client []).1).0 ≡ refused 1
unfolding rate_limit allow get_or_create new_bucket lookup insert text_beq
second_request_refused = refl

abbrev drained : TokenBucket
drained = record { tokens = 0; last_refill = 0; last_access = 0; rate = 2; burst = token }

passes-le_example : passes (0 ∷ token ∷ []) drained * token ≤ 0 + (token - 0) * 2
unfolding last
passes-le_example =
    passes-le (0 ∷ token ∷ []) drained (more (omega arith) (more (omega arith) done))

rate_limit_lem_example :
    ((two_a_second.enabled ≡ true) × IsDecided two_a_second 0 client [])
    ⊎ ((two_a_second.enabled ≡ false) × (rate_limit two_a_second 0 client [] ≡ (passed, [])))
rate_limit_lem_example = rate_limit_lem two_a_second 0 client []

empty-IsStore : IsStore two_a_second 0 []
empty-IsStore = record { unique = tt; kept = tt }

rate_limit-IsStore_example :
    IsStore two_a_second 5 (rate_limit two_a_second 5 client []).1
    × ((two_a_second.enabled ≡ false)
        ⊎ IsStamped 5 (key_of two_a_second client) (rate_limit two_a_second 5 client []).1)
rate_limit-IsStore_example =
    rate_limit-IsStore two_a_second 0 5 client [] (omega arith) empty-IsStore

abbrev spent : Store
spent = (codes "rl:10.0.0.1", drained) ∷ []

abbrev visited : Store
visited = (codes "rl:10.0.0.1", record drained { tokens = token }) ∷ []

visited-IsStore : IsStore two_a_second (400 * token) visited
unfolding lookup
visited-IsStore = record { unique = (refl, tt); kept = (ground arith, tt) }

rate_limit-cleanup_example :
    ((rate_limit two_a_second (401 * token) client (cleanup (400 * token) (300 * token) visited)).0
      ≡ (rate_limit two_a_second (401 * token) client visited).0)
    × (lookup
          (key_of two_a_second client)
          (rate_limit two_a_second
            (401 * token)
            client
            (cleanup (400 * token) (300 * token) visited)).1
        ≡ lookup
            (key_of two_a_second client)
            (rate_limit two_a_second (401 * token) client visited).1)
rate_limit-cleanup_example =
    rate_limit-cleanup two_a_second (400 * token) (401 * token) (300 * token) client visited refl
      (omega arith) (omega arith) visited-IsStore
