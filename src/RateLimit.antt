-- ===== src/RateLimit.antt =====
-- internal/middleware/ratelimit.go: a token bucket for each client.
--
-- The source counts tokens and seconds in float64. Here a token is 10^9 units and time is in
-- nanoseconds, so that `elapsed * rate` is exact; the rounding of floats is left out. A negative
-- rate is left out too. A request holds its bucket's mutex, and a request and a sweep are one step
-- each: a sweep between `getOrCreate` and `allow` of one request is not modelled. At rate 0 the source
-- divides by zero in float64, and int(+Inf) is left to the machine: the wait is 0 here.
pub mod Bucket
mod Tests
pub mod Sweep
pub mod Store
pub mod Retry
use weiyeston.Base.{
  ℕ, suc, ◌+◌, ◌-◌, ◌*◌, ◌/◌, ◌^◌, Bool, true, false, Option, none, some, List, [], ◌∷◌, ◌++◌, ℤ,
  pos, pos_part, Text, codes, ltb, leb, leb_ℤ, if◌then◌else◌, text_eq,
}
use weiyeston.Assoc.{lookup, insert}

abbrev pub token : ℕ
token = 10 ^ 9

pub record RateLimitConfig : Type 0 where
  pub enabled : Bool
  pub rate : ℕ
  pub burst : ℤ
  pub key_prefix : Text

pub record TokenBucket : Type 0 where
  pub tokens : ℕ
  pub last_refill : ℕ
  pub last_access : ℕ
  pub rate : ℕ
  pub burst : ℕ

-- The first half of `allow`.
unfoldable pub refill : ℕ → TokenBucket → TokenBucket
refill now b =
    let grown = b.tokens + (now - b.last_refill) * b.rate in
    record b {
      tokens = if ltb b.burst grown then b.burst else grown;
      last_refill = now;
      last_access = now;
    }

-- `wait` is in whole seconds: int(waitSeconds).
pub record Verdict : Type 0 where
  pub allowed : Bool
  pub wait : ℕ
  pub bucket : TokenBucket

unfoldable pub spend : TokenBucket → Verdict
spend b =
    if leb token b.tokens
    then record { allowed = true; wait = 0; bucket = record b { tokens = b.tokens - token } }
    else record { allowed = false; wait = (token - b.tokens) / (b.rate * token); bucket = b }

unfoldable pub allow : ℕ → TokenBucket → Verdict
unfolding refill spend
allow now b = spend (refill now b)

abbrev pub Store : Type 0
Store = List (Text × TokenBucket)

abbrev pub burst_of : RateLimitConfig → ℕ
burst_of c = if leb_ℤ c.burst (pos 0) then 1 else pos_part c.burst

unfoldable pub new_bucket : RateLimitConfig → ℕ → TokenBucket
new_bucket c now = record {
  tokens = burst_of c * token;
  last_refill = now;
  last_access = now;
  rate = c.rate;
  burst = burst_of c * token;
}

-- The bucket, and the map with it in.
unfoldable pub get_or_create : RateLimitConfig → ℕ → Text → Store → TokenBucket × Store
unfolding new_bucket
get_or_create c now key s = elim (lookup key s) [
  | some b ↦ (b, s)
  | none ↦ (new_bucket c now, insert key (new_bucket c now) s)
]

unfoldable pub cleanup : ℕ → ℕ → Store → Store
cleanup now idle_timeout [] = []
cleanup now idle_timeout ((key, b) ∷ s) =
    let rest = cleanup now idle_timeout s in
    if ltb idle_timeout (now - b.last_access) then rest else (key, b) ∷ rest

-- `Retry-After` with status 429, or the next handler.
pub data Outcome : Type 0 where
  passed : Outcome
  refused : (retry_after : ℕ) → Outcome

abbrev pub key_of : RateLimitConfig → Text → Text
key_of c ip = c.key_prefix ++ codes ":" ++ ip

abbrev pub verdict_outcome : Verdict → Outcome
verdict_outcome v = if v.allowed then passed else refused (v.wait + 1)

-- The bucket is shared by its pointer, so what `allow` writes is in the map.
unfoldable pub rate_limit : RateLimitConfig → ℕ → Text → Store → Outcome × Store
rate_limit c now ip s =
    if c.enabled
    then (let (b, created) = get_or_create c now (key_of c ip) s in
        (verdict_outcome (allow now b), insert (key_of c ip) (allow now b).bucket created))
    else (passed, s)
