-- ===== src/RateLimit/Bucket.antt =====
-- One bucket of internal/middleware/ratelimit.go under a series of requests.
use weiyeston.Base.{
  ℕ, ◌+◌, ◌-◌, ◌*◌, ◌/◌, ◌≤◌, ◌<◌, true, false, List, [], ◌∷◌, ◌≡◌, refl, ap, arith, if◌then◌else◌,
}
use native.Mathlib.Nat.{div-add-mod, mod-lt, mul-le-mul_right}
use weiyeston.RateLimit.{token, TokenBucket, refill, allow}

-- A bucket never holds more than its burst, and its burst is at least one token.
pub record IsValid (b : TokenBucket) : Type 0 where
  pub capped : b.tokens ≤ b.burst
  pub admits : token ≤ b.burst

pub allow-IsValid : (now : ℕ) (b : TokenBucket) → IsValid b → IsValid (allow now b).bucket
unfolding allow
allow-IsValid now b v = ground arith

-- Times at which requests come, in order and not before the last refill.
pub data Arrivals : ℕ → List ℕ → Type 0 where
  done : {t : ℕ} → Arrivals t []
  more : {s t : ℕ} {ts : List ℕ} → s ≤ t → Arrivals t ts → Arrivals s (t ∷ ts)

pub run : List ℕ → TokenBucket → TokenBucket
run [] b = b
run (t ∷ ts) b = run ts (allow t b).bucket

pub passes : List ℕ → TokenBucket → ℕ
passes [] b = 0
passes (t ∷ ts) b = (if (allow t b).allowed then 1 else 0) + passes ts (allow t b).bucket

unfoldable pub last : ℕ → List ℕ → ℕ
last s [] = s
last s (t ∷ ts) = last t ts

Arrivals-le-last : {s : ℕ} {ts : List ℕ} → Arrivals s ts → s ≤ last s ts
unfolding last
Arrivals-le-last done = omega arith
Arrivals-le-last (more h a) = omega (arith, Arrivals-le-last a)

allow-last_refill : (now : ℕ) (b : TokenBucket) → (allow now b).bucket.last_refill ≡ now
unfolding allow
allow-last_refill now b = ground arith

allow-rate : (now : ℕ) (b : TokenBucket) → (allow now b).bucket.rate ≡ b.rate
unfolding allow
allow-rate now b = ground arith

allow_pays :
    (now since : ℕ) (b : TokenBucket)
    → b.last_refill ≡ since
    → (if (allow now b).allowed then 1 else 0) * token + (allow now b).bucket.tokens
      ≤ b.tokens + (now - since) * b.rate
unfolding allow
allow_pays now since b e = let spent = ap (λ (x : ℕ). (now - x) * b.rate) e in ground arith

-- Two stretches of time in a row, at one rate.
pays_append :
    (head rest tokens mid end s t l r : ℕ)
    → s ≤ t
    → t ≤ l
    → head * token + mid ≤ tokens + (t - s) * r
    → rest * token + end ≤ mid + (l - t) * r
    → (head + rest) * token + end ≤ tokens + (l - s) * r
pays_append head rest tokens mid end s t l r st tl first second =
    let split : (l - s) * r ≡ ((t - s) + (l - t)) * r = ap (λ (x : ℕ). x * r) (omega arith) in
    omega (arith, split)

run_pays :
    {s : ℕ} {ts : List ℕ} (b : TokenBucket)
    → Arrivals s ts
    → b.last_refill ≡ s
    → passes ts b * token + (run ts b).tokens ≤ b.tokens + (last s ts - s) * b.rate
unfolding passes run last
run_pays b done e = omega arith
run_pays {s} b (more {t} {ts} h a) e =
    pays_append (if (allow t b).allowed then 1 else 0) (passes ts (allow t b).bucket) b.tokens
      (allow t b).bucket.tokens (run ts (allow t b).bucket).tokens s t (last t ts) b.rate h
      (Arrivals-le-last a) (allow_pays t s b e)
      (rw (allow-rate t b) at (run_pays (allow t b).bucket a (allow-last_refill t b)))

wait_enough : (missing r : ℕ) → 0 < r → missing ≤ (missing / (r * token) + 1) * token * r
wait_enough missing r h =
    let exact = div-add-mod missing (r * token) in
    let short = mod-lt missing {m = r * token} (omega arith) in omega (arith, exact, short)

allow_of_enough :
    (now : ℕ) (b : TokenBucket)
    → token ≤ b.burst
    → token ≤ b.tokens + (now - b.last_refill) * b.rate
    → (allow now b).allowed ≡ true
unfolding allow
allow_of_enough now b h k = ground arith

-- A refused request leaves less than a token, and is told how long the rest takes to come.
allow_refused :
    (now : ℕ) (b : TokenBucket)
    → (allow now b).allowed ≡ false
    → ((allow now b).bucket ≡ refill now b)
      × ((refill now b).tokens < token)
      × ((allow now b).wait ≡ (token - (refill now b).tokens) / ((refill now b).rate * token))
unfolding allow
allow_refused now b h = ground arith

enough_after :
    (tokens r wait elapsed : ℕ)
    → 0 < r
    → wait ≡ (token - tokens) / (r * token)
    → (wait + 1) * token ≤ elapsed
    → token ≤ tokens + elapsed * r
enough_after tokens r wait elapsed h told waited = omega (
  arith,
  wait_enough (token - tokens) r h,
  ap (λ (x : ℕ). (x + 1) * token * r) told,
  mul-le-mul_right {m = (wait + 1) * token} {n = elapsed} r waited,
)

pub allow_later :
    (now later : ℕ) (b : TokenBucket)
    → token ≤ b.burst
    → 0 < b.rate
    → (allow now b).allowed ≡ false
    → now + ((allow now b).wait + 1) * token ≤ later
    → (allow later (allow now b).bucket).allowed ≡ true
unfolding refill
allow_later now later b v r refused h =
    let (same, low, told) = allow_refused now b refused in
    rw same (
      allow_of_enough later (refill now b) v (
        enough_after (refill now b).tokens b.rate (allow now b).wait (later - now) r told
          (omega arith)))

-- However its requests are spaced, a bucket lets through no more than it holds at the start and
-- gains in the meantime: k passes cost k tokens.
pub passes-le :
    (ts : List ℕ) (b : TokenBucket)
    → Arrivals b.last_refill ts
    → passes ts b * token ≤ b.tokens + (last b.last_refill ts - b.last_refill) * b.rate
passes-le ts b a = omega (arith, run_pays b a refl)
