-- ===== src/RateLimit/Sweep.antt =====
-- The sweep of idle buckets of internal/middleware/ratelimit.go.
use weiyeston.Base.{
  ℕ, ◌+◌, ◌-◌, ◌*◌, ◌≤◌, ◌<◌, true, Option, none, some, [], ◌∷◌, ◌≡◌, refl, arith, ltb,
  if◌then◌else◌, get_or, Text, text_eq, text_beq_iff, Option-cases, Bool-cases, inl, inr, ap, sym,
  ◌∙◌,
}
use native.Mathlib.Nat.{mul-le-mul_right}
use weiyeston.Assoc.{lookup, All-lookup, HasUniqueKeys}
use weiyeston.RateLimit.{
  token, RateLimitConfig, TokenBucket, Store, burst_of, new_bucket, refill, spend, allow, cleanup,
  key_of, verdict_outcome, rate_limit,
}
use weiyeston.RateLimit.Store.{IsKept, IsStore, rate_limit_on}

abbrev unless_idle : ℕ → ℕ → Option TokenBucket → Option TokenBucket
unless_idle now timeout none = none
unless_idle now timeout (some b) = if ltb timeout (now - b.last_access) then none else some b

-- The sweep drops the buckets that were idle for longer than the timeout, and no other.
pub lookup-cleanup :
    (now timeout : ℕ) (key : Text) (s : Store)
    → HasUniqueKeys s
    → lookup key (cleanup now timeout s) ≡ unless_idle now timeout (lookup key s)
unfolding lookup cleanup
lookup-cleanup now timeout key [] u = refl
lookup-cleanup now timeout key ((j, b) ∷ s) u =
    ground (arith, text_beq_iff j key, lookup-cleanup now timeout key s u.1)

abbrev full : ℕ → ℕ → ℕ → TokenBucket
full later rate burst = record {
  tokens = burst;
  last_refill = later;
  last_access = later;
  rate = rate;
  burst = burst;
}

refill-full :
    (later rate burst : ℕ) (b : TokenBucket)
    → b.rate ≡ rate
    → b.burst ≡ burst
    → burst ≤ b.tokens + (later - b.last_refill) * rate
    → refill later b ≡ full later rate burst
unfolding refill
refill-full later rate burst b r e h =
    let gained = ap (λ (x : ℕ). (later - b.last_refill) * x) r in ground arith

-- A bucket idle for so long has filled up, so it acts as a new one.
refill_idle :
    (c : RateLimitConfig) (now later timeout : ℕ) (b : TokenBucket)
    → burst_of c * token ≤ timeout * c.rate
    → timeout < now - b.last_access
    → now ≤ later
    → IsKept c now b
    → refill later b ≡ full later c.rate (burst_of c * token)
refill_idle c now later timeout b enough idle h k =
    let elapsed = mul-le-mul_right {m = timeout} {n = later - b.last_refill} c.rate (omega arith) in
    refill-full later c.rate (burst_of c * token) b k.rate k.burst (omega arith)

refill_new :
    (c : RateLimitConfig) (later : ℕ)
    → refill later (new_bucket c later) ≡ full later c.rate (burst_of c * token)
unfolding new_bucket
refill_new c later = refill-full later c.rate (burst_of c * token) _ refl refl (omega arith)

abbrev current : RateLimitConfig → ℕ → Option TokenBucket → TokenBucket
current c now o = get_or o (new_bucket c now)

swept_refill :
    (c : RateLimitConfig) (now later timeout : ℕ) (key : Text) (s : Store)
    → burst_of c * token ≤ timeout * c.rate
    → now ≤ later
    → IsStore c now s
    → refill later (current c later (lookup key (cleanup now timeout s)))
      ≡ refill later (current c later (lookup key s))
swept_refill c now later timeout key s enough h v =
    rw (lookup-cleanup now timeout key s v.unique) (elim (Option-cases (lookup key s)) [
      | inl missing ↦ rw missing
      | inr (b, found) ↦ rw found (elim (Bool-cases (ltb timeout (now - b.last_access))) [
        | inl idle ↦
            let kept = All-lookup (λ e. IsKept c now e.1) key b s found v.kept in
            rw idle (
              refill_new c later
              ∙ sym (refill_idle c now later timeout b enough (ground arith) h kept))
        | inr fresh ↦ rw fresh
      ])
    ])

allow_of_refill :
    (later : ℕ) (b d : TokenBucket)
    → refill later b ≡ refill later d
    → allow later b ≡ allow later d
unfolding allow
allow_of_refill later b d e = ap spend e

-- Where the timeout is long enough to fill a bucket, no client can tell that a sweep has dropped its
-- idle bucket: its next request gets the same answer and leaves the same bucket as without the sweep.
pub rate_limit-cleanup :
    (c : RateLimitConfig) (now later timeout : ℕ) (ip : Text) (s : Store)
    → c.enabled ≡ true
    → burst_of c * token ≤ timeout * c.rate
    → now ≤ later
    → IsStore c now s
    → ((rate_limit c later ip (cleanup now timeout s)).0 ≡ (rate_limit c later ip s).0)
      × (lookup (key_of c ip) (rate_limit c later ip (cleanup now timeout s)).1
          ≡ lookup (key_of c ip) (rate_limit c later ip s).1)
rate_limit-cleanup c now later timeout ip s on enough h v =
    let same =
      allow_of_refill later _ _ (swept_refill c now later timeout (key_of c ip) s enough h v) in
    let (swept, swept_map) = rate_limit_on c later ip (cleanup now timeout s) on in
    let (plain, plain_map) = rate_limit_on c later ip s on in
    (
      swept ∙ ap verdict_outcome same ∙ sym plain,
      swept_map (key_of c ip)
          ∙ rw ((text_beq_iff (key_of c ip) (key_of c ip)).1 refl) (ap (λ v. some v.bucket) same)
          ∙ sym (plain_map (key_of c ip)),
    )
