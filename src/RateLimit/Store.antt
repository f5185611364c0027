-- ===== src/RateLimit/Store.antt =====
-- The map of buckets of internal/middleware/ratelimit.go under a request.
use weiyeston.Base.{
  leb_ℤ, pos, pos_part, ℕ, ◌*◌, ◌≤◌, true, false, some, ◌≡◌, ◌≢◌, refl, ap, ◌∙◌, ◌⊎◌, arith,
  if◌then◌else◌, get_or, Text, text_eq, text_beq_iff, All, All-map, Option-cases, Bool-cases, inl,
  inr, ◌==◌,
}
use weiyeston.Assoc.{
  lookup, insert, lookup-insert, All-insert, All-lookup, HasUniqueKeys, insert-HasUniqueKeys,
}
use weiyeston.RateLimit.{
  token, RateLimitConfig, TokenBucket, Store, burst_of, new_bucket, allow, get_or_create, key_of,
  verdict_outcome, rate_limit, passed, Outcome,
}
use weiyeston.RateLimit.Bucket.{IsValid, allow-IsValid}

abbrev pub current : RateLimitConfig → ℕ → Text → Store → TokenBucket
current c now key s = get_or (lookup key s) (new_bucket c now)

get_or_create_lem :
    (c : RateLimitConfig) (now : ℕ) (key j : Text) (s : Store)
    → ((get_or_create c now key s).0 ≡ current c now key s)
      × (lookup j (get_or_create c now key s).1
          ≡ (if key == j then some (current c now key s) else lookup j s))
unfolding get_or_create
get_or_create_lem c now key j s = elim (Option-cases (lookup key s)) [
  | inl missing ↦ rw (missing, get_or_create) (refl, lookup-insert key j (new_bucket c now) s)
  | inr (b, found) ↦ rw (found, get_or_create) (refl, ground (arith, text_beq_iff key j))
]

pub rate_limit_on :
    (c : RateLimitConfig) (now : ℕ) (ip : Text) (s : Store)
    → c.enabled ≡ true
    → ((rate_limit c now ip s).0 ≡ verdict_outcome (allow now (current c now (key_of c ip) s)))
      × ((key : Text)
          → lookup key (rate_limit c now ip s).1 ≡ (
              if key_of c ip == key
              then some (allow now (current c now (key_of c ip) s)).bucket
              else lookup key s))
unfolding rate_limit
rate_limit_on c now ip s on = (
  ground (arith, get_or_create_lem c now (key_of c ip) (key_of c ip) s),
  λ key. ground (
    arith,
    get_or_create_lem c now (key_of c ip) key s,
    lookup-insert (key_of c ip) key (allow now (get_or_create c now (key_of c ip) s).0).bucket
        (get_or_create c now (key_of c ip) s).1,
  ),
)

pub rate_limit_off :
    (c : RateLimitConfig) (now : ℕ) (ip : Text) (s : Store)
    → c.enabled ≡ false
    → rate_limit c now ip s ≡ (passed, s)
unfolding rate_limit
rate_limit_off c now ip s off =
    ap
      (λ e.
        if◌then◌else◌ {A = Outcome × Store} e
          (let (b, created) = get_or_create c now (key_of c ip) s in
            (verdict_outcome (allow now b), insert (key_of c ip) (allow now b).bucket created))
          (passed, s))
      off

-- A bucket that a client's first request finds: its burst of tokens, or one token where the burst is
-- not positive, and no time gone by.
abbrev pub full_bucket : RateLimitConfig → ℕ → TokenBucket
full_bucket c now = record {
  tokens = (if leb_ℤ c.burst (pos 0) then 1 else pos_part c.burst) * token;
  last_refill = now;
  last_access = now;
  rate = c.rate;
  burst = (if leb_ℤ c.burst (pos 0) then 1 else pos_part c.burst) * token;
}

-- A request of a limiter that is on goes by its own client's bucket.
pub record IsDecided (c : RateLimitConfig) (now : ℕ) (ip : Text) (s : Store) : Type 0 where
  pub bucket : TokenBucket
  pub own : get_or (lookup (key_of c ip) s) (full_bucket c now) ≡ bucket
  pub outcome : (rate_limit c now ip s).0 ≡ verdict_outcome (allow now bucket)
  pub kept : lookup (key_of c ip) (rate_limit c now ip s).1 ≡ some (allow now bucket).bucket
  pub others :
      (key : Text) → key_of c ip ≢ key → lookup key (rate_limit c now ip s).1 ≡ lookup key s

-- If the limiter is on, a request is decided by its own client's bucket, full if there is none yet, and
-- leaves that bucket as `allow` does, and every other client's bucket as it was. If it is off, the
-- request passes and the map of buckets is as it was.
pub rate_limit_lem :
    (c : RateLimitConfig) (now : ℕ) (ip : Text) (s : Store)
    → ((c.enabled ≡ true) × IsDecided c now ip s)
      ⊎ ((c.enabled ≡ false) × (rate_limit c now ip s ≡ (passed, s)))
unfolding new_bucket
rate_limit_lem c now ip s = elim (Bool-cases c.enabled) [
  | inr off ↦ inr (off, rate_limit_off c now ip s off)
  | inl on ↦
      let (outcome, map_after) = rate_limit_on c now ip s on in
      inl (
        on,
        record {
          bucket = current c now (key_of c ip) s;
          own = refl;
          outcome = outcome;
          kept =
              map_after (key_of c ip)
              ∙ ap
                  (λ b.
                    if b
                    then some (allow now (current c now (key_of c ip) s)).bucket
                    else lookup (key_of c ip) s)
                  ((text_beq_iff (key_of c ip) (key_of c ip)).1 refl);
          others = λ key apart. ground (arith, map_after key, text_beq_iff (key_of c ip) key);
        },
      )
]

-- What holds of every bucket that the limiter makes and keeps.
pub record IsKept (c : RateLimitConfig) (now : ℕ) (b : TokenBucket) : Type 0 where
  pub valid : IsValid b
  pub rate : b.rate ≡ c.rate
  pub burst : b.burst ≡ burst_of c * token
  pub touched : b.last_access ≡ b.last_refill
  pub past : b.last_refill ≤ now

pub record IsStore (c : RateLimitConfig) (now : ℕ) (s : Store) : Type 0 where
  pub unique : HasUniqueKeys s
  pub kept : All (λ e. IsKept c now e.1) s

new_bucket-IsKept : (c : RateLimitConfig) (now : ℕ) → IsKept c now (new_bucket c now)
unfolding new_bucket
new_bucket-IsKept c now = ground arith

allow-IsKept :
    (c : RateLimitConfig) (before now : ℕ) (b : TokenBucket)
    → IsKept c before b
    → IsKept c now (allow now b).bucket
unfolding allow
allow-IsKept c before now b k = record {
  valid = allow-IsValid now b k.valid;
  rate = ground arith;
  burst = ground arith;
  touched = ground arith;
  past = ground arith;
}

IsKept-later :
    {c : RateLimitConfig} {before now : ℕ} {b : TokenBucket}
    → before ≤ now
    → IsKept c before b
    → IsKept c now b
IsKept-later h k = record {
  valid = k.valid;
  rate = k.rate;
  burst = k.burst;
  touched = k.touched;
  past = omega arith;
}

pub IsStore-later :
    {c : RateLimitConfig} {before now : ℕ} {s : Store}
    → before ≤ now
    → IsStore c before s
    → IsStore c now s
IsStore-later {s} h v = record {
  unique = v.unique;
  kept = All-map (λ e k. IsKept-later h k) s v.kept;
}

-- A bucket that is put in keeps a good map good.
insert-IsStore :
    {c : RateLimitConfig} {now : ℕ} {s : Store} (key : Text) {b : TokenBucket}
    → IsKept c now b
    → IsStore c now s
    → IsStore c now (insert key b s)
insert-IsStore {c} {now} {s} key {b} k v = record {
  unique = insert-HasUniqueKeys key b s v.unique;
  kept = All-insert (λ e. IsKept c now e.1) key b s k v.kept;
}

get_or_create-IsStore :
    (c : RateLimitConfig) (now : ℕ) (key : Text) (s : Store)
    → IsStore c now s
    → IsStore c now (get_or_create c now key s).1 × IsKept c now (get_or_create c now key s).0
unfolding get_or_create
get_or_create-IsStore c now key s v = elim (Option-cases (lookup key s)) [
  | inl missing ↦
      rw (missing, get_or_create)
        (insert-IsStore key (new_bucket-IsKept c now) v, new_bucket-IsKept c now)
  | inr (b, found) ↦
      rw (found, get_or_create) (v, All-lookup (λ e. IsKept c now e.1) key b s found v.kept)
]

pub current-IsKept :
    (c : RateLimitConfig) (now : ℕ) (key : Text) (s : Store)
    → IsStore c now s
    → IsKept c now (current c now key s)
current-IsKept c now key s v = elim (Option-cases (lookup key s)) [
  | inl missing ↦ rw missing (new_bucket-IsKept c now)
  | inr (b, found) ↦ rw found (All-lookup (λ e. IsKept c now e.1) key b s found v.kept)
]

pub rate_limit-Kept :
    (c : RateLimitConfig) (before now : ℕ) (ip : Text) (s : Store)
    → before ≤ now
    → IsStore c before s
    → IsStore c now (rate_limit c now ip s).1
unfolding rate_limit
rate_limit-Kept c before now ip s h v =
    let (made, own) = get_or_create-IsStore c now (key_of c ip) s (IsStore-later h v) in
    elim (Bool-cases c.enabled) [
      | inl on ↦ simp on (insert-IsStore (key_of c ip) (allow-IsKept c now now _ own) made)
      | inr off ↦ simp off (IsStore-later h v)
    ]

-- The client's bucket has the time of the request in both its stamps.
pub record IsStamped (now : ℕ) (key : Text) (s : Store) : Type 0 where
  pub bucket : TokenBucket
  pub found : lookup key s ≡ some bucket
  pub refilled : bucket.last_refill ≡ now
  pub accessed : bucket.last_access ≡ now

allow-stamped :
    (now : ℕ) (b : TokenBucket)
    → ((allow now b).bucket.last_refill ≡ now) × ((allow now b).bucket.last_access ≡ now)
unfolding allow
allow-stamped now b = ground arith

-- Every request keeps the map a map, with each bucket within its burst, at the configured rate and burst
-- and stamped no later than now; if the limiter is on, the client's own bucket is then stamped with the
-- time of this request.
pub rate_limit-IsStore :
    (c : RateLimitConfig) (before now : ℕ) (ip : Text) (s : Store)
    → before ≤ now
    → IsStore c before s
    → IsStore c now (rate_limit c now ip s).1
      × ((c.enabled ≡ false) ⊎ IsStamped now (key_of c ip) (rate_limit c now ip s).1)
rate_limit-IsStore c before now ip s h v = (
  rate_limit-Kept c before now ip s h v,
  elim (rate_limit_lem c now ip s) [
    | inr (off, same) ↦ inl off
    | inl (on, d) ↦ inr (record {
      bucket = (allow now d.bucket).bucket;
      found = d.kept;
      refilled = (allow-stamped now d.bucket).0;
      accessed = (allow-stamped now d.bucket).1;
    })
  ],
)
