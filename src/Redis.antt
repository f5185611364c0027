-- ===== src/Redis.antt =====
-- The server of Redis as the source uses it through go-redis: GET, SET with an expiration, DEL, INCR
-- and EXPIRE. It is a parameter, with what the documentation of these commands says of one key and
-- that a command leaves the other keys alone. Times are in nanoseconds.
pub mod Hoare
pub mod Laws
pub mod Memory
use weiyeston.Base.{
  ℕ, suc, ◌+◌, Bool, Option, none, some, ℤ, pos, Text, text_eq, ◌==◌, if◌then◌else◌, leb, ◌≡◌, ◌≢◌,
  ◌<◌, ◌≤◌, ◌^◌,
}
use weiyeston.Http.{Env, World, Run, next}
use weiyeston.Strconv.{format_int}

pub record Entry : Type 0 where
  pub value : Text
  pub expire_at : Option ℕ

-- A key is there until its time is past.
abbrev pub at_time : ℕ → Option Entry → Option Entry
at_time now none = none
at_time now (some e) = elim e.expire_at [
  | none ↦ some e
  | some end ↦ if leb now end then some e else none
]

abbrev pub value_of : Option Entry → Option Text
value_of none = none
value_of (some e) = some e.value

pub record Redis (C : Type 0) : Type 0 where
  pub peek : Text → C → Option Entry
  pub get : ℕ → Text → C → Option Text
  pub set : (now : ℕ) (key value : Text) (ttl : ℕ) → C → C
  pub del : Text → C → C
  pub incr : ℕ → Text → C → Option (ℤ × C)
  pub expire : (now : ℕ) → Text → (ttl : ℕ) → C → C
  pub get_lem : (now : ℕ) (key : Text) (c : C) → get now key c ≡ value_of (at_time now (peek key c))
  pub peek-set :
      (now : ℕ) (key value : Text) (ttl : ℕ) (held : Text) (c : C)
      → peek held (set now key value ttl c) ≡ (
          if key == held
          then some (record { value = value; expire_at = some (now + ttl) })
          else peek held c)
  pub peek-del :
      (key held : Text) (c : C)
      → peek held (del key c) ≡ (if key == held then none else peek held c)
  -- INCR counts from 0 where there is no key, and keeps the key's expiration.
  pub incr_fresh :
      (now : ℕ) (key : Text) (c : C)
      → at_time now (peek key c) ≡ none
      → (c' : C) × (incr now key c ≡ some (pos 1, c'))
        × (peek key c' ≡ some (record { value = format_int (pos 1); expire_at = none }))
  pub incr_held :
      (now : ℕ) (key : Text) (c : C) (n : ℕ) (end : Option ℕ)
      → at_time now (peek key c) ≡ some (record { value = format_int (pos n); expire_at = end })
      → suc n < 2 ^ 63
      → (c' : C) × (incr now key c ≡ some (pos (suc n), c'))
        × (peek key c' ≡ some (record { value = format_int (pos (suc n)); expire_at = end }))
  -- A counter stays a signed integer of 64 bits.
  pub incr_full :
      (now : ℕ) (key : Text) (c : C) (n : ℕ) (end : Option ℕ)
      → at_time now (peek key c) ≡ some (record { value = format_int (pos n); expire_at = end })
      → n < 2 ^ 63
      → 2 ^ 63 ≤ suc n
      → incr now key c ≡ none
  pub incr_frame :
      (now : ℕ) (key held : Text) (c c' : C) (n : ℤ)
      → incr now key c ≡ some (n, c')
      → key ≢ held
      → peek held c' ≡ peek held c
  pub expire_held :
      (now : ℕ) (key : Text) (ttl : ℕ) (c : C) (e : Entry)
      → at_time now (peek key c) ≡ some e
      → peek key (expire now key ttl c)
        ≡ some (record { value = e.value; expire_at = some (now + ttl) })
  pub expire_frame :
      (now : ℕ) (key held : Text) (ttl : ℕ) (c : C)
      → key ≢ held
      → peek held (expire now key ttl c) ≡ peek held c

module _ {T C D A : Type 0} where
  -- A command counts as a statement of the server: it may fail in the driver, and an error of Redis
  -- is `none` too.
  abbrev pub receive : World T C → Option (A × C) → Run (World T C) D (Option A)
  receive w none = next none (record w { sent = suc w.sent })
  receive w (some (a, c)) = next (some a) (record w { store = c; sent = suc w.sent })

  abbrev pub command : Env → (C → Option (A × C)) → World T C → Run (World T C) D (Option A)
  command env q w =
      if env.fails w.sent then next none (record w { sent = suc w.sent }) else receive w (q w.store)
