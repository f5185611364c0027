-- ===== src/Redis/Laws.antt =====
-- The laws of one key of Redis for the key itself and for another.
use weiyeston.Base.{
  ℕ, ◌+◌, true, false, none, some, Text, text_eq, ◌==◌, leb, ◌≡◌, ◌≢◌, refl, ap, ◌∙◌, arith,
  text_beq_iff, ◌≤◌, if◌then◌else◌,
}
use weiyeston.Redis.{Redis, Entry, at_time, value_of}

abbrev pub entry : Text → ℕ → Entry
entry value end = record { value = value; expire_at = some end }

module _ {C : Type 0} (redis : Redis C) where
  pub peek-set_same :
      (now : ℕ) (key value : Text) (ttl : ℕ) (c : C)
      → redis.peek key (redis.set now key value ttl c) ≡ some (entry value (now + ttl))
  peek-set_same now key value ttl c =
      redis.peek-set now key value ttl key c
      ∙ ap (λ b. if b then some (entry value (now + ttl)) else redis.peek key c)
          ((text_beq_iff key key).1 refl)

  pub peek-set_apart :
      (now : ℕ) (key value : Text) (ttl : ℕ) (held : Text) (c : C)
      → key ≢ held
      → redis.peek held (redis.set now key value ttl c) ≡ redis.peek held c
  peek-set_apart now key value ttl held c n =
      let differs : (key == held) ≡ false = ground (arith, n, text_beq_iff key held) in
      redis.peek-set now key value ttl held c
      ∙ ap (λ b. if b then some (entry value (now + ttl)) else redis.peek held c) differs

  pub peek-del_same : (key : Text) (c : C) → redis.peek key (redis.del key c) ≡ none
  peek-del_same key c =
      redis.peek-del key key c
      ∙ ap (λ b. if b then none else redis.peek key c) ((text_beq_iff key key).1 refl)

  -- GET gives a value until its time.
  pub get_held :
      (now : ℕ) (key value : Text) (end : ℕ) (c : C)
      → redis.peek key c ≡ some (entry value end)
      → now ≤ end
      → redis.get now key c ≡ some value
  get_held now key value end c h l =
      let alive : leb now end ≡ true = ground arith in
      redis.get_lem now key c
      ∙ ap (λ e. value_of (at_time now e)) h
      ∙ ap (λ b. value_of (if b then some (entry value end) else none)) alive

  pub get_missing :
      (now : ℕ) (key : Text) (c : C) → redis.peek key c ≡ none → redis.get now key c ≡ none
  get_missing now key c h = redis.get_lem now key c ∙ ap (λ e. value_of (at_time now e)) h
