-- ===== src/Redis/Memory.antt =====
-- A server of Redis in memory: the entries as an association list.
use weiyeston.Base.{
  ℕ, zero, suc, ◌+◌, ◌^◌, ◌<◌, ◌≤◌, ltb, negsuc, Bool, true, false, Option, none, some, List, ℤ,
  pos, Text, text_eq, ◌==◌, ◌≡◌, ◌≢◌, refl, sym, ap, ◌∙◌, arith, if◌then◌else◌, text_beq_iff,
  some_injective,
}
use weiyeston.Assoc.{lookup, insert, remove, lookup-insert, lookup-remove}
use weiyeston.Strconv.{format_int, parse_int}
use weiyeston.Strconv.RoundTrip.{parse_int-format_int}
use weiyeston.Redis.{Redis, Entry, at_time, value_of}

abbrev pub Entries : Type 0
Entries = List (Text × Entry)

abbrev pub next_int : ℤ → ℤ
next_int (pos n) = pos (suc n)
next_int (negsuc zero) = pos 0
next_int (negsuc (suc n)) = negsuc n

abbrev pub in_range : ℤ → Bool
in_range (pos n) = ltb n (2 ^ 63)
in_range (negsuc n) = true

abbrev pub counted : Text → Entries → Option ℕ → ℤ → ℤ × Entries
counted key c end v = (v, insert key (record { value = format_int v; expire_at = end }) c)

abbrev pub count_at : Text → Entries → Option ℕ → Option ℤ → Option (ℤ × Entries)
count_at key c end none = none
count_at key c end (some v) =
    if in_range (next_int v) then some (counted key c end (next_int v)) else none

abbrev pub count_entry : Text → Entries → Option Entry → Option (ℤ × Entries)
count_entry key c none =
    some (pos 1, insert key (record { value = format_int (pos 1); expire_at = none }) c)
count_entry key c (some e) = count_at key c e.expire_at (parse_int e.value)

abbrev pub renew_entry : Text → Entries → ℕ → Option Entry → Entries
renew_entry key c end none = c
renew_entry key c end (some e) = insert key (record { value = e.value; expire_at = some end }) c

pub lookup-insert_same :
    (key : Text) (e : Entry) (c : Entries) → lookup key (insert key e c) ≡ some e
lookup-insert_same key e c =
    lookup-insert key key e c
    ∙ ap (λ b. if b then some e else lookup key c) ((text_beq_iff key key).1 refl)

lookup-insert_apart :
    (key held : Text) (e : Entry) (c : Entries)
    → key ≢ held
    → lookup held (insert key e c) ≡ lookup held c
lookup-insert_apart key held e c n =
    let differs : (key == held) ≡ false = ground (arith, n, text_beq_iff key held) in
    lookup-insert key held e c ∙ ap (λ b. if b then some e else lookup held c) differs

module _ (key held : Text) (c c' : Entries) (n : ℤ) (apart : key ≢ held) where
  count_at-frame :
      (end : Option ℕ) (v : Option ℤ)
      → count_at key c end v ≡ some (n, c')
      → lookup held c' ≡ lookup held c
  count_at-frame end none h = cc
  count_at-frame end (some v) h = go (in_range (next_int v)) h
    where
      go :
          (b : Bool)
          → (if b then some (counted key c end (next_int v)) else none) ≡ some (n, c')
          → lookup held c' ≡ lookup held c
      go false h = cc
      go true h =
          ap (λ p. lookup held p.1) (sym (some_injective h))
          ∙ lookup-insert_apart key held _ c apart

  pub count_entry-frame :
      (e : Option Entry) → count_entry key c e ≡ some (n, c') → lookup held c' ≡ lookup held c
  count_entry-frame none h =
      ap (λ p. lookup held p.1) (sym (some_injective h)) ∙ lookup-insert_apart key held _ c apart
  count_entry-frame (some e) h = count_at-frame e.expire_at (parse_int e.value) h

module _ (key : Text) (c : Entries) (n : ℕ) (end : Option ℕ) where
  pub count_held :
      (e : Option Entry)
      → e ≡ some (record { value = format_int (pos n); expire_at = end })
      → n < 2 ^ 63
      → count_entry key c e ≡ count_at key c end (some (pos n))
  count_held e h l =
      ap (count_entry key c) h
      ∙ ap (count_at key c end) (parse_int-format_int (pos n) l (omega arith))

  pub count_more :
      suc n < 2 ^ 63 → count_at key c end (some (pos n)) ≡ some (counted key c end (pos (suc n)))
  count_more l =
      let small : ltb (suc n) (2 ^ 63) ≡ true = ground (arith, l) in
      ap (λ b. if b then some (counted key c end (pos (suc n))) else none) small

  pub count_full : 2 ^ 63 ≤ suc n → count_at key c end (some (pos n)) ≡ none
  count_full l =
      let full : ltb (suc n) (2 ^ 63) ≡ false = ground (arith, l) in
      ap (λ b. if b then some (counted key c end (pos (suc n))) else none) full

pub renew_entry-frame :
    (key held : Text) (c : Entries) (end : ℕ) (e : Option Entry)
    → key ≢ held
    → lookup held (renew_entry key c end e) ≡ lookup held c
renew_entry-frame key held c end none apart = refl
renew_entry-frame key held c end (some e) apart = lookup-insert_apart key held _ c apart

abbrev pub memory : Redis Entries
memory = record {
  peek = lookup;
  get = λ now key c. value_of (at_time now (lookup key c));
  set =
      λ now key value ttl c. insert key (record { value = value; expire_at = some (now + ttl) }) c;
  del = remove;
  incr = λ now key c. count_entry key c (at_time now (lookup key c));
  expire = λ now key ttl c. renew_entry key c (now + ttl) (at_time now (lookup key c));
  get_lem = λ now key c. refl;
  peek-set = λ now key value ttl held c. lookup-insert key held _ c;
  peek-del = λ key held c. lookup-remove key held c;
  incr_fresh = λ now key c h. (
    insert key (record { value = format_int (pos 1); expire_at = none }) c,
    ap (count_entry key c) h,
    lookup-insert_same key _ c,
  );
  incr_held = λ now key c n end h l. (
    insert key (record { value = format_int (pos (suc n)); expire_at = end }) c,
    count_held key c n end (at_time now (lookup key c)) h (omega (arith, l))
        ∙ count_more key c n end l,
    lookup-insert_same key _ c,
  );
  incr_full = λ now key c n end h l m.
      count_held key c n end (at_time now (lookup key c)) h l ∙ count_full key c n end m;
  incr_frame = λ now key held c c' n h apart.
      count_entry-frame key held c c' n apart (at_time now (lookup key c)) h;
  expire_held = λ now key ttl c e h.
      ap (λ o. lookup key (renew_entry key c (now + ttl) o)) h ∙ lookup-insert_same key _ c;
  expire_frame = λ now key held ttl c apart.
      renew_entry-frame key held c (now + ttl) (at_time now (lookup key c)) apart;
}
