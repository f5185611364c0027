-- ===== src/Auth/Toy.antt =====
-- Concrete services for internal/service/auth.go: hashes that are the passwords themselves, and tokens
-- that spell out their claims before the key.
use weiyeston.Base.{
  ℕ, zero, suc, ◌*◌, ◌^◌, ◌<◌, Bool, true, false, Option, none, some, [], ◌∷◌, ◌++◌, ℤ, pos, negsuc,
  Text, text_eq, ◌==◌, ltb, length, take, drop, ◌≡◌, ◌≢◌, refl, sym, ap, ap₂, ◌∙◌, arith,
  if◌then◌else◌, text_beq_iff,
}
use weiyeston.Middleware.{float64, text}
use weiyeston.Middleware.Auth.{Claims, Parsed, expired, failed, token, Jwt, hs256}
use weiyeston.Redis.Memory.{memory, Entries}
use weiyeston.Config.{JwtConfig}
use weiyeston.Auth.{Bcrypt, AccessClaims, decoded, Tokens, Services}

abbrev pub toy_bcrypt : Bcrypt
toy_bcrypt = record {
  generate = λ salt password. some password;
  compare = λ hash password. hash == password;
  compare-generate = λ salt password hash h.
      (text_beq_iff hash password).1 (ap (λ o. elim o [ none ↦ [] | some p ↦ p ]) (sym h));
}

abbrev pub spell : ℤ → Text → Text
spell (pos n) rest = 0 ∷ n ∷ rest
spell (negsuc n) rest = 1 ∷ n ∷ rest

abbrev pub toy_sign : Text → AccessClaims → Text
toy_sign key c = spell c.sub (spell c.tenant_id (c.exp ∷ length c.role ∷ (c.role ++ key)))

-- The number that a text begins with, and the rest.
abbrev pub read : Text → ℤ × Text
read (zero ∷ n ∷ rest) = (pos n, rest)
read (suc k ∷ n ∷ rest) = (negsuc n, rest)
read _ = (pos 0, [])

abbrev pub claims_of : ℤ → ℤ → Text → Claims
claims_of sub tenant_id role = record {
  sub = some (float64 sub);
  tenant_id = some (float64 tenant_id);
  role = some (text role);
}

abbrev pub role_part : Text → Text
role_part (exp ∷ n ∷ rest) = take n rest
role_part _ = []

abbrev pub key_part : Text → Text
key_part (exp ∷ n ∷ rest) = drop n rest
key_part _ = []

abbrev pub exp_part : Text → ℕ
exp_part (exp ∷ rest) = exp
exp_part [] = 0

abbrev pub toy_claims : Text → Claims
toy_claims raw = claims_of (read raw).0 (read (read raw).1).0 (role_part (read (read raw).1).1)

abbrev pub toy_signed : Text → Text → Bool
toy_signed key raw = key_part (read (read raw).1).1 == key

abbrev pub toy_parsed : ℕ → Text → Bool → Parsed
toy_parsed now raw false = failed
toy_parsed now raw true =
    if ltb now (exp_part (read (read raw).1).1 * 10 ^ 9)
    then token true (some (toy_claims raw))
    else expired

abbrev pub toy_check : ℕ → Text → Option Text → Parsed
toy_check now raw none = failed
toy_check now raw (some key) = toy_parsed now raw (toy_signed key raw)

pub toy_check-verifies :
    (now : ℕ) (raw : Text) (found : Option Text) (valid : Bool) (claims : Option Claims)
    → toy_check now raw found ≡ token valid claims
    → (key : Text) × (found ≡ some key) × (toy_signed key raw ≡ true)
toy_check-verifies now raw none valid claims h = cc
toy_check-verifies now raw (some key) valid claims h = (key, refl, go (toy_signed key raw) h)
  where
    go : (b : Bool) → toy_parsed now raw b ≡ token valid claims → b ≡ true
    go true h = refl
    go false h = cc

pub take-length : (s t : Text) → take (length s) (s ++ t) ≡ s
take-length [] t = refl
take-length (c ∷ s) t = ap (λ s. c ∷ s) (take-length s t)

pub drop-length : (s t : Text) → drop (length s) (s ++ t) ≡ t
drop-length [] t = refl
drop-length (c ∷ s) t = drop-length s t

pub read-spell : (z : ℤ) (rest : Text) → read (spell z rest) ≡ (z, rest)
read-spell (pos n) rest = refl
read-spell (negsuc n) rest = refl

module _ (key : Text) (c : AccessClaims) where
  abbrev pub tail : Text
  tail = c.exp ∷ length c.role ∷ (c.role ++ key)

  pub toy_tail : (read (read (toy_sign key c)).1).1 ≡ tail
  toy_tail =
      ap (λ p. (read p.1).1) (read-spell c.sub (spell c.tenant_id tail))
      ∙ ap (λ p. p.1) (read-spell c.tenant_id tail)

  pub toy_signed-sign : toy_signed key (toy_sign key c) ≡ true
  toy_signed-sign =
      ap (λ t. key_part t == key) toy_tail
      ∙ (text_beq_iff (drop (length c.role) (c.role ++ key)) key).1 (drop-length c.role key)

  pub toy_claims-sign : toy_claims (toy_sign key c) ≡ decoded c
  toy_claims-sign =
      ap₂ (λ sub rest. claims_of sub (read rest).0 (role_part (read rest).1))
        (ap (λ p. p.0) (read-spell c.sub (spell c.tenant_id tail)))
        (ap (λ p. p.1) (read-spell c.sub (spell c.tenant_id tail)))
      ∙ ap (λ p. claims_of c.sub p.0 (role_part p.1)) (read-spell c.tenant_id tail)
      ∙ ap (claims_of c.sub c.tenant_id) (take-length c.role key)

  pub toy_parsed-sign :
      (now : ℕ)
      → now < c.exp * 10 ^ 9
      → toy_check now (toy_sign key c) (some key) ≡ token true (some (decoded c))
  toy_parsed-sign now l =
      let early : ltb now (c.exp * 10 ^ 9) ≡ true = ground (arith, l) in
      ap (toy_parsed now (toy_sign key c)) toy_signed-sign
      ∙ ap
          (λ t.
            if ltb now (exp_part t * 10 ^ 9)
            then token true (some (toy_claims (toy_sign key c)))
            else expired)
          toy_tail
      ∙ ap (λ b. if b then token true (some (toy_claims (toy_sign key c))) else expired) early
      ∙ ap (λ x. token true (some x)) toy_claims-sign

abbrev pub toy_jwt : ℕ → Jwt
toy_jwt now = record {
  alg = λ raw. hs256;
  is_signed = toy_signed;
  parse = λ key_of raw. toy_check now raw (key_of hs256);
  parse_verifies =
      λ key_of raw valid claims h. toy_check-verifies now raw (key_of hs256) valid claims h;
}

pub spell-ne-nil : (z : ℤ) (rest : Text) → spell z rest ≢ []
spell-ne-nil (pos n) rest h = cc
spell-ne-nil (negsuc n) rest h = cc

abbrev pub raw_of : Option Text → Text
raw_of none = []
raw_of (some raw) = raw

abbrev pub toy_tokens : Tokens
toy_tokens = record {
  sign = λ key c. some (toy_sign key c);
  at = toy_jwt;
  unverified_sub = λ raw. some (float64 (read raw).0);
  sign_nonempty = λ key c raw h e. spell-ne-nil c.sub _ (ap raw_of h ∙ e);
  parse-sign = λ now key c raw key_of h k exact exact' l.
      ap (λ raw. toy_check now raw (key_of hs256)) (sym (ap raw_of h))
      ∙ ap (toy_check now (toy_sign key c)) k
      ∙ toy_parsed-sign key c now l;
  unverified-sign = λ key c raw h exact.
      ap (λ raw. some (float64 (read raw).0)) (sym (ap raw_of h))
      ∙ ap (λ p. some (float64 p.0)) (read-spell c.sub _);
}

abbrev pub toy_config : JwtConfig
toy_config = record {
  secret = 115 ∷ [];
  expiration = pos (2 * 3600 * 10 ^ 9);
  access_expiration = pos 0;
  refresh_expiration = pos 0;
  issuer = [];
}

abbrev pub toy : Services Entries
toy = record { redis = memory; bcrypt = toy_bcrypt; tokens = toy_tokens; jwt = toy_config }
