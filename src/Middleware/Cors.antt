-- ===== src/Middleware/Cors.antt =====
-- internal/middleware/cors.go. The context here is the list of the response headers, in the order in
-- which they are set.
use mathlib.Core.List.{append-nil}
use weiyeston.Base.{
  ap, ap₂, ◌∙◌, ◌≡◌, ◌↔◌, refl, Bool, true, false, ◌||◌, none, some, List, [], ◌∷◌, ◌++◌, Text,
  text_eq, ◌==◌, arith, if◌then◌else◌, ◌⊎◌, text_beq_iff, codes, String, string_eq, ◌≢◌,
}
use weiyeston.Http.{Run, next, stop, failure, Response, answer}

pub record CorsConfig : Type 0 where
  pub allowed_origins : List Text
  pub allowed_methods : List Text
  pub allowed_headers : List Text

abbrev pub Headers : Type 0
Headers = List (String × Text)

-- strings.Join with ", ".
unfoldable pub join : List Text → Text
join [] = []
join (s ∷ []) = s
join (s ∷ t ∷ r) = s ++ (codes ", " ++ join (t ∷ r))

-- The loop over the allowed origins.
unfoldable pub is_allowed : List Text → Text → Bool
is_allowed [] origin = false
is_allowed (o ∷ os) origin = o == codes "*" || o == origin || is_allowed os origin

abbrev pub no_content : Response (Unit {0})
no_content = failure 204 0 ""

-- gin sets no header to the empty text.
abbrev listed_header : String → List Text → Headers
listed_header name [] = []
listed_header name (v ∷ vs) = if join (v ∷ vs) == [] then [] else (name, join (v ∷ vs)) ∷ []

abbrev origin_headers : Bool → Text → Headers
origin_headers true origin =
    ("Access-Control-Allow-Origin", origin)
    ∷ ("Access-Control-Allow-Credentials", codes "true")
    ∷ []
origin_headers false origin = []

-- The headers that a cross-origin request gets before the preflight is told apart.
unfoldable pub cors_headers : CorsConfig → Text → Headers
cors_headers c origin =
    origin_headers (is_allowed c.allowed_origins origin) origin
    ++ (listed_header "Access-Control-Allow-Methods" c.allowed_methods
        ++ (listed_header "Access-Control-Allow-Headers" c.allowed_headers
            ++ ("Access-Control-Expose-Headers", codes "Content-Length, Content-Type") ∷ []))

unfoldable pub cors :
    CorsConfig → (origin method : Text) → Headers → Run Headers (Unit {0}) (Unit {0})
cors c origin method h =
    if origin == []
    then next tt h
    else if method == codes "OPTIONS"
    then stop no_content
        (h ++ (cors_headers c origin ++ ("Access-Control-Max-Age", codes "86400") ∷ []))
    else next tt (h ++ cors_headers c origin)

-- The values under which a header was set.
abbrev pub values_of : String → Headers → List Text
values_of name [] = []
values_of name ((n, v) ∷ h) = let rest = values_of name h in if n == name then v ∷ rest else rest

values_of-append :
    (name : String) (h k : Headers) → values_of name (h ++ k) ≡ values_of name h ++ values_of name k
values_of-append name [] k = refl
values_of-append name ((n, v) ∷ h) k = ground (arith, values_of-append name h k)

abbrev pub headers_of : Run Headers (Unit {0}) (Unit {0}) → Headers
headers_of (next a h) = h
headers_of (stop r h) = h

abbrev pub IsListed : List Text → Text → Type 0
IsListed [] origin = ⊥
IsListed (o ∷ os) origin = (o ≡ codes "*") ⊎ (o ≡ origin) ⊎ IsListed os origin

is_allowed_iff :
    (os : List Text) (origin : Text) → (is_allowed os origin ≡ true) ↔ IsListed os origin
unfolding is_allowed
is_allowed_iff [] origin = ground arith
is_allowed_iff (o ∷ os) origin =
    ground (arith, text_beq_iff o (codes "*"), text_beq_iff o origin, is_allowed_iff os origin)

values_of-listed_header :
    (name header : String) (vs : List Text)
    → (header == name) ≡ false
    → values_of name (listed_header header vs) ≡ []
values_of-listed_header name header [] e = refl
values_of-listed_header name header (v ∷ vs) e = ground (arith, e)

abbrev pub allow_origin : String
allow_origin = "Access-Control-Allow-Origin"

abbrev pub allow_credentials : String
allow_credentials = "Access-Control-Allow-Credentials"

-- What a browser reads of the headers of an origin that is allowed, and of one that is not.
abbrev pub AreFor : Bool → Text → Headers → Type 0
AreFor allowed origin h =
    (values_of allow_origin h ≡ (if allowed then origin ∷ [] else []))
    × (values_of allow_credentials h ≡ (if allowed then codes "true" ∷ [] else []))

values_of-cors_headers :
    (name : String) (c : CorsConfig) (origin : Text)
    → ("Access-Control-Allow-Methods" == name) ≡ false
    → ("Access-Control-Allow-Headers" == name) ≡ false
    → ("Access-Control-Expose-Headers" == name) ≡ false
    → values_of name (cors_headers c origin)
      ≡ values_of name (origin_headers (is_allowed c.allowed_origins origin) origin)
unfolding cors_headers
values_of-cors_headers name c origin methods headers expose =
    let own = origin_headers (is_allowed c.allowed_origins origin) origin in
    let listed = listed_header "Access-Control-Allow-Methods" c.allowed_methods in
    let listed' = listed_header "Access-Control-Allow-Headers" c.allowed_headers in
    let last : Headers =
      ("Access-Control-Expose-Headers", codes "Content-Length, Content-Type") ∷ [] in
    let rest : values_of name (listed ++ (listed' ++ last)) ≡ [] =
      values_of-append name listed (listed' ++ last)
      ∙ ap₂ (λ xs ys. xs ++ ys)
          (values_of-listed_header name "Access-Control-Allow-Methods" c.allowed_methods methods)
          (values_of-append name listed' last
            ∙ ap₂ (λ xs ys. xs ++ ys)
                (values_of-listed_header name "Access-Control-Allow-Headers" c.allowed_headers
                  headers)
                (ground (arith, expose))) in
    values_of-append name own (listed ++ (listed' ++ last))
    ∙ ap (λ xs. values_of name own ++ xs) rest
    ∙ append-nil (values_of name own)

origin_headers-AreFor : (b : Bool) (origin : Text) → AreFor b origin (origin_headers b origin)
origin_headers-AreFor true origin = (refl, refl)
origin_headers-AreFor false origin = (refl, refl)

cors_headers-AreFor :
    (c : CorsConfig) (origin : Text)
    → AreFor (is_allowed c.allowed_origins origin) origin (cors_headers c origin)
cors_headers-AreFor c origin =
    let own = origin_headers-AreFor (is_allowed c.allowed_origins origin) origin in
    (
      values_of-cors_headers allow_origin c origin refl refl refl ∙ own.0,
      values_of-cors_headers allow_credentials c origin refl refl refl ∙ own.1,
    )

values_of-max_age :
    (name : String) (h : Headers)
    → ("Access-Control-Max-Age" == name) ≡ false
    → values_of name (h ++ ("Access-Control-Max-Age", codes "86400") ∷ []) ≡ values_of name h
values_of-max_age name h e =
    values_of-append name h (("Access-Control-Max-Age", codes "86400") ∷ [])
    ∙ ap (λ xs. values_of name h ++ xs) (ground (arith, e))
    ∙ append-nil (values_of name h)

-- The response allows the origin, with credentials, under the origin's own name; or it allows no origin.
pub record IsAnswered (c : CorsConfig) (origin method : Text) : Type 0 where
  pub preflight : method ≡ codes "OPTIONS" → answer (cors c origin method []) ≡ some no_content
  pub request : method ≢ codes "OPTIONS" → answer (cors c origin method []) ≡ none
  pub allowed : Bool
  pub listed : (allowed ≡ true) ↔ IsListed c.allowed_origins origin
  pub headers : AreFor allowed origin (headers_of (cors c origin method []))

cors-AreFor :
    (c : CorsConfig) (origin method : Text)
    → origin ≢ []
    → AreFor (is_allowed c.allowed_origins origin) origin (headers_of (cors c origin method []))
unfolding cors
cors-AreFor c origin method h =
    let filled : (origin == []) ≡ false = ground (arith, h, text_beq_iff origin []) in
    rw filled (go (method == codes "OPTIONS"))
  where
    go :
        (b : Bool)
        → AreFor (is_allowed c.allowed_origins origin) origin (
            headers_of (
              if b
              then stop no_content
                  ([] ++ (cors_headers c origin ++ ("Access-Control-Max-Age", codes "86400") ∷ []))
              else next tt ([] ++ cors_headers c origin)))
    go false = cors_headers-AreFor c origin
    go true = (
      values_of-max_age allow_origin (cors_headers c origin) refl
          ∙ (cors_headers-AreFor c origin).0,
      values_of-max_age allow_credentials (cors_headers c origin) refl
          ∙ (cors_headers-AreFor c origin).1,
    )

-- A cross-origin request is answered by the middleware itself, with 204, if it is a preflight, and goes
-- on otherwise. If the origin, or `*`, is configured, the response has one Access-Control-Allow-Origin,
-- which is the origin of the request, and one Access-Control-Allow-Credentials, which is `true`;
-- otherwise it has neither.
pub cors_lem : (c : CorsConfig) (origin method : Text) → origin ≢ [] → IsAnswered c origin method
unfolding cors
cors_lem c origin method h = record {
  preflight = λ m. ground (arith, text_beq_iff origin [], text_beq_iff method (codes "OPTIONS"));
  request = λ m. ground (arith, text_beq_iff origin [], text_beq_iff method (codes "OPTIONS"));
  allowed = is_allowed c.allowed_origins origin;
  listed = is_allowed_iff c.allowed_origins origin;
  headers = cors-AreFor c origin method h;
}
