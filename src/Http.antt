-- ===== src/Http.antt =====
-- How a gin handler runs: c.JSON with a return, c.Next, and the statements that it sends to
-- PostgreSQL. A handler threads its world through a `do` block and stops at its first response.
--
-- A statement may fail in the database (a constraint) or in the driver (the connection); both reach
-- the program as `err != nil` and change nothing. Which of the statements that a server sends fail in
-- the driver, and the time of the request, are the environment's.
pub mod Inversion
pub mod Hoare
pub mod Keeps
pub mod Forward
use weiyeston.Base.{
  ℕ, suc, String, Bool, Option, none, some, ◌≡◌, refl, ◌⊎◌, inl, inr, arith, if◌then◌else◌,
}

-- `payload` is the "data" field of the body.
pub record Response (D : Type 0) : Type 0 where
  pub status : ℕ
  pub code : ℕ
  pub msg : String
  pub payload : Option D

pub data Run (S : Type 0) (D : Type 0) (A : Type 0) : Type 0 where
  next : A → S → Run S D A
  stop : Response D → S → Run S D A

abbrev pub M : Type 0 → Type 0 → Type 0 → Type 0
M S D A = S → Run S D A

infixl 5 ◌>>=◌ ◌>>◌
abbrev pub ◌>>=◌ : {S D A B : Type 0} → (S → Run S D A) → (A → S → Run S D B) → S → Run S D B
◌>>=◌ m f s = elim (m s) [ next a t ↦ f a t | stop r t ↦ stop r t ]

abbrev pub ◌>>◌ : {S D A B : Type 0} → (S → Run S D A) → (S → Run S D B) → S → Run S D B
◌>>◌ m f s = elim (m s) [ next a t ↦ f t | stop r t ↦ stop r t ]

module _ {S D A : Type 0} where
  -- c.JSON(…); return.
  abbrev pub respond : Response D → S → Run S D A
  respond r s = stop r s

  -- The value, or a response where there is none.
  abbrev pub or_respond : Option A → Response D → S → Run S D A
  or_respond none r s = stop r s
  or_respond (some a) r s = next a s

  abbrev pub pure : A → S → Run S D A
  pure a s = next a s

abbrev pub require : {S D : Type 0} → Bool → Response D → S → Run S D (Unit {0})
require b r s = if b then next tt s else stop r s

abbrev pub reject : {S D : Type 0} → Bool → Response D → S → Run S D (Unit {0})
reject b r s = if b then stop r s else next tt s

module _ {D : Type 0} where
  abbrev pub failure : ℕ → ℕ → String → Response D
  failure status code msg = record { status = status; code = code; msg = msg; payload = none }

  abbrev pub success : ℕ → String → Option D → Response D
  success status msg payload = record { status = status; code = 0; msg = msg; payload = payload }

-- What a request body or query binds to under ShouldBindJSON or ShouldBindQuery. The text of an error
-- that a message quotes is left out of the message.
pub data Bound (A : Type 0) : Type 0 where
  invalid : Bound A
  bound : A → Bound A

module _ {S D A : Type 0} where
  abbrev pub or_invalid : Bound A → Response D → S → Run S D A
  or_invalid invalid r s = stop r s
  or_invalid (bound a) r s = next a s

  -- A query's result where the source stops at its error.
  abbrev pub or_fail : (S → Run S D (Option A)) → Response D → S → Run S D A
  or_fail m r s = elim (m s) [
    | next none t ↦ stop r t
    | next (some a) t ↦ next a t
    | stop q t ↦ stop q t
  ]

  -- A query whose error the source drops.
  abbrev pub ignore : (S → Run S D A) → S → Run S D (Unit {0})
  ignore m s = elim (m s) [ next a t ↦ next tt t | stop q t ↦ stop q t ]

pub record Env : Type 0 where
  pub now : ℕ
  pub fails : ℕ → Bool

-- The rows of the tables, the number of statements sent so far, and the store of Redis.
pub record World (T : Type 0) (C : Type 0) : Type 0 where
  pub tables : T
  pub sent : ℕ
  pub store : C

module _ {T C D A : Type 0} where
  abbrev pub settle : World T C → Option (A × T) → Run (World T C) D (Option A)
  settle w none = next none (record w { sent = suc w.sent })
  settle w (some (a, t)) = next (some a) (record w { tables = t; sent = suc w.sent })

  -- A statement's outcome is `none` where the driver returns an error.
  abbrev pub statement : Env → (T → Option (A × T)) → World T C → Run (World T C) D (Option A)
  statement env q w =
      if env.fails w.sent then next none (record w { sent = suc w.sent }) else settle w (q w.tables)

module _ {S D A : Type 0} where
  -- The state in which a handler leaves the server, whatever it answers.
  abbrev pub after : Run S D A → S
  after (next a s) = s
  after (stop r s) = s

  abbrev pub answer : Run S D A → Option (Response D)
  answer (next a s) = none
  answer (stop r s) = some r

  abbrev pub status_of : Run S D A → Option ℕ
  status_of (next a s) = none
  status_of (stop r s) = some r.status
