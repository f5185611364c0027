-- ===== src/Http/Keeps.antt =====
-- Invariants of the state and of the tables under handlers, for proofs that follow a handler's text.
use weiyeston.Base.{suc, Option, none, some, Bool, true, false, if◌then◌else◌}
use weiyeston.Http.{
  Run, next, stop, ◌>>=◌, ◌>>◌, Response, or_fail, ignore, or_respond, require, reject, or_invalid,
  Bound, invalid, bound, pure, respond, Env, World, statement, after, settle,
}

abbrev pub Keeps : {S D A : Type 0} → (S → Type 0) → (S → Run S D A) → Type 0
Keeps {S = S} I m = (s : S) → I s → I (after (m s))

pub Keeps-respond :
    {S D : Type 0}
    → (A : Type 0) (I : S → Type 0) (r : Response D) → Keeps I (λ (s : S). respond {A = A} r s)
Keeps-respond A I r s h = h

pub Keeps-pure :
    {S A : Type 0} → (D : Type 0) (I : S → Type 0) (a : A) → Keeps I (λ (s : S). pure {D = D} a s)
Keeps-pure D I a s h = h

module _ {S D A : Type 0} where
  pub Keeps-or_respond : (I : S → Type 0) (o : Option A) (r : Response D) → Keeps I (or_respond o r)
  Keeps-or_respond I none r s h = h
  Keeps-or_respond I (some a) r s h = h

  pub Keeps-or_invalid : (I : S → Type 0) (b : Bound A) (r : Response D) → Keeps I (or_invalid b r)
  Keeps-or_invalid I invalid r s h = h
  Keeps-or_invalid I (bound a) r s h = h

  pub Keeps-or_fail :
      (I : S → Type 0) (m : S → Run S D (Option A)) (r : Response D)
      → Keeps I m
      → Keeps I (or_fail m r)
  Keeps-or_fail I m r k s h = go (m s) (k s h)
    where
      go : (x : Run S D (Option A)) → I (after x) → I (after (or_fail (λ (s : S). x) r s))
      go (next none t) h = h
      go (next (some a) t) h = h
      go (stop q t) h = h

  pub Keeps-ignore : (I : S → Type 0) (m : S → Run S D A) → Keeps I m → Keeps I (ignore m)
  Keeps-ignore I m k s h = go (m s) (k s h)
    where
      go : (x : Run S D A) → I (after x) → I (after (ignore (λ (s : S). x) s))
      go (next a t) h = h
      go (stop q t) h = h

module _ {S D : Type 0} where
  pub Keeps-require : (I : S → Type 0) (b : Bool) (r : Response D) → Keeps I (require b r)
  Keeps-require I true r s h = h
  Keeps-require I false r s h = h

  pub Keeps-reject : (I : S → Type 0) (b : Bool) (r : Response D) → Keeps I (reject b r)
  Keeps-reject I true r s h = h
  Keeps-reject I false r s h = h

module _ {S D A B : Type 0} where
  pub Keeps->>= :
      (I : S → Type 0) (m : S → Run S D A) (f : A → S → Run S D B)
      → Keeps I m
      → ((a : A) → Keeps I (f a))
      → Keeps I (m >>= f)
  Keeps->>= I m f k l s h = go (m s) (k s h)
    where
      go : (x : Run S D A) → I (after x) → I (after ((◌>>=◌ (λ (s : S). x) f) s))
      go (next a t) h = l a t h
      go (stop q t) h = h

  pub Keeps->> :
      (I : S → Type 0) (m : S → Run S D A) (f : S → Run S D B)
      → Keeps I m
      → Keeps I f
      → Keeps I (m >> f)
  Keeps->> I m f k l s h = go (m s) (k s h)
    where
      go : (x : Run S D A) → I (after x) → I (after ((◌>>◌ (λ (s : S). x) f) s))
      go (next a t) h = l t h
      go (stop q t) h = h

-- The invariant is of the tables, and a statement that is not refused keeps it.
abbrev pub On : {T C : Type 0} → (T → Type 0) → World T C → Type 0
On J w = J w.tables

abbrev pub Kept : {T A : Type 0} → (T → Type 0) → Option (A × T) → Type 0
Kept J none = Unit
Kept J (some (a, u)) = J u

abbrev pub Preserves : {T A : Type 0} → (T → Type 0) → (T → Option (A × T)) → Type 0
Preserves {T = T} J q = (t : T) → J t → Kept J (q t)

pub Kept-both :
    {T A : Type 0}
    → (J K : T → Type 0) (o : Option (A × T)) → Kept J o
    → Kept K o
    → Kept (λ t. J t × K t) o
Kept-both J K none h k = tt
Kept-both J K (some (a, u)) h k = (h, k)

pub Kept-if :
    {T A : Type 0}
    → (J : T → Type 0) (b : Bool) (o : Option (A × T)) → Kept J o
    → Kept J (if b then o else none)
Kept-if J true o h = h
Kept-if J false o h = tt

module _ {T C A : Type 0} (D : Type 0) (J : T → Type 0) where
  settle-On :
      (w : World T C) (o : Option (A × T))
      → J w.tables
      → Kept J o
      → On J (after (settle {D = D} w o))
  settle-On w none h k = h
  settle-On w (some (a, u)) h k = k

  -- A statement that its own refusal and its success both bring to `J`.
  pub statement-On :
      (env : Env) (q : T → Option (A × T)) (w : World T C)
      → J w.tables
      → Kept J (q w.tables)
      → On J (after (statement {D = D} env q w))
  statement-On env q w h k = go (env.fails w.sent)
    where
      go :
          (b : Bool)
          → On J (
              after {D = D} {A = Option A}
                (if b then next none (record w { sent = suc w.sent }) else settle w (q w.tables)))
      go true = h
      go false = settle-On w (q w.tables) h k

  pub Keeps-statement :
      (env : Env) (q : T → Option (A × T))
      → Preserves J q
      → Keeps {D = D} (On {C = C} J) (statement env q)
  Keeps-statement env q p w h = statement-On env q w h (p w.tables h)

module _ {S D A B : Type 0} where
  -- A step that leads from one condition to another, whatever it answers.
  pub after->>= :
      (J K : S → Type 0) (m : S → Run S D A) (f : A → S → Run S D B) (s : S)
      → J (after (m s))
      → ((t : S) → J t → K t)
      → ((a : A) (t : S) → J t → K (after (f a t)))
      → K (after ((m >>= f) s))
  after->>= J K m f s h w k = go (m s) h
    where
      go : (x : Run S D A) → J (after x) → K (after ((◌>>=◌ (λ (s : S). x) f) s))
      go (next a t) h = k a t h
      go (stop q t) h = w t h
