-- ===== src/Http/Hoare.antt =====
-- Postconditions of a handler: one for going on, one for the response that ends it.
use weiyeston.Base.{suc, ◌≡◌, refl, inl, inr, Option, none, some, Bool, true, false, if◌then◌else◌}
use mathlib.Core.Path.{subst}
use weiyeston.Http.{
  Run, next, stop, ◌>>=◌, ◌>>◌, Response, or_fail, or_respond, require, reject, ignore, or_invalid,
  Bound, invalid, bound, World, Env, statement, settle,
}
use weiyeston.Http.Inversion.{Run-cases}

module _ {S D A : Type 0} where
  abbrev pub Ensures : (A → S → Type 0) → (Response D → S → Type 0) → Run S D A → Type 0
  Ensures N E (next a t) = N a t
  Ensures N E (stop r t) = E r t

  pub Ensures-next :
      (N : A → S → Type 0) (E : Response D → S → Type 0) (m : Run S D A) {a : A} {t : S}
      → Ensures N E m
      → m ≡ next a t
      → N a t
  Ensures-next N E m h e = subst (Ensures N E) e h

  pub Ensures-stop :
      (N : A → S → Type 0) (E : Response D → S → Type 0) (m : Run S D A) {r : Response D} {t : S}
      → Ensures N E m
      → m ≡ stop r t
      → E r t
  Ensures-stop N E m h e = subst (Ensures N E) e h

  pub Ensures-mono :
      (N N' : A → S → Type 0) (E E' : Response D → S → Type 0) (m : Run S D A)
      → ((a : A) (t : S) → N a t → N' a t)
      → ((r : Response D) (t : S) → E r t → E' r t)
      → Ensures N E m
      → Ensures N' E' m
  Ensures-mono N N' E E' (next a t) f g h = f a t h
  Ensures-mono N N' E E' (stop r t) f g h = g r t h

module _ {S D A B : Type 0} where
  -- A chain keeps the postcondition for the end if each part does.
  pub Ensures->>= :
      (N : A → S → Type 0) (N' : B → S → Type 0) (E : Response D → S → Type 0) (m : S → Run S D A)
      (f : A → S → Run S D B) (s : S)
      → Ensures N E (m s)
      → ((a : A) (t : S) → N a t → Ensures N' E (f a t))
      → Ensures N' E ((m >>= f) s)
  Ensures->>= N N' E m f s h k = elim (Run-cases (m s)) [
    | inl (a, t, e) ↦ rw (e, ◌>>=◌) (k a t (Ensures-next N E (m s) h e))
    | inr (r, t, e) ↦ rw (e, ◌>>=◌) (Ensures-stop N E (m s) h e)
  ]

  pub Ensures->> :
      (N : A → S → Type 0) (N' : B → S → Type 0) (E : Response D → S → Type 0) (m : S → Run S D A)
      (f : S → Run S D B) (s : S)
      → Ensures N E (m s)
      → ((a : A) (t : S) → N a t → Ensures N' E (f t))
      → Ensures N' E ((m >> f) s)
  Ensures->> N N' E m f s h k = elim (Run-cases (m s)) [
    | inl (a, t, e) ↦ rw (e, ◌>>◌) (k a t (Ensures-next N E (m s) h e))
    | inr (r, t, e) ↦ rw (e, ◌>>◌) (Ensures-stop N E (m s) h e)
  ]

module _ {S A : Type 0} where
  -- A query's postcondition: with its result, or with its error.
  abbrev pub OnValue : (A → S → Type 0) → (S → Type 0) → Option A → S → Type 0
  OnValue N F none t = F t
  OnValue N F (some a) t = N a t

module _ {S D A : Type 0} where
  -- A query whose error ends the handler.
  pub Ensures-or_fail :
      (N : A → S → Type 0) (E : Response D → S → Type 0) (m : S → Run S D (Option A))
      (r : Response D) (s : S)
      → Ensures (OnValue N (E r)) E (m s)
      → Ensures N E (or_fail m r s)
  Ensures-or_fail N E m r s h = go (m s) h
    where
      go :
          (x : Run S D (Option A))
          → Ensures (OnValue N (E r)) E x
          → Ensures N E
              (elim x [ next none t ↦ stop r t | next (some a) t ↦ next a t | stop q t ↦ stop q t ])
      go (next none t) h = h
      go (next (some a) t) h = h
      go (stop q t) h = h

  pub Ensures-or_respond :
      (N : A → S → Type 0) (E : Response D → S → Type 0) (o : Option A) (r : Response D) (s : S)
      → OnValue N (E r) o s
      → Ensures N E (or_respond o r s)
  Ensures-or_respond N E none r s h = h
  Ensures-or_respond N E (some a) r s h = h

module _ {S D : Type 0} where
  pub Ensures-require :
      (N : Unit {0} → S → Type 0) (E : Response D → S → Type 0) (b : Bool) (r : Response D) (s : S)
      → (b ≡ true → N tt s)
      → (b ≡ false → E r s)
      → Ensures N E (require b r s)
  Ensures-require N E true r s h k = h refl
  Ensures-require N E false r s h k = k refl

  pub Ensures-reject :
      (N : Unit {0} → S → Type 0) (E : Response D → S → Type 0) (b : Bool) (r : Response D) (s : S)
      → (b ≡ false → N tt s)
      → (b ≡ true → E r s)
      → Ensures N E (reject b r s)
  Ensures-reject N E true r s h k = k refl
  Ensures-reject N E false r s h k = h refl

module _ {T C D A : Type 0} where
  -- A statement that fails or is refused changes nothing but the number of statements.
  pub Ensures-statement :
      (N : Option A → World T C → Type 0) (E : Response D → World T C → Type 0) (env : Env)
      (q : T → Option (A × T)) (w : World T C)
      → N none (record w { sent = suc w.sent })
      → ((a : A) (u : T)
          → q w.tables ≡ some (a, u)
          → N (some a) (record w { tables = u; sent = suc w.sent }))
      → Ensures N E (statement env q w)
  Ensures-statement N E env q w h k = go (env.fails w.sent) (q w.tables) refl
    where
      go :
          (b : Bool) (o : Option (A × T))
          → q w.tables ≡ o
          → Ensures N E (if b then next none (record w { sent = suc w.sent }) else settle w o)
      go true o e = h
      go false none e = h
      go false (some (a, u)) e = k a u e

module _ {S D A : Type 0} where
  -- A statement whose error is dropped.
  pub Ensures-ignore :
      (N : Unit {0} → S → Type 0) (E : Response D → S → Type 0) (m : S → Run S D A) (s : S)
      → Ensures {D = D} (λ a t. N tt t) E (m s)
      → Ensures N E (ignore m s)
  Ensures-ignore N E m s h = go (m s) h
    where
      go :
          (x : Run S D A)
          → Ensures {D = D} (λ a t. N tt t) E x
          → Ensures N E (ignore (λ (s : S). x) s)
      go (next a t) h = h
      go (stop r t) h = h

  pub Ensures-or_invalid :
      (N : A → S → Type 0) (E : Response D → S → Type 0) (b : Bound A) (r : Response D) (s : S)
      → ((a : A) → b ≡ bound a → N a s)
      → E r s
      → Ensures N E (or_invalid b r s)
  Ensures-or_invalid N E invalid r s h k = k
  Ensures-or_invalid N E (bound a) r s h k = h a refl

  pub Ensures-or_respond_cases :
      (N : A → S → Type 0) (E : Response D → S → Type 0) (o : Option A) (r : Response D) (s : S)
      → ((a : A) → o ≡ some a → N a s)
      → (o ≡ none → E r s)
      → Ensures N E (or_respond o r s)
  Ensures-or_respond_cases N E none r s h k = k refl
  Ensures-or_respond_cases N E (some a) r s h k = h a refl

module _ {S D A : Type 0} where
  -- A handler that never goes on answers.
  pub Ensures-answers :
      (E : Response D → S → Type 0) (m : Run S D A)
      → Ensures (λ _ t. ⊥) E m
      → (r : Response D) × (t : S) × (m ≡ stop r t) × E r t
  Ensures-answers E (next a t) h = absurd h
  Ensures-answers E (stop r t) h = (r, t, refl, h)
