-- ===== src/Http/Forward.antt =====
-- Running a handler forward where each of its steps is known.
use weiyeston.Base.{suc, Bool, false, Option, none, some, ◌≡◌, refl, ap, ◌∙◌, if◌then◌else◌}
use weiyeston.Http.{
  Run, next, ◌>>=◌, ◌>>◌, or_fail, Response, World, Env, statement, settle, reject,
}

module _ {S D A B : Type 0} where
  pub >>=-of-next :
      (m : S → Run S D A) (f : A → S → Run S D B) (s : S) {a : A} {t : S}
      → m s ≡ next a t
      → (m >>= f) s ≡ f a t
  >>=-of-next m f s h = rw (h, ◌>>=◌) refl

  pub >>-of-next :
      (m : S → Run S D A) (f : S → Run S D B) (s : S) {a : A} {t : S}
      → m s ≡ next a t
      → (m >> f) s ≡ f t
  >>-of-next m f s h = rw (h, ◌>>◌) refl

module _ {S D A : Type 0} where
  pub or_fail-of-next :
      (m : S → Run S D (Option A)) (r : Response D) (s : S) {a : A} {t : S}
      → m s ≡ next (some a) t
      → or_fail m r s ≡ next a t
  or_fail-of-next m r s h = rw (h, or_fail) refl

module _ {S D : Type 0} where
  pub reject-of-false : (b : Bool) (r : Response D) (s : S) → b ≡ false → reject b r s ≡ next tt s
  reject-of-false b r s h = ap (λ b. reject b r s) h

module _ {T C D A : Type 0} where
  pub statement_runs :
      (env : Env) (q : T → Option (A × T)) (w : World T C) {a : A} {u : T}
      → env.fails w.sent ≡ false
      → q w.tables ≡ some (a, u)
      → statement {D = D} env q w ≡ next (some a) (record w { tables = u; sent = suc w.sent })
  statement_runs env q w h k =
      ap (λ b. if b then next none (record w { sent = suc w.sent }) else settle w (q w.tables)) h
      ∙ ap (settle w) k
