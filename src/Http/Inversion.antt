-- ===== src/Http/Inversion.antt =====
-- Taking a handler apart from how it ends.
use weiyeston.Base.{◌≡◌, refl, ◌⊎◌, inl, inr, Bool, false, Option, none, some, arith}
use weiyeston.Http.{Run, next, stop, ◌>>=◌, Response, reject, or_respond}

module _ {S D A : Type 0} where
  pub Run-cases :
      (m : Run S D A)
      → ((a : A) × (t : S) × (m ≡ next a t)) ⊎ ((r : Response D) × (t : S) × (m ≡ stop r t))
  Run-cases (next a t) = inl (a, t, refl)
  Run-cases (stop r t) = inr (r, t, refl)

module _ {S D A B : Type 0} where
  -- A chain passes only if its head does.
  pub >>=-eq-next :
      (m : S → Run S D A) (f : A → S → Run S D B) (s : S) {b : B} {t : S}
      → (m >>= f) s ≡ next b t
      → (a : A) × (u : S) × (m s ≡ next a u) × (f a u ≡ next b t)
  >>=-eq-next m f s h = elim (Run-cases (m s)) [
    | inl (a, u, e) ↦ (a, u, e, rw (e, ◌>>=◌) at h)
    | inr (r, u, e) ↦ let clash = rw (e, ◌>>=◌) at h in cc
  ]

module _ {S D : Type 0} where
  pub reject-eq-next :
      (b : Bool) (r : Response D) (s t : S) → reject b r s ≡ next tt t → (b ≡ false) × (t ≡ s)
  reject-eq-next b r s t h = ground arith

  pub or_respond-eq-next :
      {A : Type 0} (o : Option A) (r : Response D) (s : S) {a : A} {t : S}
      → or_respond o r s ≡ next a t
      → (o ≡ some a) × (t ≡ s)
  or_respond-eq-next none r s h = cc
  or_respond-eq-next (some a) r s h = (ground arith, ground arith)
