-- ===== src/Keys.antt =====
-- Rows under a BIGSERIAL id, and updates among them.
use weiyeston.Base.{
  ℕ, suc, ◌≤◌, Bool, true, false, some, List, [], ◌∷◌, ◌++◌, ℤ, pos, ◌≡◌, ◌≢◌, refl, sym, ◌∙◌,
  arith, All, All-map, All-append, All-update_where, update_where, insert_by, sort_by, filter, find,
  count, if◌then◌else◌, ltb_ℤ, Bool-cases, inl, inr, subst, some_injective,
}

module _ {A : Type 0} (key : A → ℤ) where
  abbrev pub HasUniqueIds : List A → Type 0
  HasUniqueIds [] = Unit
  HasUniqueIds (x ∷ xs) = All (λ y. key y ≢ key x) xs × HasUniqueIds xs

  -- Two rows with one id are one row.
  pub same_row : (xs : List A) → HasUniqueIds xs → All (λ m. All (λ x. key x ≡ key m → x ≡ m) xs) xs
  same_row [] h = tt
  same_row (y ∷ ys) h =
      ((λ e. refl, All-map (λ x n e. absurd (n e)) ys h.0), go ys (same_row ys h.1) h.0)
    where
      go :
          (zs : List A)
          → All (λ m. All (λ x. key x ≡ key m → x ≡ m) ys) zs
          → All (λ z. key z ≢ key y) zs
          → All (λ m. All (λ x. key x ≡ key m → x ≡ m) (y ∷ ys)) zs
      go [] k l = tt
      go (z ∷ zs) k l = ((λ e. absurd (l.0 (sym e)), k.0), go zs k.1 l.1)

  pub update_where-HasUniqueIds :
      (p : A → Bool) (f : A → A) (xs : List A)
      → ((x : A) → key (f x) ≡ key x)
      → HasUniqueIds xs
      → HasUniqueIds (update_where p f xs)
  unfolding update_where
  update_where-HasUniqueIds p f [] k h = tt
  update_where-HasUniqueIds p f (x ∷ xs) k h = (
    All-map (λ y n e. n (e ∙ kept (p x))) _
        (All-update_where _ p f xs (λ y q n e. n (sym (k y) ∙ e)) h.0),
    update_where-HasUniqueIds p f xs k h.1,
  )
    where
      kept : (b : Bool) → key (if b then f x else x) ≡ key x
      kept true = k x
      kept false = refl

  pub append-HasUniqueIds :
      (xs : List A) (r : A)
      → All (λ x. key x ≢ key r) xs
      → HasUniqueIds xs
      → HasUniqueIds (xs ++ r ∷ [])
  append-HasUniqueIds [] r f h = (tt, tt)
  append-HasUniqueIds (x ∷ xs) r f h =
      (All-append _ xs (r ∷ []) h.0 (λ e. f.0 (sym e), tt), append-HasUniqueIds xs r f.1 h.1)

  abbrev pub IsNumbered : ℕ → List A → Type 0
  IsNumbered n = All (λ x. ltb_ℤ (key x) (pos n) ≡ true)

  pub IsNumbered-fresh : (n : ℕ) (xs : List A) → IsNumbered n xs → All (λ x. key x ≢ pos n) xs
  IsNumbered-fresh n xs = All-map (λ x l e. ground arith) xs

  pub IsNumbered-suc : (n : ℕ) (xs : List A) → IsNumbered n xs → IsNumbered (suc n) xs
  IsNumbered-suc n xs = All-map (λ x l. ground arith) xs

module _ {A : Type 0} (P : A → Type 0) where
  All-insert_by :
      (before : A → A → Bool) (x : A) (ys : List A) → P x → All P ys → All P (insert_by before x ys)
  unfolding insert_by
  All-insert_by before x [] p k = (p, tt)
  All-insert_by before x (y ∷ ys) p k = ground (arith, All-insert_by before x ys p k.1)

  pub All-sort_by : (before : A → A → Bool) (xs : List A) → All P xs → All P (sort_by before xs)
  unfolding sort_by
  All-sort_by before [] h = tt
  All-sort_by before (x ∷ xs) h =
      All-insert_by before x (sort_by before xs) h.0 (All-sort_by before xs h.1)

  pub All-find : (p : A → Bool) (xs : List A) (m : A) → All P xs → find p xs ≡ some m → P m
  unfolding find
  All-find p [] m h e = ground arith
  All-find p (x ∷ xs) m h e = elim (Bool-cases (p x)) [
    | inl found ↦ subst P (let same = rw found at e in some_injective same) h.0
    | inr not_here ↦ All-find p xs m h.1 (let later = rw not_here at e in later)
  ]

module _ {A : Type 0} (p c : A → Bool) (f : A → A) where
  -- An update that takes no row out of a condition does not lower the count of its rows.
  pub count-update_where :
      (xs : List A)
      → All (λ x. p x ≡ true → c x ≡ true → c (f x) ≡ true) xs
      → count c xs ≤ count c (update_where p f xs)
  unfolding count update_where
  count-update_where [] h = omega arith
  count-update_where (x ∷ xs) h = ground (arith, h.0, count-update_where xs h.1)

module _ {A : Type 0} (c : A → Bool) where
  pub filter-append : (xs ys : List A) → filter c (xs ++ ys) ≡ filter c xs ++ filter c ys
  unfolding filter
  filter-append [] ys = refl
  filter-append (x ∷ xs) ys = ground (arith, filter-append xs ys)

  -- An update among the rows outside a condition, which stay outside, leaves the rows inside as they are.
  pub filter-update_where :
      (p : A → Bool) (f : A → A) (xs : List A)
      → All (λ x. p x ≡ true → (c x ≡ false) × (c (f x) ≡ false)) xs
      → filter c (update_where p f xs) ≡ filter c xs
  unfolding filter update_where
  filter-update_where p f [] h = refl
  filter-update_where p f (x ∷ xs) h = ground (arith, h.0, filter-update_where p f xs h.1)

module _ {A : Type 0} (p : A → Bool) (f : A → A) where
  -- An update that finds no row changes none.
  pub update_where_none : (xs : List A) → count p xs ≡ 0 → update_where p f xs ≡ xs
  unfolding count update_where
  update_where_none [] h = refl
  update_where_none (x ∷ xs) h = ground (arith, h, update_where_none xs)
