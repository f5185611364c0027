-- ===== src/Base/Lists.antt =====
-- List functions over the native numbers, and the searches of a table by a Boolean test.
use Prim.Native.Nat.{ℕ, zero, suc, ◌+◌}
use mathlib.Core.Path.{◌≡◌, refl}
use mathlib.Core.Bool.{◌&&◌, Bool, true, false, ◌||◌}
use mathlib.Core.List.{List, [], ◌∷◌, ◌++◌}
use mathlib.Core.Option.{Option, none, some}
use native.Mathlib.Omega.{arith}
use weiyeston.Base.Tests.{if◌then◌else◌}

module _ {ℓ} {A : Type ℓ} where
  abbrev pub length : List A → ℕ
  length [] = 0
  length (x ∷ xs) = suc (length xs)

  abbrev pub take : ℕ → List A → List A
  take zero xs = []
  take (suc n) [] = []
  take (suc n) (x ∷ xs) = x ∷ take n xs

  abbrev pub drop : ℕ → List A → List A
  drop zero xs = xs
  drop (suc n) [] = []
  drop (suc n) (x ∷ xs) = drop n xs

  unfoldable pub find : (A → Bool) → List A → Option A
  find p [] = none
  find p (x ∷ xs) = if p x then some x else find p xs

  unfoldable pub any : (A → Bool) → List A → Bool
  any p [] = false
  any p (x ∷ xs) = p x || any p xs

  unfoldable pub filter : (A → Bool) → List A → List A
  filter p [] = []
  filter p (x ∷ xs) = let rest = filter p xs in if p x then x ∷ rest else rest

  unfoldable pub count : (A → Bool) → List A → ℕ
  count p [] = 0
  count p (x ∷ xs) = (if p x then 1 else 0) + count p xs

  -- `UPDATE … SET f WHERE p`.
  unfoldable pub update_where : (A → Bool) → (A → A) → List A → List A
  update_where p f [] = []
  update_where p f (x ∷ xs) = (if p x then f x else x) ∷ update_where p f xs

  pub count-append : (p : A → Bool) (xs ys : List A) → count p (xs ++ ys) ≡ count p xs + count p ys
  unfolding count
  count-append p [] ys = omega arith
  count-append p (x ∷ xs) ys = omega (arith, count-append p xs ys)

  pub find_sound : (p : A → Bool) (xs : List A) (a : A) → find p xs ≡ some a → p a ≡ true
  unfolding find
  find_sound p [] a h = ground arith
  find_sound p (x ∷ xs) a h = ground (arith, find_sound p xs a)

module _ {ℓ κ} {A : Type ℓ} (P : A → Type κ) where
  abbrev pub All : List A → Type κ
  All [] = Unit
  All (x ∷ xs) = P x × All xs

  pub All-append : (xs ys : List A) → All xs → All ys → All (xs ++ ys)
  All-append [] ys hx hy = hy
  All-append (x ∷ xs) ys hx hy = (hx.0, All-append xs ys hx.1 hy)

  pub All-filter : (p : A → Bool) (xs : List A) → All xs → All (filter p xs)
  unfolding filter
  All-filter p [] h = tt
  All-filter p (x ∷ xs) h = ground (arith, All-filter p xs h.1)

  -- An update keeps what it keeps at each row that it changes.
  pub All-update_where :
      (p : A → Bool) (f : A → A) (xs : List A)
      → ((x : A) → p x ≡ true → P x → P (f x))
      → All xs
      → All (update_where p f xs)
  unfolding update_where
  All-update_where p f [] k h = tt
  All-update_where p f (x ∷ xs) k h = ground (arith, k x, All-update_where p f xs k h.1)

module _ {ℓ} {A : Type ℓ} (R : A → A → Type 0) where
  -- Two lists of one length that are related place by place.
  abbrev pub Pairs : List A → List A → Type 0
  Pairs [] [] = Unit
  Pairs (x ∷ xs) (y ∷ ys) = R x y × Pairs xs ys
  Pairs _ _ = ⊥

  pub Pairs-update_where :
      (p : A → Bool) (f : A → A) (xs : List A)
      → ((x : A) → p x ≡ true → R x (f x))
      → ((x : A) → p x ≡ false → R x x)
      → Pairs xs (update_where p f xs)
  unfolding update_where
  Pairs-update_where p f [] h k = tt
  Pairs-update_where p f (x ∷ xs) h k = (go (p x) refl, Pairs-update_where p f xs h k)
    where
      go : (b : Bool) → p x ≡ b → R x (if b then f x else x)
      go true e = h x e
      go false e = k x e

module _ {ℓ κ} {A : Type ℓ} {P Q : A → Type κ} (f : (x : A) → P x → Q x) where
  pub All-map : (xs : List A) → All P xs → All Q xs
  All-map [] h = tt
  All-map (x ∷ xs) h = (f x h.0, All-map xs h.1)

module _ {ℓ} {A : Type ℓ} where
  unfoldable pub insert_by : (A → A → Bool) → A → List A → List A
  insert_by before x [] = x ∷ []
  insert_by before x (y ∷ ys) = if before y x then y ∷ insert_by before x ys else x ∷ y ∷ ys

  -- `ORDER BY`: rows that tie stay in the table's order.
  unfoldable pub sort_by : (A → A → Bool) → List A → List A
  unfolding insert_by
  sort_by before [] = []
  sort_by before (x ∷ xs) = insert_by before x (sort_by before xs)

  pub count-insert_by :
      (p : A → Bool) (before : A → A → Bool) (x : A) (ys : List A)
      → count p (insert_by before x ys) ≡ count p (x ∷ ys)
  unfolding count insert_by
  count-insert_by p before x [] = refl
  count-insert_by p before x (y ∷ ys) = ground (arith, count-insert_by p before x ys)

  -- Sorting neither drops rows nor makes them up.
  pub count-sort_by :
      (p : A → Bool) (before : A → A → Bool) (xs : List A)
      → count p (sort_by before xs) ≡ count p xs
  unfolding count sort_by
  count-sort_by p before [] = refl
  count-sort_by p before (x ∷ xs) =
      ground (arith, count-insert_by p before x (sort_by before xs), count-sort_by p before xs)

module _ {ℓ κ} {A : Type ℓ} {P Q : A → Type κ} where
  -- An update brings the rows that it changes and the rows that it leaves to the same condition.
  pub update_where-All :
      (p : A → Bool) (f : A → A) (xs : List A)
      → ((x : A) → p x ≡ true → P x → Q (f x))
      → ((x : A) → p x ≡ false → P x → Q x)
      → All P xs
      → All Q (update_where p f xs)
  unfolding update_where
  update_where-All p f [] k l h = tt
  update_where-All p f (x ∷ xs) k l h = ground (arith, k x, l x, update_where-All p f xs k l h.1)

-- No row stands behind a row that it comes before.
abbrev pub IsSorted {ℓ} : {A : Type ℓ} → (A → A → Bool) → List A → Type 0
IsSorted before [] = Unit
IsSorted before (x ∷ []) = Unit
IsSorted before (x ∷ y ∷ ys) = (before y x ≡ false) × IsSorted before (y ∷ ys)

module _ {ℓ} {A : Type ℓ} (before : A → A → Bool) where
  pub insert_by-IsSorted :
      (x : A) (ys : List A)
      → ((a b : A) → before a b ≡ true → before b a ≡ false)
      → IsSorted before ys
      → IsSorted before (insert_by before x ys)
  unfolding insert_by
  insert_by-IsSorted x [] k h = tt
  insert_by-IsSorted x (y ∷ []) k h = ground (arith, k y x)
  insert_by-IsSorted x (y ∷ z ∷ zs) k h =
      ground (arith, k y x, h, insert_by-IsSorted x (z ∷ zs) k h.1)

  pub sort_by-IsSorted :
      (xs : List A)
      → ((a b : A) → before a b ≡ true → before b a ≡ false)
      → IsSorted before (sort_by before xs)
  unfolding sort_by
  sort_by-IsSorted [] k = tt
  sort_by-IsSorted (x ∷ xs) k = insert_by-IsSorted x (sort_by before xs) k (sort_by-IsSorted xs k)

module _ {ℓ} {A : Type ℓ} (R : A → A → Type 0) where
  -- Every element stands in a relation to all that come behind it.
  abbrev pub Ordered : List A → Type 0
  Ordered [] = Unit
  Ordered (x ∷ xs) = All (λ y. R x y) xs × Ordered xs

module _ {ℓ} {A : Type ℓ} (before : A → A → Bool) where
  pub IsSorted-Ordered :
      (xs : List A)
      → ((x y z : A) → before y x ≡ false → before z y ≡ false → before z x ≡ false)
      → IsSorted before xs
      → Ordered (λ x y. before y x ≡ false) xs
  IsSorted-Ordered [] k h = tt
  IsSorted-Ordered (x ∷ []) k h = (tt, tt)
  IsSorted-Ordered (x ∷ y ∷ ys) k h =
      let rest = IsSorted-Ordered (y ∷ ys) k h.1 in
      (
        (
          h.0,
          All-map {P = λ z. before z y ≡ false} {Q = λ z. before z x ≡ false} (λ z b. k x y z h.0 b)
              ys rest.0,
        ),
        rest,
      )

module _ {ℓ} {A : Type ℓ} {R S : A → A → Type 0} (f : (x y : A) → R x y → S x y) where
  pub Ordered-map : (xs : List A) → Ordered R xs → Ordered S xs
  Ordered-map [] h = tt
  Ordered-map (x ∷ xs) h = (All-map {P = R x} {Q = S x} (f x) xs h.0, Ordered-map xs h.1)

module _ {ℓ} {A : Type ℓ} where
  pub count-filter :
      (p c : A → Bool) (xs : List A) → count p (filter c xs) ≡ count (λ x. c x && p x) xs
  unfolding count filter
  count-filter p c [] = refl
  count-filter p c (x ∷ xs) = ground (arith, count-filter p c xs)
