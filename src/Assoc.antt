-- ===== src/Assoc.antt =====
-- A Go map as an association list: one entry for a key, put where it was or at the end.
use weiyeston.Base.{
  ◌≡◌, refl, Option, none, some, List, [], ◌∷◌, arith, if◌then◌else◌, Eq, ◌==◌, All, Bool-cases,
  inl, inr,
}

module _ {K V : Type 0} ⦃e : Eq K⦄ where
  unfoldable pub lookup : K → List (K × V) → Option V
  lookup key [] = none
  lookup key ((held, value) ∷ entries) = if held == key then some value else lookup key entries

  unfoldable pub insert : K → V → List (K × V) → List (K × V)
  insert key value [] = (key, value) ∷ []
  insert key value ((held, old) ∷ entries) =
      if held == key then (key, value) ∷ entries else (held, old) ∷ insert key value entries

  unfoldable pub remove : K → List (K × V) → List (K × V)
  remove key [] = []
  remove key ((held, old) ∷ entries) =
      let rest = remove key entries in if held == key then rest else (held, old) ∷ rest

  pub lookup-insert :
      (key held : K) (value : V) (entries : List (K × V))
      → lookup held (insert key value entries)
        ≡ (if key == held then some value else lookup held entries)
  unfolding lookup insert
  lookup-insert key held value [] = refl
  lookup-insert key held value ((i, old) ∷ entries) = ground (
    arith,
    e.beq_iff key held,
    e.beq_iff i key,
    e.beq_iff i held,
    lookup-insert key held value entries,
  )

  pub lookup-remove :
      (key held : K) (entries : List (K × V))
      → lookup held (remove key entries) ≡ (if key == held then none else lookup held entries)
  unfolding lookup remove
  lookup-remove key held [] = ground arith
  lookup-remove key held ((i, old) ∷ entries) =
      ground (
        arith,
        e.beq_iff key held,
        e.beq_iff i key,
        e.beq_iff i held,
        lookup-remove key held entries,
      )

  pub All-insert {ℓ} :
      (P : K × V → Type ℓ) (key : K) (value : V) (entries : List (K × V))
      → P (key, value)
      → All P entries
      → All P (insert key value entries)
  unfolding insert
  All-insert P key value [] p h = (p, tt)
  All-insert P key value ((held, old) ∷ entries) p h =
      ground (arith, All-insert P key value entries p h.1)

  pub All-lookup {ℓ} :
      (P : K × V → Type ℓ) (key : K) (value : V) (entries : List (K × V))
      → lookup key entries ≡ some value
      → All P entries
      → P (key, value)
  unfolding lookup
  All-lookup P key value [] h a = ground arith
  All-lookup P key value ((held, old) ∷ entries) h a = elim (Bool-cases (held == key)) [
    | inl same ↦
        let same_key : held ≡ key = (e.beq_iff held key).0 same in
        let same_value : old ≡ value = ground arith in rw (← same_key, ← same_value) a.0
    | inr other ↦ All-lookup P key value entries (ground arith) a.1
  ]

module _ {K V : Type 0} ⦃e : Eq K⦄ where
  -- No key stands twice.
  abbrev pub HasUniqueKeys : List (K × V) → Type 0
  HasUniqueKeys [] = Unit
  HasUniqueKeys ((key, value) ∷ entries) = (lookup key entries ≡ none) × HasUniqueKeys entries

  pub insert-HasUniqueKeys :
      (key : K) (value : V) (entries : List (K × V))
      → HasUniqueKeys entries
      → HasUniqueKeys (insert key value entries)
  unfolding lookup insert
  insert-HasUniqueKeys key value [] h = ground arith
  insert-HasUniqueKeys key value ((held, old) ∷ entries) h = ground (
    arith,
    e.beq_iff held key,
    e.beq_iff key held,
    lookup-insert key held value entries,
    insert-HasUniqueKeys key value entries h.1,
  )
