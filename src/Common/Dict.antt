-- ===== src/Common/Dict.antt =====
-- `HashMap` as an association list. The order of the list stands for the order in which the table
-- is walked, which the standard library leaves open; the laws speak of lookups.
use silvana_book_agent.Common.{
  ◌≡◌, refl, inl, inr, Bool, true, Option, none, some, List, [], ◌∷◌, arith, Eq, ◌==◌,
  if◌then◌else◌, is_some, Bool-cases,
}

abbrev pub Dict {ℓ κ} : Type ℓ → Type κ → Type (ℓ ⊔ κ)
Dict K V = List (K × V)

module _ {ℓ κ} {K : Type ℓ} {V : Type κ} where
  -- `retain` by a test on the key
  abbrev pub retain_keys : (K → Bool) → Dict K V → Dict K V
  retain_keys p [] = []
  retain_keys p ((j, w) ∷ d) = if p j then (j, w) ∷ retain_keys p d else retain_keys p d

  -- `retain` by a test on the value
  abbrev pub retain : (V → Bool) → Dict K V → Dict K V
  retain p [] = []
  retain p ((j, w) ∷ d) = if p w then (j, w) ∷ retain p d else retain p d

  -- `for v in values_mut() { *v = f(v) }`
  abbrev pub map_values : (V → V) → Dict K V → Dict K V
  map_values f [] = []
  map_values f ((j, w) ∷ d) = (j, f w) ∷ map_values f d

  -- `values`
  abbrev pub values : Dict K V → List V
  values [] = []
  values ((_, w) ∷ d) = w ∷ values d

  -- Every value that is stored satisfies `P`.
  abbrev pub AllValues {μ} : (V → Type μ) → Dict K V → Type μ
  AllValues P [] = Unit
  AllValues P ((k, v) ∷ d) = P v × AllValues P d

module _ {ℓ κ} {K : Type ℓ} {V : Type κ} ⦃e : Eq K⦄ where
  -- `get`
  abbrev pub lookup : K → Dict K V → Option V
  lookup k [] = none
  lookup k ((j, v) ∷ d) = if j == k then some v else lookup k d

  -- `contains_key`
  abbrev pub contains : K → Dict K V → Bool
  contains k d = is_some (lookup k d)

  -- `insert`
  abbrev pub insert : K → V → Dict K V → Dict K V
  insert k v [] = (k, v) ∷ []
  insert k v ((j, w) ∷ d) = if j == k then (k, v) ∷ d else (j, w) ∷ insert k v d

  -- `remove`
  abbrev pub remove : K → Dict K V → Dict K V
  remove k [] = []
  remove k ((j, w) ∷ d) = if j == k then remove k d else (j, w) ∷ remove k d

  -- No key is listed twice.
  abbrev pub IsUnique : Dict K V → Type κ
  IsUnique [] = Unit
  IsUnique ((k, v) ∷ d) = (lookup k d ≡ none) × IsUnique d

pub ==_refl {ℓ} : {K : Type ℓ} ⦃e : Eq K⦄ (k : K) → (k == k) ≡ true
==_refl ⦃e⦄ k = (e.decides k k).1 refl

module _ {κ} {V : Type κ} where
  -- What a lookup finds after `retain`.
  abbrev pub kept : (V → Bool) → Option V → Option V
  kept p none = none
  kept p (some v) = if p v then some v else none

  -- What a lookup finds after every value was changed.
  abbrev pub changed : (V → V) → Option V → Option V
  changed f none = none
  changed f (some v) = some (f v)

module _ {ℓ κ} {K : Type ℓ} {V : Type κ} ⦃e : Eq K⦄ where
  pub lookup-insert :
      (k j : K) (v : V) (d : Dict K V)
      → lookup j (insert k v d) ≡ (if k == j then some v else lookup j d)
  lookup-insert k j v [] = refl
  lookup-insert k j v ((i, w) ∷ d) =
      ground (arith, e.decides k j, e.decides i k, e.decides i j, lookup-insert k j v d)

  pub lookup-remove :
      (k j : K) (d : Dict K V) → lookup j (remove k d) ≡ (if k == j then none else lookup j d)
  lookup-remove k j [] = ground arith
  lookup-remove k j ((i, w) ∷ d) =
      ground (arith, e.decides k j, e.decides i k, e.decides i j, lookup-remove k j d)

  pub lookup-retain_keys :
      (p : K → Bool) (j : K) (d : Dict K V)
      → lookup j (retain_keys p d) ≡ (if p j then lookup j d else none)
  lookup-retain_keys p j [] = ground arith
  lookup-retain_keys p j ((i, w) ∷ d) = elim (Bool-cases (i == j)) [
    | inl same ↦ let eq : i ≡ j = (e.decides i j).0 same in ground (arith, lookup-retain_keys p j d)
    | inr other ↦ ground (arith, lookup-retain_keys p j d)
  ]

  pub insert-IsUnique : (k : K) (v : V) (d : Dict K V) → IsUnique d → IsUnique (insert k v d)
  insert-IsUnique k v [] h = (refl, tt)
  insert-IsUnique k v ((i, w) ∷ d) h =
      ground (arith, e.decides i k, e.decides k i, lookup-insert k i v d, insert-IsUnique k v d h.1)

  pub remove-IsUnique : (k : K) (d : Dict K V) → IsUnique d → IsUnique (remove k d)
  remove-IsUnique k [] h = tt
  remove-IsUnique k ((i, w) ∷ d) h = ground (arith, lookup-remove k i d, remove-IsUnique k d h.1)

  pub retain_keys-IsUnique : (p : K → Bool) (d : Dict K V) → IsUnique d → IsUnique (retain_keys p d)
  retain_keys-IsUnique p [] h = tt
  retain_keys-IsUnique p ((i, w) ∷ d) h =
      ground (arith, lookup-retain_keys p i d, retain_keys-IsUnique p d h.1)

  pub lookup-retain-none :
      (p : V → Bool) (j : K) (d : Dict K V) → lookup j d ≡ none → lookup j (retain p d) ≡ none
  lookup-retain-none p j [] h = refl
  lookup-retain-none p j ((i, w) ∷ d) h = ground (arith, lookup-retain-none p j d)

  pub retain-IsUnique : (p : V → Bool) (d : Dict K V) → IsUnique d → IsUnique (retain p d)
  retain-IsUnique p [] h = tt
  retain-IsUnique p ((i, w) ∷ d) h =
      ground (arith, lookup-retain-none p i d, retain-IsUnique p d h.1)

  pub lookup-retain :
      (p : V → Bool) (j : K) (d : Dict K V)
      → IsUnique d
      → lookup j (retain p d) ≡ kept p (lookup j d)
  lookup-retain p j [] h = refl
  lookup-retain p j ((i, w) ∷ d) h = elim (Bool-cases (i == j)) [
    | inl same ↦
        let eq : i ≡ j = (e.decides i j).0 same in
        ground
          (arith, lookup-retain-none p i d h.0, lookup-retain-none p j d, lookup-retain p j d h.1)
    | inr other ↦ ground (arith, lookup-retain p j d h.1)
  ]

  pub lookup-map_values :
      (f : V → V) (j : K) (d : Dict K V) → lookup j (map_values f d) ≡ changed f (lookup j d)
  lookup-map_values f j [] = refl
  lookup-map_values f j ((i, w) ∷ d) = ground (arith, lookup-map_values f j d)

  pub map_values-IsUnique : (f : V → V) (d : Dict K V) → IsUnique d → IsUnique (map_values f d)
  map_values-IsUnique f [] h = tt
  map_values-IsUnique f ((i, w) ∷ d) h =
      ground (arith, lookup-map_values f i d, map_values-IsUnique f d h.1)

  pub AllValues-lookup {μ} :
      (P : V → Type μ) (k : K) {v : V} (d : Dict K V) → AllValues P d → lookup k d ≡ some v → P v
  AllValues-lookup P k [] h found = cc
  AllValues-lookup P k {v} ((i, w) ∷ d) h found = ground (arith, AllValues-lookup P k {v = v} d h.1)

  pub AllValues-insert {μ} :
      (P : V → Type μ) (k : K) (v : V) (d : Dict K V)
      → P v
      → AllValues P d
      → AllValues P (insert k v d)
  AllValues-insert P k v [] p h = (p, tt)
  AllValues-insert P k v ((i, w) ∷ d) p h = ground (arith, AllValues-insert P k v d p h.1)

  pub AllValues-remove {μ} :
      (P : V → Type μ) (k : K) (d : Dict K V) → AllValues P d → AllValues P (remove k d)
  AllValues-remove P k [] h = tt
  AllValues-remove P k ((i, w) ∷ d) h = ground (arith, AllValues-remove P k d h.1)
