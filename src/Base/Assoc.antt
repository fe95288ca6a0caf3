-- ===== src/Base/Assoc.antt =====
-- A hash map with numeric keys, as an association list in which an insertion replaces the old entry.
use mathlib.Core.Path.{◌≡◌, refl}
use mathlib.Core.Bool.{Bool, true, false}
use mathlib.Core.Logic.{◌⊎◌, inl}
use mathlib.Core.List.{List, [], ◌∷◌, map}
use mathlib.Core.Option.{Option, none, some}
use Prim.Native.Nat.{ℕ, ◌+◌, ◌<◌}
use sctp.Base.Lists.{length}
use sctp.Base.Sort.{total}
use native.Mathlib.Omega.{arith}
use sctp.Base.Tests.{if◌then◌else◌, ◌==◌}

-- How often a key occurs in a list, and among the keys of a map.
abbrev pub count : ℕ → List ℕ → ℕ
count k = total (λ j. if j == k then 1 else 0)

abbrev pub keys {ℓ} : {V : Type ℓ} → List (ℕ × V) → List ℕ
keys = map (λ e. e.0)

abbrev pub occurs : Bool → ℕ
occurs b = if b then 1 else 0

module _ {ℓ} {V : Type ℓ} where
  unfoldable pub lookup : ℕ → List (ℕ × V) → Option V
  lookup key [] = none
  lookup key (entry ∷ rest) = if entry.0 == key then some entry.1 else lookup key rest

  unfoldable pub contains_key : ℕ → List (ℕ × V) → Bool
  contains_key key [] = false
  contains_key key (entry ∷ rest) = if entry.0 == key then true else contains_key key rest

  unfoldable pub insert : ℕ → V → List (ℕ × V) → List (ℕ × V)
  insert key value [] = (key, value) ∷ []
  insert key value (entry ∷ rest) =
      let replaced = (key, value) ∷ rest in
      if entry.0 == key then replaced else entry ∷ insert key value rest

  unfoldable pub remove : ℕ → List (ℕ × V) → List (ℕ × V)
  remove k [] = []
  remove k ((j, w) ∷ m) = if j == k then m else (j, w) ∷ remove k m

  -- `get_mut` with an update of the value in place.
  unfoldable pub modify : ℕ → (V → V) → List (ℕ × V) → List (ℕ × V)
  modify k f [] = []
  modify k f ((j, w) ∷ m) = if j == k then (j, f w) ∷ m else (j, w) ∷ modify k f m

  pub lookup-insert :
      (key asked : ℕ) (value : V) (m : List (ℕ × V))
      → lookup asked (insert key value m) ≡ (if key == asked then some value else lookup asked m)
  unfolding insert lookup
  lookup-insert key asked value [] = refl
  lookup-insert key asked value (entry ∷ rest) = ground (arith, lookup-insert key asked value rest)

  pub lookup-modify :
      (k j : ℕ) (f : V → V) (m : List (ℕ × V))
      → lookup j (modify k f m)
        ≡ (if k == j then elim (lookup j m) [ none ↦ none | some v ↦ some (f v) ] else lookup j m)
  unfolding lookup modify
  lookup-modify k j f [] = ground arith
  lookup-modify k j f ((i, w) ∷ m) = ground (arith, lookup-modify k j f m)

module _ {ℓ} {V : Type ℓ} where
  pub contains_key-insert :
      (k j : ℕ) (v : V) (m : List (ℕ × V))
      → contains_key k (insert j v m) ≡ (if j == k then true else contains_key k m)
  unfolding contains_key insert
  contains_key-insert k j v [] = refl
  contains_key-insert k j v ((i, w) ∷ m) = ground (arith, contains_key-insert k j v m)

  pub count-insert :
      (k j : ℕ) (v : V) (m : List (ℕ × V))
      → contains_key j m ≡ false
      → count k (keys (insert j v m)) ≡ count k (keys m) + occurs (j == k)
  unfolding contains_key insert
  count-insert k j v [] h = ground arith
  count-insert k j v ((i, w) ∷ m) h = ground (arith, count-insert k j v m)

  pub length-insert :
      (j : ℕ) (v : V) (m : List (ℕ × V))
      → contains_key j m ≡ false
      → length (insert j v m) ≡ length m + 1
  unfolding contains_key insert
  length-insert j v [] h = omega arith
  length-insert j v ((i, w) ∷ m) h = ground (arith, length-insert j v m)

  pub contains_key-lookup :
      (k : ℕ) (v : V) (m : List (ℕ × V)) → lookup k m ≡ some v → contains_key k m ≡ true
  unfolding contains_key lookup
  contains_key-lookup k v [] h = cc
  contains_key-lookup k v ((i, w) ∷ m) h = ground (arith, contains_key-lookup k v m)

  pub contains_key-lookup-none :
      (k : ℕ) (m : List (ℕ × V)) → lookup k m ≡ none → contains_key k m ≡ false
  unfolding contains_key lookup
  contains_key-lookup-none k [] h = refl
  contains_key-lookup-none k ((i, w) ∷ m) h = ground (arith, contains_key-lookup-none k m)

  -- A key that occurs at most once is gone after its removal, and the others stay.
  pub count-remove :
      (k j : ℕ) (m : List (ℕ × V))
      → contains_key j m ≡ true
      → count k (keys (remove j m)) + occurs (j == k) ≡ count k (keys m)
  unfolding contains_key remove
  count-remove k j [] h = cc
  count-remove k j ((i, w) ∷ m) h = ground (arith, count-remove k j m)

  pub length-remove :
      (j : ℕ) (m : List (ℕ × V)) → contains_key j m ≡ true → length (remove j m) + 1 ≡ length m
  unfolding contains_key remove
  length-remove j [] h = cc
  length-remove j ((i, w) ∷ m) h = ground (arith, length-remove j m)

  pub contains_key-count :
      (k : ℕ) (m : List (ℕ × V))
      → ((contains_key k m ≡ false) × (count k (keys m) ≡ 0))
        ⊎ ((contains_key k m ≡ true) × (0 < count k (keys m)))
  unfolding contains_key
  contains_key-count k [] = inl (refl, refl)
  contains_key-count k ((i, w) ∷ m) = ground (arith, contains_key-count k m)

  pub contains_key-modify :
      (k j : ℕ) (f : V → V) (m : List (ℕ × V)) → contains_key k (modify j f m) ≡ contains_key k m
  unfolding contains_key modify
  contains_key-modify k j f [] = refl
  contains_key-modify k j f ((i, w) ∷ m) = ground (arith, contains_key-modify k j f m)

  pub keys-modify : (j : ℕ) (f : V → V) (m : List (ℕ × V)) → keys (modify j f m) ≡ keys m
  unfolding modify
  keys-modify j f [] = refl
  keys-modify j f ((i, w) ∷ m) = ground (arith, keys-modify j f m)

  pub length-modify : (j : ℕ) (f : V → V) (m : List (ℕ × V)) → length (modify j f m) ≡ length m
  unfolding modify
  length-modify j f [] = refl
  length-modify j f ((i, w) ∷ m) = ground (arith, length-modify j f m)
