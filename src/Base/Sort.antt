-- ===== src/Base/Sort.antt =====
-- The standard library's stable `sort_by` for a comparator that answers Less or Greater only, as
-- insertion sort on its "less" test, and what it does when that test compares a numeric key.
use mathlib.Core.Path.{◌≡◌, refl}
use mathlib.Core.Bool.{Bool}
use mathlib.Core.Logic.{◌≢◌, inl, inr}
use mathlib.Core.List.{List, [], ◌∷◌, ◌++◌, Perm}
use mathlib.Core.List.Perm
use Prim.Native.Nat.{ℕ, ◌+◌, ◌<◌}
use native.Mathlib.Omega.{arith}
use sctp.Base.Tests.{if◌then◌else◌, ltb, Bool-cases}
use sctp.Base.Lists.{All, All-map}

-- The sum of a measure over a list.
abbrev pub total {ℓ} : {A : Type ℓ} → (A → ℕ) → List A → ℕ
total f [] = 0
total f (x ∷ xs) = f x + total f xs

pub total-append {ℓ} :
    {A : Type ℓ} (f : A → ℕ) (xs ys : List A) → total f (xs ++ ys) ≡ total f xs + total f ys
total-append f [] ys = omega arith
total-append f (x ∷ xs) ys = omega (arith, total-append f xs ys)

-- Strictly increasing by a key.
abbrev pub Ascending {ℓ} : {A : Type ℓ} → (A → ℕ) → List A → Type 0
Ascending key [] = Unit {0}
Ascending key (x ∷ xs) = All (λ y. key x < key y) xs × Ascending key xs

-- Keys that are all different.
abbrev pub Distinct {ℓ} : {A : Type ℓ} → (A → ℕ) → List A → Type 0
Distinct key [] = Unit {0}
Distinct key (x ∷ xs) = All (λ y. key x ≢ key y) xs × Distinct key xs

module _ {ℓ} {A : Type ℓ} (less : A → A → Bool) where
  -- The element stands behind all that are less, and in front of its equals.
  pub insert_by : A → List A → List A
  insert_by x [] = x ∷ []
  insert_by x (y ∷ ys) = if less y x then y ∷ insert_by x ys else x ∷ y ∷ ys

  unfoldable pub sort_by : List A → List A
  unfolding insert_by
  sort_by [] = []
  sort_by (x ∷ xs) = insert_by x (sort_by xs)

module _ {ℓ} {A : Type ℓ} (less : A → A → Bool) where
  insert_by-perm : (x : A) (ys : List A) → Perm (insert_by less x ys) (x ∷ ys)
  unfolding insert_by
  insert_by-perm x [] = Perm.refl (x ∷ [])
  insert_by-perm x (y ∷ ys) = elim (Bool-cases (less y x)) [
    | inl e ↦ rw e (Perm.trans (Perm.cons y (insert_by-perm x ys)) (Perm.swap x y ys))
    | inr e ↦ rw e (Perm.refl (x ∷ y ∷ ys))
  ]

  pub sort_by-perm : (xs : List A) → Perm (sort_by less xs) xs
  unfolding sort_by
  sort_by-perm [] = Perm.refl []
  sort_by-perm (x ∷ xs) =
      Perm.trans (insert_by-perm x (sort_by less xs)) (Perm.cons x (sort_by-perm xs))

  total-insert_by :
      (f : A → ℕ) (x : A) (ys : List A) → total f (insert_by less x ys) ≡ f x + total f ys
  unfolding insert_by
  total-insert_by f x [] = refl
  total-insert_by f x (y ∷ ys) = ground (arith, total-insert_by f x ys)

  pub total-sort_by : (f : A → ℕ) (xs : List A) → total f (sort_by less xs) ≡ total f xs
  unfolding sort_by
  total-sort_by f [] = refl
  total-sort_by f (x ∷ xs) =
      omega (arith, total-insert_by f x (sort_by less xs), total-sort_by f xs)

  All-insert_by {κ} :
      (P : A → Type κ) (x : A) (ys : List A) → P x → All P ys → All P (insert_by less x ys)
  unfolding insert_by
  All-insert_by P x [] p h = (p, tt)
  All-insert_by P x (y ∷ ys) p h = elim (Bool-cases (less y x)) [
    | inl e ↦ rw e (h.0, All-insert_by P x ys p h.1)
    | inr e ↦ rw e (p, (h.0, h.1))
  ]

  pub All-sort_by {κ} : (P : A → Type κ) (xs : List A) → All P xs → All P (sort_by less xs)
  unfolding sort_by
  All-sort_by P [] h = tt
  All-sort_by P (x ∷ xs) h = All-insert_by P x (sort_by less xs) h.0 (All-sort_by P xs h.1)

-- On the domain `D` the test compares the key.
module _ {ℓ κ} {A : Type ℓ} (less : A → A → Bool) (key : A → ℕ) (D : A → Type κ)
    (agrees : (a b : A) → D a → D b → less a b ≡ ltb (key a) (key b)) where
  insert_by-Ascending :
      (x : A) (ys : List A)
      → D x
      → All D ys
      → All (λ y. key x ≢ key y) ys
      → Ascending key ys
      → Ascending key (insert_by less x ys)
  unfolding insert_by
  insert_by-Ascending x [] dx dys ne asc = (tt, tt)
  insert_by-Ascending x (y ∷ ys) dx dys ne asc = elim (Bool-cases (less y x)) [
    | inl e ↦ rw e (
      All-insert_by less (λ z. key y < key z) x ys (ground (arith, agrees y x dys.0 dx)) asc.0,
      insert_by-Ascending x ys dx dys.1 ne.1 asc.1,
    )
    | inr e ↦
        let below : key x < key y = ground (arith, agrees y x dys.0 dx, ne.0) in
        rw e (
          (below, All-map (λ z. key y < key z) (λ z. key x < key z) ys (λ z h. omega arith) asc.0),
          (asc.0, asc.1),
        )
  ]

  pub sort_by-Ascending :
      (xs : List A) → All D xs → Distinct key xs → Ascending key (sort_by less xs)
  unfolding sort_by
  sort_by-Ascending [] d h = tt
  sort_by-Ascending (x ∷ xs) d h =
      insert_by-Ascending x (sort_by less xs) d.0 (All-sort_by less D xs d.1)
        (All-sort_by less (λ y. key x ≢ key y) xs h.0) (sort_by-Ascending xs d.1 h.1)
