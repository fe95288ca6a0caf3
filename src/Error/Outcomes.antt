-- ===== src/Error/Outcomes.antt =====
-- src/error.rs: which outcomes a chain of fallible steps can have.
use sctp.Base.{◌≡◌, Bool, true, false, refl, Option, some}
use sctp.Error.{Result, ok, err, panicked, ◌>>=◌, ◌>>◌, guard, reading, Error}

-- An outcome that is a value or an error, never an abort, and whose value satisfies P.
abbrev pub Safe {ℓ} : {A : Type ℓ} → (A → Type 0) → Result A → Type 0
Safe P (ok a) = P a
Safe P (err e) = Unit
Safe P panicked = ⊥

module _ {ℓ} {A : Type ℓ} (P : A → Type 0) where
  pub >>-Safe :
      (m : Result (Unit {0})) (r : Result A) → Safe (λ u. Unit {0}) m → Safe P r → Safe P (m >> r)
  >>-Safe (ok u) r h g = g
  >>-Safe (err e) r h g = tt
  >>-Safe panicked r h g = absurd h

  pub guard-Safe :
      (b : Bool) (e : Error) (r : Result A) → (b ≡ true → Safe P r) → Safe P (guard b e >> r)
  guard-Safe true e r h = h refl
  guard-Safe false e r h = tt

  pub >>=-Safe {κ} :
      {B : Type κ} (Q : B → Type 0) (m : Result B) (f : B → Result A)
      → Safe Q m
      → ((b : B) → m ≡ ok b → Q b → Safe P (f b))
      → Safe P (m >>= f)
  >>=-Safe Q (ok b) f h g = g b refl h
  >>=-Safe Q (err e) f h g = tt
  >>=-Safe Q panicked f h g = absurd h

  pub reading-Safe {κ} :
      {B : Type κ} (o : Option B) (f : B → Result A) (a : B)
      → o ≡ some a
      → Safe P (f a)
      → Safe P (reading o >>= f)
  reading-Safe o f a e h = rw e h
