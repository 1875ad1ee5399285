-- ===== src/Prelude/Exec.antt =====
-- The outcome of code that follows pointers: a result, a use of memory that is not allocated, or
-- the end of the fuel that bounds a loop.
pub data Exec {ℓ} (A : Type ℓ) : Type ℓ where
  done : A → Exec A
  fault : Exec A
  spent : Exec A

infixl 5 ◌>>=◌
abbrev pub ◌>>=◌ {ℓ₁ ℓ₂} : {A : Type ℓ₁} {B : Type ℓ₂} → Exec A → (A → Exec B) → Exec B
done a >>= f = f a
fault >>= f = fault
spent >>= f = spent
