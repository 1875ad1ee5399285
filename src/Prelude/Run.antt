-- ===== src/Prelude/Run.antt =====
-- The outcome of a kernel routine: `panic` stops the machine (`arch_stop`), so it returns nothing.
pub data Run {ℓ} (A : Type ℓ) : Type ℓ where
  ran : A → Run A
  panicked : Run A

infixl 5 ◌>>=◌
abbrev pub ◌>>=◌ {ℓ₁ ℓ₂} : {A : Type ℓ₁} {B : Type ℓ₂} → Run A → (A → Run B) → Run B
ran a >>= f = f a
panicked >>= f = panicked
