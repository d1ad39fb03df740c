-- ===== src/Run.antt =====
-- How a method ends: it returns, it waits for a lock that its own goroutine holds, it panics, or it
-- is still in a loop when the fuel is gone.
pub data Run {ℓ} (A : Type ℓ) : Type ℓ where
  returns : A → Run A
  deadlock panics spins : Run A

infixl 5 ◌>>=◌
abbrev pub ◌>>=◌ {ℓ κ} : {A : Type ℓ} {B : Type κ} → Run A → (A → Run B) → Run B
returns a >>= f = f a
deadlock >>= f = deadlock
panics >>= f = panics
spins >>= f = spins
