-- ===== src/Prelude/Outcomes.antt =====
-- `do` blocks for results that have no state beside them.
use joinstr.Prelude.Results.{Outcome, ok, err, panic, unfinished}

module _ {ℓ κ μ} {E : Type ℓ} {A : Type κ} {B : Type μ} where
  abbrev pub ◌>>=◌ : Outcome E A → (A → Outcome E B) → Outcome E B
  (ok a) >>= f = f a
  (err e) >>= f = err e
  panic >>= f = panic
  unfinished >>= f = unfinished

  infixl 5 ◌>>=◌
